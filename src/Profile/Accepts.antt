-- ===== src/Profile/Accepts.antt =====
-- libs/domain/profile.go: which versions can be published, and restored.
use sshai.Base.{
  zero, suc, String, true, false, Option, none, some, ◌≡◌, ◌≢◌, ◌↔◌, refl, sym, ap, ◌∙◌, arith, ℤ,
  is_zero, to_canonical, is_blank, is_content_digest, same_text, same_text_iff, ok,
}
use sshai.Profile.Model.{
  ProfileVersionSnapshot, ProfileVersion, validate_capsule_refs, publish_profile_version,
  restore_profile_version,
}
use sshai.Profile.Versions.{published-snapshot}
use sshai.Profile.Refs.{EachValid, Distinct, validate_capsule_refs_iff}

-- The first version has no parent, and a later one has a parent that is another version.
abbrev pub HasLineage : String → ℤ → Option String → Type 0
HasLineage id (ℤ.negsuc n) parent = ⊥
HasLineage id (ℤ.pos zero) parent = ⊥
HasLineage id (ℤ.pos (suc zero)) none = Unit {0}
HasLineage id (ℤ.pos (suc zero)) (some p) = ⊥
HasLineage id (ℤ.pos (suc (suc n))) none = ⊥
HasLineage id (ℤ.pos (suc (suc n))) (some p) = (is_blank p ≡ false) × (p ≢ id)

pub record IsPublishable (s : ProfileVersionSnapshot) : Type 0 where
  pub id : is_blank s.id ≡ false
  pub profile_id : is_blank s.profile_id ≡ false
  pub digest : is_content_digest s.digest ≡ true
  pub created : is_zero s.created_at ≡ false
  pub each_ref : EachValid s.capsule_refs
  pub distinct_refs : Distinct s.capsule_refs
  pub lineage : HasLineage s.id s.version s.parent_version_id

abbrev canonical : ProfileVersionSnapshot → ProfileVersion
canonical s = record { snapshot = record s { created_at = to_canonical s.created_at } }

module _ (s : ProfileVersionSnapshot) where
  accepted-lineage :
      (v : ProfileVersion) (version : ℤ) (parent : Option String)
      → s.version ≡ version
      → s.parent_version_id ≡ parent
      → publish_profile_version s ≡ ok v
      → HasLineage s.id version parent
  unfolding publish_profile_version
  accepted-lineage v (ℤ.negsuc n) parent e f h = ground (arith, e, f, h)
  accepted-lineage v (ℤ.pos zero) parent e f h = ground (arith, e, f, h)
  accepted-lineage v (ℤ.pos (suc zero)) none e f h = tt
  accepted-lineage v (ℤ.pos (suc zero)) (some p) e f h = ground (arith, e, f, h)
  accepted-lineage v (ℤ.pos (suc (suc n))) none e f h = ground (arith, e, f, h)
  accepted-lineage v (ℤ.pos (suc (suc n))) (some p) e f h =
      (ground (arith, e, f, h), λ q. ground (arith, e, f, h, (same_text_iff p s.id).1 q))

  accepted-IsPublishable : (v : ProfileVersion) → publish_profile_version s ≡ ok v → IsPublishable s
  unfolding publish_profile_version
  accepted-IsPublishable v h =
      let refs : validate_capsule_refs s.capsule_refs ≡ ok tt = ground (arith, h) in
      let (each, distinct) = (validate_capsule_refs_iff s.capsule_refs).0 refs in
      record {
        id = ground (arith, h);
        profile_id = ground (arith, h);
        digest = ground (arith, h);
        created = ground (arith, h);
        each_ref = each;
        distinct_refs = distinct;
        lineage = accepted-lineage v s.version s.parent_version_id refl refl h;
      }

  publishable_accepted :
      (version : ℤ) (parent : Option String)
      → s.version ≡ version
      → s.parent_version_id ≡ parent
      → HasLineage s.id version parent
      → IsPublishable s
      → publish_profile_version s ≡ ok (canonical s)
  unfolding publish_profile_version
  publishable_accepted (ℤ.negsuc n) parent e f l w = absurd l
  publishable_accepted (ℤ.pos zero) parent e f l w = absurd l
  publishable_accepted (ℤ.pos (suc zero)) (some p) e f l w = absurd l
  publishable_accepted (ℤ.pos (suc (suc n))) none e f l w = absurd l
  publishable_accepted (ℤ.pos (suc zero)) none e f l w =
      let refs = (validate_capsule_refs_iff s.capsule_refs).1 (w.each_ref, w.distinct_refs) in
      ground (arith, e, f, refs, w.id, w.profile_id, w.digest, w.created)
  publishable_accepted (ℤ.pos (suc (suc n))) (some p) e f (blank, other) w =
      let refs = (validate_capsule_refs_iff s.capsule_refs).1 (w.each_ref, w.distinct_refs) in
      let apart : same_text p s.id ≡ true → ⊥ = λ q. other ((same_text_iff p s.id).0 q) in
      ground (arith, e, f, refs, w.id, w.profile_id, w.digest, w.created, blank, apart)

  -- A version is restored exactly when its IDs are not blank, its digest is a SHA-256 digest, it has
  -- a creation time, its Capsule Refs are valid and differ, and it is the first one without a parent
  -- or a later one with a parent that is not blank and not itself. The restored version has the
  -- snapshot, with the creation time in canonical form.
  pub restore_profile_version_iff :
      (v : ProfileVersion)
      → (restore_profile_version s ≡ ok v)
        ↔ ((v.snapshot ≡ record s { created_at = to_canonical s.created_at }) × IsPublishable s)
  unfolding restore_profile_version
  restore_profile_version_iff v = (
    λ h. (published-snapshot s v h, accepted-IsPublishable v h),
    λ (e, w).
        publishable_accepted s.version s.parent_version_id refl refl w.lineage w
        ∙ ap (λ (x : ProfileVersionSnapshot). ok (record { snapshot = x })) (sym e),
  )
