-- ===== src/Profile/Heads.antt =====
-- libs/domain/profile.go: publications that expect a head which is not there any more.
use sshai.Base.{
  String, Bool, true, false, Option, none, some, ◌≡◌, ◌≢◌, ◌↔◌, refl, ap, sym, ◌∙◌, arith, ℤ,
  is_some, same_text, same_text_iff, Result, ok, err, errors_new, Error, Bool-cases, inl, inr,
  ◌>>=◌,
}
use sshai.Profile.Model.{
  Profile, ProfileVersionSnapshot, ProfileVersion, ProfileVersionPublication,
  err_stale_profile_head, publish_profile_version, head_version, publish_version,
}
use sshai.Profile.Versions.{from_number, later_number, first_expected, not_self}

-- The head is not the expected one any more.
abbrev pub HeadMoved : Profile → Option ProfileVersion → Option String → Type 0
HeadMoved p none expected = expected ≢ none
HeadMoved p (some head) expected =
    (head.snapshot.profile_id ≡ p.snapshot.id) × (expected ≢ some head.snapshot.id)

abbrev stale_error : Error → Bool
stale_error (errors_new s) = same_text s "stale Profile head"
stale_error _ = false

abbrev is_stale {ℓ} : {A : Type ℓ} → Result A → Bool
is_stale (ok a) = false
is_stale (err e) = stale_error e

never_stale : (s : ProfileVersionSnapshot) → is_stale (publish_profile_version s) ≡ false
unfolding publish_profile_version
never_stale s = ground arith

stale_moved :
    (p : Profile) (head : Option ProfileVersion) (expected : Option String)
    → is_stale (head_version p head expected) ≡ true
    → HeadMoved p head expected
unfolding head_version
stale_moved p none none h = absurd (ground (arith, h))
stale_moved p none (some x) h = λ e. ground (arith, e)
stale_moved p (some w) none h =
    (ground (arith, h, same_text_iff w.snapshot.profile_id p.snapshot.id), λ e. ground (arith, e))
stale_moved p (some w) (some x) h = (
  ground (arith, h, same_text_iff w.snapshot.profile_id p.snapshot.id),
  λ e. ground (arith, h, e, same_text_iff x w.snapshot.id),
)

moved_stale :
    (p : Profile) (head : Option ProfileVersion) (expected : Option String)
    → HeadMoved p head expected
    → head_version p head expected ≡ err err_stale_profile_head
unfolding head_version
moved_stale p none none w = absurd (w refl)
moved_stale p none (some e) w = refl
moved_stale p (some head) none w =
    ground (arith, (same_text_iff head.snapshot.profile_id p.snapshot.id).1 w.0)
moved_stale p (some head) (some e) w =
    let other : same_text e head.snapshot.id ≡ true → ⊥ =
      λ same. w.1 (ap some ((same_text_iff e head.snapshot.id).0 same)) in
    ground (arith, (same_text_iff head.snapshot.profile_id p.snapshot.id).1 w.0, other)

stale_number :
    (p : Profile) (head : Option ProfileVersion) (expected : Option String)
    (publication : ProfileVersionPublication)
    → is_stale (publish_version p head expected publication) ≡ true
    → (is_some p.snapshot.archived_at ≡ false) × (is_stale (head_version p head expected) ≡ true)
unfolding publish_version
stale_number p head expected publication h = elim (Bool-cases (is_some p.snapshot.archived_at)) [
  | inl archived ↦ absurd (ground (arith, h, archived))
  | inr active ↦ (active, go (head_version p head expected) (rw active at h))
]
  where
    go :
        (next : Result (Option String × ℤ))
        → is_stale (
            next >>= (λ (next : Option String × ℤ). publish_profile_version (record {
              id = publication.id;
              profile_id = p.snapshot.id;
              parent_version_id = next.0;
              version = next.1;
              digest = publication.digest;
              capsule_refs = publication.capsule_refs;
              created_at = publication.created_at;
            })))
          ≡ true
        → is_stale next ≡ true
    go (err e) f = f
    go (ok n) f = absurd (
        ground (
          arith,
          f,
          never_stale (record {
            id = publication.id;
            profile_id = p.snapshot.id;
            parent_version_id = n.0;
            version = n.1;
            digest = publication.digest;
            capsule_refs = publication.capsule_refs;
            created_at = publication.created_at;
          }),
        ))

-- A publication is refused as stale exactly when the Profile is not archived, the head (if there is
-- one) is the Profile's own, and the expected head is another.
pub stale_head_iff :
    (p : Profile) (head : Option ProfileVersion) (expected : Option String)
    (publication : ProfileVersionPublication)
    → (publish_version p head expected publication ≡ err err_stale_profile_head)
      ↔ ((is_some p.snapshot.archived_at ≡ false) × HeadMoved p head expected)
unfolding publish_version
stale_head_iff p head expected publication = (
  λ h.
      let (active, stale) = stale_number p head expected publication (ap is_stale h) in
      (active, stale_moved p head expected stale),
  λ w. ground (arith, w.0, moved_stale p head expected w.1),
)

-- After a publication another one that expects the same head is refused as stale.
pub publish_after_publish_is_stale :
    (p : Profile) (head : Option ProfileVersion) (expected : Option String)
    (first second : ProfileVersionPublication) (v : ProfileVersion)
    → publish_version p head expected first ≡ ok v
    → publish_version p (some v) expected second ≡ err err_stale_profile_head
publish_after_publish_is_stale p none expected first second v h =
    let (next, w) = from_number p none expected first v h in
    (stale_head_iff p (some v) expected second).1
      (w.active, (w.profile, ground (arith, first_expected p expected w.number)))
publish_after_publish_is_stale p (some u) expected first second v h =
    let (next, w) = from_number p (some u) expected first v h in
    let (f, _, same) = later_number p u expected w.number in
    (stale_head_iff p (some v) expected second).1 (
      w.active,
      (
        w.profile,
        λ e.
            not_self next.0 v.snapshot.id w.other
              (ap (λ (x : Option String × ℤ). x.0) f ∙ sym same ∙ e),
      ),
    )
