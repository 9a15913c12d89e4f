-- ===== src/Profile/Tests.antt =====
-- A Profile with two versions, and the theorems on it.
use sshai.Base.{
  errors_new, has_text, to_canonical, inc_int64, true, false, String, Option, none, some, List, [],
  ◌∷◌, ◌≡◌, ◌↔◌, refl, ℤ, Result, ok, err, is_zero, is_blank, is_untrimmed, is_content_digest,
  trim_space, matches, before, show, is_some,
}
use sshai.Profile.Model.{
  track, pin, CapsuleRef, Profile, ProfileVersionSnapshot, ProfileVersion,
  ProfileVersionPublication, err_stale_profile_head, registry_capsule_ref_pattern,
  validate_capsule_ref, validate_refs_from, validate_capsule_refs, publish_profile_version,
  head_version, publish_version, restore_profile_version,
}
use sshai.Profile.Refs.{EachValid, Distinct, validate_capsule_refs_iff}
use sshai.Profile.Versions.{Chain, History, unpublished, published, History-Chain}
use sshai.Profile.Accepts.{IsPublishable, restore_profile_version_iff}
use sshai.Profile.Heads.{HeadMoved, stale_head_iff, publish_after_publish_is_stale}
use sshai.Samples.{at}

tag_test : matches registry_capsule_ref_pattern "ghcr.io:443/acme/base:v1" ≡ true
unfolding matches
tag_test = refl

no_tag_test : matches registry_capsule_ref_pattern "ghcr.io/acme/base" ≡ false
unfolding matches
no_tag_test = refl

no_end_test : matches registry_capsule_ref_pattern "acme-/base:v1" ≡ false
unfolding matches
no_end_test = refl

-- What the publications compute with.
run_publish :
    Profile
    → Option ProfileVersion
    → Option String
    → ProfileVersionPublication
    → Result ProfileVersion
unfolding publish_version head_version publish_profile_version validate_capsule_refs
    validate_refs_from validate_capsule_ref has_text matches to_canonical inc_int64 is_zero is_blank
    is_untrimmed is_content_digest trim_space before show
run_publish = publish_version

abbrev profile : Profile
profile = record {
  snapshot = record {
    id = "profile-1";
    owner_user_id = "user-1";
    name = "Work";
    slug = "work";
    created_at = at 10;
    archived_at = none;
  };
}

abbrev refs : List CapsuleRef
refs =
    record { ref = "ghcr.io/acme/base:v1"; freshness_policy = track; exclusions = "skill:a" ∷ [] }
    ∷ record { ref = "acme/tools:2"; freshness_policy = pin; exclusions = [] }
    ∷ []

abbrev publication : String → ProfileVersionPublication
publication id = record {
  id = id;
  digest = "sha256:0123456789abcdef0123456789abcdef0123456789abcdef0123456789abcdef";
  capsule_refs = refs;
  created_at = at 20;
}

abbrev first_snapshot : ProfileVersionSnapshot
first_snapshot = record {
  id = "version-1";
  profile_id = "profile-1";
  parent_version_id = none;
  version = ℤ.pos 1;
  digest = "sha256:0123456789abcdef0123456789abcdef0123456789abcdef0123456789abcdef";
  capsule_refs = refs;
  created_at = at 20;
}

abbrev first : ProfileVersion
first = record { snapshot = first_snapshot }

abbrev second : ProfileVersion
second = record {
  snapshot = record first_snapshot {
    id = "version-2";
    parent_version_id = some "version-1";
    version = ℤ.pos 2;
  };
}

first_test : publish_version profile none none (publication "version-1") ≡ ok first
unfolding run_publish
first_test = refl

second_test :
    publish_version profile (some first) (some "version-1") (publication "version-2") ≡ ok second
unfolding run_publish
second_test = refl

first_publish : publish_profile_version first_snapshot ≡ ok first
unfolding run_publish
first_publish = refl

second_publish : publish_profile_version second.snapshot ≡ ok second
unfolding run_publish
second_publish = refl

restore_profile_version_iff_example : (restore_profile_version second.snapshot ≡ ok second) ↔ (
    (second.snapshot ≡ record second.snapshot { created_at = to_canonical (at 20) })
    × IsPublishable second.snapshot)
restore_profile_version_iff_example = restore_profile_version_iff second.snapshot second

second-IsPublishable : IsPublishable second.snapshot
unfolding restore_profile_version
second-IsPublishable = ((restore_profile_version_iff second.snapshot second).0 second_publish).1

-- A later version without a parent is refused.
orphan_test :
    publish_profile_version (record second.snapshot { parent_version_id = none })
    ≡ err (errors_new "publish Profile Version: later version requires a parent")
unfolding run_publish
orphan_test = refl

validate_capsule_refs_iff_example :
    (validate_capsule_refs refs ≡ ok tt) ↔ (EachValid refs × Distinct refs)
validate_capsule_refs_iff_example = validate_capsule_refs_iff refs

history : History "profile-1" (second ∷ first ∷ [])
history =
    published profile (some "version-1") (publication "version-2") refl
      (published profile none (publication "version-1") refl unpublished first_test) second_test

History-Chain_example : Chain "profile-1" (second ∷ first ∷ [])
History-Chain_example = History-Chain "profile-1" (second ∷ first ∷ []) history

stale_head_iff_example :
    (publish_version profile (some second) (some "version-1") (publication "version-3")
      ≡ err err_stale_profile_head)
    ↔ ((is_some profile.snapshot.archived_at ≡ false)
        × HeadMoved profile (some second) (some "version-1"))
stale_head_iff_example =
    stale_head_iff profile (some second) (some "version-1") (publication "version-3")

publish_after_publish_is_stale_example :
    publish_version profile (some second) (some "version-1") (publication "version-3")
    ≡ err err_stale_profile_head
publish_after_publish_is_stale_example =
    publish_after_publish_is_stale profile (some first) (some "version-1") (publication "version-2")
      (publication "version-3") second second_test
