-- ===== src/Profile/Model.antt =====
-- libs/domain/profile.go: Profiles and the versions that they publish.
use sshai.Base.{
  has_text, ◌>>=◌, ℕ, ◌+◌, String, ◌<>◌, Bool, true, false, not, ◌&&◌, ◌||◌, Option, none, some,
  List, [], ◌∷◌, ℤ, same_int, below_one, ltb_int, inc_int64, ◌==◌, Time, before, is_zero,
  to_canonical, is_some, is_blank, is_untrimmed, is_content_digest, same_text, show, Error,
  errors_new, errorf, Result, ok, ◌>>◌, fail_if, wrapped, Pattern, class, sequence, either_of, many,
  up_to, exactly, optional, literal, is_between, matches,
}
use sshai.Runtime.Snapshot.{clone_canonical_time}

pub data FreshnessPolicy : Type 0 where
  track review pin : FreshnessPolicy
  unknown_freshness : String → FreshnessPolicy

abbrev pub is_valid_freshness : FreshnessPolicy → Bool
is_valid_freshness (unknown_freshness s) = false
is_valid_freshness _ = true

pub record CapsuleRef : Type 0 where
  pub ref : String
  pub freshness_policy : FreshnessPolicy
  pub exclusions : List String

pub record ProfileSnapshot : Type 0 where
  pub id : String
  pub owner_user_id : String
  pub name : String
  pub slug : String
  pub created_at : Time
  pub archived_at : Option Time

pub record Profile : Type 0 where
  pub snapshot : ProfileSnapshot

pub record ProfileVersionSnapshot : Type 0 where
  pub id : String
  pub profile_id : String
  pub parent_version_id : Option String
  pub version : ℤ
  pub digest : String
  pub capsule_refs : List CapsuleRef
  pub created_at : Time

pub record ProfileVersion : Type 0 where
  pub snapshot : ProfileVersionSnapshot

pub record ProfileVersionPublication : Type 0 where
  pub id : String
  pub digest : String
  pub capsule_refs : List CapsuleRef
  pub created_at : Time

abbrev pub err_stale_profile_head : Error
err_stale_profile_head = errors_new "stale Profile head"

-- snapshot.ArchivedAt != nil && snapshot.ArchivedAt.Before(snapshot.CreatedAt)
abbrev pub archived_before : Option Time → Time → Bool
archived_before none t = false
archived_before (some a) t = before a t

unfoldable pub create_profile : ProfileSnapshot → Result Profile
create_profile s = do
  fail_if (is_blank s.id || is_blank s.owner_user_id || is_blank s.name || is_blank s.slug)
      (errors_new "create Profile: ID, owner User ID, name, and slug are required")
  fail_if (is_zero s.created_at) (errors_new "create Profile: creation time is required")
  fail_if (archived_before s.archived_at s.created_at)
      (errors_new "create Profile: archive time is before creation time")
  ok (record {
    snapshot = record s {
      created_at = to_canonical s.created_at;
      archived_at = clone_canonical_time s.archived_at;
    };
  })

-- [A-Za-z0-9], [A-Za-z0-9._-] and [A-Za-z0-9_]
abbrev alphanumeric : ℕ → Bool
alphanumeric c = is_between 48 57 c || is_between 65 90 c || is_between 97 122 c

abbrev name_character : ℕ → Bool
name_character c = alphanumeric c || c == 46 || c == 95 || c == 45

abbrev tag_start : ℕ → Bool
tag_start c = alphanumeric c || c == 95

-- [A-Za-z0-9]([A-Za-z0-9._-]*[A-Za-z0-9])?
abbrev path_part : Pattern
path_part =
    sequence (class alphanumeric)
      (optional (sequence (many (class name_character)) (class alphanumeric)))

abbrev port : Pattern
port = literal ":" (sequence (class (is_between 48 57)) (up_to 4 (class (is_between 48 57))))

abbrev tag_or_digest : Pattern
tag_or_digest =
    either_of (literal ":" (sequence (class tag_start) (up_to 127 (class name_character))))
      (literal "@sha256:" (exactly 64 (class (λ c. is_between 97 102 c || is_between 48 57 c))))

abbrev pub registry_capsule_ref_pattern : Pattern
registry_capsule_ref_pattern =
    sequence path_part
      (sequence (optional port) (sequence (many (literal "/" path_part)) tag_or_digest))

any_blank : List String → Bool
any_blank [] = false
any_blank (s ∷ rest) = is_blank s || any_blank rest

unfoldable pub validate_capsule_ref : CapsuleRef → Result (Unit {0})
unfolding any_blank
validate_capsule_ref r = do
  fail_if (is_untrimmed r.ref || not (matches registry_capsule_ref_pattern r.ref))
      (errors_new "registry reference is invalid")
  fail_if (not (is_valid_freshness r.freshness_policy)) (errors_new "freshness policy is invalid")
  fail_if (any_blank r.exclusions) (errors_new "exclusions must contain non-empty component IDs")

-- The loop from an index on, with the refs that were seen.
unfoldable pub validate_refs_from : ℕ → List String → List CapsuleRef → Result (Unit {0})
unfolding has_text
validate_refs_from index seen [] = ok tt
validate_refs_from index seen (r ∷ rest) = do
  wrapped ("Capsule Ref " <> show index <> ": %w") (validate_capsule_ref r)
  fail_if (has_text r.ref seen) (errorf "duplicate Capsule Ref %q" (r.ref ∷ []))
  validate_refs_from (index + 1) (r.ref ∷ seen) rest

unfoldable pub validate_capsule_refs : List CapsuleRef → Result (Unit {0})
unfolding validate_refs_from
validate_capsule_refs refs = validate_refs_from 0 [] refs

-- snapshot.ParentVersionID != nil && *snapshot.ParentVersionID is the text
abbrev pub parent_is : Option String → String → Bool
parent_is none s = false
parent_is (some p) s = same_text p s

abbrev pub blank_parent : Option String → Bool
blank_parent none = false
blank_parent (some p) = is_blank p

unfoldable pub publish_profile_version : ProfileVersionSnapshot → Result ProfileVersion
publish_profile_version s = do
  fail_if (is_blank s.id || is_blank s.profile_id || below_one s.version)
      (errors_new "publish Profile Version: ID, Profile ID, and positive version are required")
  fail_if (not (is_content_digest s.digest))
      (errors_new "publish Profile Version: digest is invalid")
  fail_if (is_zero s.created_at) (errors_new "publish Profile Version: creation time is required")
  wrapped "publish Profile Version: %w" (validate_capsule_refs s.capsule_refs)
  fail_if (blank_parent s.parent_version_id)
      (errors_new "publish Profile Version: parent ID cannot be empty")
  fail_if (same_int s.version (ℤ.pos 1) && is_some s.parent_version_id)
      (errors_new "publish Profile Version: first version cannot have a parent")
  fail_if (ltb_int (ℤ.pos 1) s.version && not (is_some s.parent_version_id))
      (errors_new "publish Profile Version: later version requires a parent")
  fail_if (parent_is s.parent_version_id s.id)
      (errors_new "publish Profile Version: version cannot parent itself")
  ok (record { snapshot = record s { created_at = to_canonical s.created_at } })

-- From the head on: the parent and the number of the new version.
unfoldable pub head_version :
    Profile → Option ProfileVersion → Option String → Result (Option String × ℤ)
head_version p none expected = do
  fail_if (is_some expected) err_stale_profile_head
  ok (none, ℤ.pos 1)
head_version p (some head) expected = do
  fail_if (not (same_text head.snapshot.profile_id p.snapshot.id))
      (errors_new "publish Profile Version: head belongs to another Profile")
  fail_if (not (parent_is expected head.snapshot.id)) err_stale_profile_head
  ok (some head.snapshot.id, inc_int64 head.snapshot.version)

unfoldable pub publish_version :
    Profile
    → Option ProfileVersion
    → Option String
    → ProfileVersionPublication
    → Result ProfileVersion
publish_version p head expected publication = do
  fail_if (is_some p.snapshot.archived_at)
      (errors_new "publish Profile Version: Profile is archived")
  next ← head_version p head expected
  publish_profile_version (record {
    id = publication.id;
    profile_id = p.snapshot.id;
    parent_version_id = next.0;
    version = next.1;
    digest = publication.digest;
    capsule_refs = publication.capsule_refs;
    created_at = publication.created_at;
  })

unfoldable pub restore_profile_version : ProfileVersionSnapshot → Result ProfileVersion
restore_profile_version s = publish_profile_version s
