-- ===== src/Profile/Versions.antt =====
-- libs/domain/profile.go: the versions that a Profile publishes, one after the other.
use sshai.Base.{
  before, ℕ, ◌+◌, String, false, Option, none, some, List, [], ◌∷◌, length, ◌≡◌, ◌≢◌, refl, ap, sym,
  ◌∙◌, arith, ℤ, inc_int64, is_zero, to_canonical, is_some, below_one, same_text_iff, ok, bind_ok,
}
use sshai.Runtime.Snapshot.{clone_canonical_time}
use sshai.Profile.Model.{
  ProfileSnapshot, create_profile, Profile, ProfileVersionSnapshot, ProfileVersion,
  ProfileVersionPublication, parent_is, publish_profile_version, head_version, publish_version,
}

pub published-snapshot :
    (s : ProfileVersionSnapshot) (v : ProfileVersion)
    → publish_profile_version s ≡ ok v
    → v.snapshot ≡ record s { created_at = to_canonical s.created_at }
unfolding publish_profile_version
published-snapshot s v h = ground arith

-- The ID of the last version of a list that has the last one first.
abbrev pub head_id : List ProfileVersion → Option String
head_id [] = none
head_id (v ∷ rest) = some v.snapshot.id

abbrev pub head_of : List ProfileVersion → Option ProfileVersion
head_of [] = none
head_of (v ∷ rest) = some v

-- The versions are numbered from 1 and each has the one before it as its parent.
abbrev pub Chain : String → List ProfileVersion → Type 0
Chain id [] = Unit {0}
Chain id (v ∷ rest) =
    (v.snapshot.profile_id ≡ id)
    × (v.snapshot.version ≡ ℤ.pos (length rest + 1))
    × (v.snapshot.parent_version_id ≡ head_id rest)
    × (v.snapshot.parent_version_id ≢ some v.snapshot.id)
    × Chain id rest

-- The versions that a Profile publishes, each with the last one as the head, the last one first.
pub data History (id : String) : List ProfileVersion → Type 0 where
  unpublished : History id []
  published :
      (p : Profile) (expected : Option String) (publication : ProfileVersionPublication)
      {versions : List ProfileVersion} {v : ProfileVersion}
      → p.snapshot.id ≡ id
      → History id versions
      → publish_version p (head_of versions) expected publication ≡ ok v
      → History id (v ∷ versions)

-- What a publication comes to.
pub record Published (p : Profile) (head : Option ProfileVersion) (expected : Option String)
    (next : Option String × ℤ) (v : ProfileVersion) : Type 0 where
  pub active : is_some p.snapshot.archived_at ≡ false
  pub number : head_version p head expected ≡ ok next
  pub profile : v.snapshot.profile_id ≡ p.snapshot.id
  pub parent : v.snapshot.parent_version_id ≡ next.0
  pub version : v.snapshot.version ≡ next.1
  pub positive : below_one next.1 ≡ false
  pub other : parent_is next.0 v.snapshot.id ≡ false

pub from_number :
    (p : Profile) (head : Option ProfileVersion) (expected : Option String)
    (publication : ProfileVersionPublication) (v : ProfileVersion)
    → publish_version p head expected publication ≡ ok v
    → (next : Option String × ℤ) × Published p head expected next v
unfolding publish_version publish_profile_version
from_number p head expected publication v h =
    let active : is_some p.snapshot.archived_at ≡ false = ground (arith, h) in
    let (next, e, rest) = bind_ok (head_version p head expected) _ (rw active at h) in
    (
      next,
      record {
        active = active;
        number = e;
        profile = ground (arith, rest);
        parent = ground (arith, rest);
        version = ground (arith, rest);
        positive = ground (arith, rest);
        other = ground (arith, rest);
      },
    )

pub first_expected :
    (p : Profile) (expected : Option String) {next : Option String × ℤ}
    → head_version p none expected ≡ ok next
    → expected ≡ none
unfolding head_version
first_expected p none h = refl
first_expected p (some e) h = absurd (ground (arith, h))

first_number :
    (p : Profile) (expected : Option String) {next : Option String × ℤ}
    → head_version p none expected ≡ ok next
    → next ≡ (none, ℤ.pos 1)
unfolding head_version
first_number p expected h = ground arith

pub later_number :
    (p : Profile) (head : ProfileVersion) (expected : Option String) {next : Option String × ℤ}
    → head_version p (some head) expected ≡ ok next
    → (next ≡ (some head.snapshot.id, inc_int64 head.snapshot.version))
      × (head.snapshot.profile_id ≡ p.snapshot.id)
      × (expected ≡ some head.snapshot.id)
unfolding head_version
later_number p head none h =
    absurd (ground (arith, h, same_text_iff head.snapshot.profile_id p.snapshot.id))
later_number p head (some e) h = ground (
  arith,
  h,
  same_text_iff head.snapshot.profile_id p.snapshot.id,
  same_text_iff e head.snapshot.id,
)

pub not_self :
    (parent : Option String) (id : String) → parent_is parent id ≡ false → parent ≢ some id
not_self none id h e = ground (arith, e)
not_self (some p) id h e = ground (arith, h, (same_text_iff p id).1, e)

counted : (n : ℕ) → below_one (inc_int64 (ℤ.pos n)) ≡ false → inc_int64 (ℤ.pos n) ≡ ℤ.pos (n + 1)
unfolding inc_int64
counted n h = ground arith

-- The versions that a Profile publishes are its own, they are numbered from 1 without a gap, and
-- each has the one before it as its parent, which has another ID.
pub History-Chain :
    (id : String) (versions : List ProfileVersion) → History id versions → Chain id versions
History-Chain id [] unpublished = tt
History-Chain id (v ∷ []) (published p expected publication own before h) =
    let (next, w) = from_number p none expected publication v h in
    let f = first_number p expected w.number in
    (
      w.profile ∙ own,
      ground (arith, w.version, f),
      ground (arith, w.parent, f),
      rw w.parent (not_self next.0 v.snapshot.id w.other),
      tt,
    )
History-Chain id (v ∷ u ∷ rest) (published p expected publication own before h) =
    let (next, w) = from_number p (some u) expected publication v h in
    let (f, _, _) = later_number p u expected w.number in
    let earlier = History-Chain id (u ∷ rest) before in
    let number : next.1 ≡ inc_int64 (ℤ.pos (length rest + 1)) =
      ap (λ (x : Option String × ℤ). x.1) f ∙ ap inc_int64 earlier.1 in
    let fits = counted (length rest + 1) (ap below_one (sym number) ∙ w.positive) in
    (
      w.profile ∙ own,
      ground (arith, w.version ∙ number ∙ fits),
      w.parent ∙ ap (λ (x : Option String × ℤ). x.0) f,
      rw w.parent (not_self next.0 v.snapshot.id w.other),
      earlier,
    )

-- A created Profile is created from its snapshot as it is.
create-create :
    (s : ProfileSnapshot) (p : Profile)
    → create_profile s ≡ ok p
    → (p ≡ record {
      snapshot = record s {
        created_at = to_canonical s.created_at;
        archived_at = clone_canonical_time s.archived_at;
      };
    })
      × (create_profile (record s {
        created_at = to_canonical s.created_at;
        archived_at = clone_canonical_time s.archived_at;
      })
          ≡ ok p)
unfolding create_profile is_zero before to_canonical
create-create s p h = ground arith
