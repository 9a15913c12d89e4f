-- ===== src/Environment/WellFormed.antt =====
-- What a valid Environment is, stated apart from the checks of validateEnvironmentSnapshot.
use sshai.Base.{
  ◌≤◌, ◌<◌, true, false, Option, none, some, ◌≡◌, ◌≢◌, ◌↔◌, arith, below_one, Time, before,
  same_instant, is_zero, is_untrimmed, ok,
}
use sshai.Environment.Snapshot.{
  deleted, is_valid_lifecycle, is_valid_health, is_valid_policy, EnvironmentSnapshot, bad_lock_id,
  bad_runtime_id, validate_deletion, validate_environment_snapshot,
}

-- A deletion time is there exactly in a deleted Environment; it is the time of the last update, and
-- no Runtime is left.
abbrev pub Deletion : EnvironmentSnapshot → Option Time → Type 0
Deletion s none = s.lifecycle ≢ deleted
Deletion s (some t) =
    (s.lifecycle ≡ deleted)
    × (s.current_runtime_id ≡ none)
    × (s.created_at.instant ≤ t.instant)
    × (t.instant ≡ s.updated_at.instant)

pub record IsWellFormed (s : EnvironmentSnapshot) : Type 0 where
  pub id : is_untrimmed s.id ≡ false
  pub owner_user_id : is_untrimmed s.owner_user_id ≡ false
  pub name : is_untrimmed s.name ≡ false
  pub slug : is_untrimmed s.slug ≡ false
  pub region : is_untrimmed s.region ≡ false
  pub availability_zone : is_untrimmed s.availability_zone ≡ false
  pub runtime_preset : is_untrimmed s.runtime_preset ≡ false
  pub pinned_profile_version_id : is_untrimmed s.pinned_profile_version_id ≡ false
  pub auto_stop_policy_id : is_untrimmed s.auto_stop_policy_id ≡ false
  pub lifecycle : is_valid_lifecycle s.lifecycle ≡ true
  pub health : is_valid_health s.health ≡ true
  pub upgrade_policy : is_valid_policy s.upgrade_policy ≡ true
  pub capsule_lock_id : bad_lock_id s.capsule_lock_id ≡ false
  pub current_runtime_id : bad_runtime_id s.current_runtime_id ≡ false
  pub created : 0 < s.created_at.instant
  pub updated : s.created_at.instant ≤ s.updated_at.instant
  pub deletion : Deletion s s.deleted_at
  pub version : below_one s.version ≡ false

-- Every check passed.
record Checked (s : EnvironmentSnapshot) : Type 0 where
  texts :
      (is_untrimmed s.id ≡ false)
      × (is_untrimmed s.owner_user_id ≡ false)
      × (is_untrimmed s.name ≡ false)
      × (is_untrimmed s.slug ≡ false)
      × (is_untrimmed s.region ≡ false)
      × (is_untrimmed s.availability_zone ≡ false)
      × (is_untrimmed s.runtime_preset ≡ false)
      × (is_untrimmed s.pinned_profile_version_id ≡ false)
      × (is_untrimmed s.auto_stop_policy_id ≡ false)
  known :
      (is_valid_lifecycle s.lifecycle ≡ true)
      × (is_valid_health s.health ≡ true)
      × (is_valid_policy s.upgrade_policy ≡ true)
  ids : (bad_lock_id s.capsule_lock_id ≡ false) × (bad_runtime_id s.current_runtime_id ≡ false)
  times :
      (is_zero s.created_at ≡ false)
      × (is_zero s.updated_at ≡ false)
      × (before s.updated_at s.created_at ≡ false)
  deletion : validate_deletion s ≡ ok tt
  version : below_one s.version ≡ false

module _ (s : EnvironmentSnapshot) where
  checked : validate_environment_snapshot s ≡ ok tt → Checked s
  unfolding validate_environment_snapshot
  checked h = ground arith

  checked_back : Checked s → validate_environment_snapshot s ≡ ok tt
  unfolding validate_environment_snapshot
  checked_back h = ground arith

  validate_deletion_iff : (validate_deletion s ≡ ok tt) ↔ Deletion s s.deleted_at
  unfolding validate_deletion before same_instant
  validate_deletion_iff = (λ h. ground arith, λ h. ground arith)

  pub wellformed_of_valid : validate_environment_snapshot s ≡ ok tt → IsWellFormed s
  unfolding before is_zero
  wellformed_of_valid h =
      let c = checked h in
      record {
        id = c.texts.0;
        owner_user_id = c.texts.1;
        name = c.texts.2;
        slug = c.texts.3;
        region = c.texts.4;
        availability_zone = c.texts.5;
        runtime_preset = c.texts.6;
        pinned_profile_version_id = c.texts.7;
        auto_stop_policy_id = c.texts.8;
        lifecycle = c.known.0;
        health = c.known.1;
        upgrade_policy = c.known.2;
        capsule_lock_id = c.ids.0;
        current_runtime_id = c.ids.1;
        created = ground (arith, c.times.0);
        updated = ground (arith, c.times.2);
        deletion = validate_deletion_iff.0 c.deletion;
        version = c.version;
      }

  pub valid_of_wellformed : IsWellFormed s → validate_environment_snapshot s ≡ ok tt
  unfolding before is_zero
  valid_of_wellformed w = checked_back (record {
    texts = (
      w.id, w.owner_user_id, w.name, w.slug, w.region, w.availability_zone, w.runtime_preset,
      w.pinned_profile_version_id, w.auto_stop_policy_id,
    );
    known = (w.lifecycle, w.health, w.upgrade_policy);
    ids = (w.capsule_lock_id, w.current_runtime_id);
    times = (
      ground (arith, w.created),
      ground (arith, w.created, w.updated),
      ground (arith, w.updated),
    );
    deletion = validate_deletion_iff.1 w.deletion;
    version = w.version;
  })

  -- The checks of validateEnvironmentSnapshot pass for exactly the well-formed Environments.
  pub validate_environment-iff-IsWellFormed :
      (validate_environment_snapshot s ≡ ok tt) ↔ IsWellFormed s
  validate_environment-iff-IsWellFormed = (wellformed_of_valid, valid_of_wellformed)
