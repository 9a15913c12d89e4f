-- ===== src/Environment/Snapshot.antt =====
-- libs/domain/environment.go and libs/domain/upgrade_policy.go: the state of an Environment and its
-- validation.
use sshai.Base.{
  String, Bool, true, false, not, ◌||◌, Option, none, some, [], ◌∷◌, ℤ, below_one, Time, before,
  same_instant, is_zero, is_untrimmed, is_empty, trim_space, same_text, is_some, errors_new, errorf,
  Result, ok, err, ◌>>◌, fail_if, wrapped, require_each, if◌then◌else◌,
}

pub data EnvironmentLifecycle : Type 0 where
  creating active deleting deleted : EnvironmentLifecycle
  unknown_lifecycle : String → EnvironmentLifecycle

pub data EnvironmentHealth : Type 0 where
  healthy degraded blocked unknown : EnvironmentHealth
  unknown_health : String → EnvironmentHealth

-- The empty text is `unknown_policy ""`.
pub data UpgradePolicy : Type 0 where
  manual notify auto_safe : UpgradePolicy
  unknown_policy : String → UpgradePolicy

abbrev pub lifecycle_text : EnvironmentLifecycle → String
lifecycle_text creating = "creating"
lifecycle_text active = "active"
lifecycle_text deleting = "deleting"
lifecycle_text deleted = "deleted"
lifecycle_text (unknown_lifecycle s) = s

abbrev pub health_text : EnvironmentHealth → String
health_text healthy = "healthy"
health_text degraded = "degraded"
health_text blocked = "blocked"
health_text unknown = "unknown"
health_text (unknown_health s) = s

abbrev pub policy_text : UpgradePolicy → String
policy_text manual = "manual"
policy_text notify = "notify"
policy_text auto_safe = "auto_safe"
policy_text (unknown_policy s) = s

unfoldable pub same_lifecycle : EnvironmentLifecycle → EnvironmentLifecycle → Bool
same_lifecycle creating creating = true
same_lifecycle active active = true
same_lifecycle deleting deleting = true
same_lifecycle deleted deleted = true
same_lifecycle (unknown_lifecycle s) (unknown_lifecycle t) = same_text s t
same_lifecycle _ _ = false

unfoldable pub same_health : EnvironmentHealth → EnvironmentHealth → Bool
same_health healthy healthy = true
same_health degraded degraded = true
same_health blocked blocked = true
same_health unknown unknown = true
same_health (unknown_health s) (unknown_health t) = same_text s t
same_health _ _ = false

-- EnvironmentLifecycle.valid, EnvironmentHealth.valid, UpgradePolicy.Valid
unfoldable pub is_valid_lifecycle : EnvironmentLifecycle → Bool
is_valid_lifecycle (unknown_lifecycle s) = false
is_valid_lifecycle _ = true

unfoldable pub is_valid_health : EnvironmentHealth → Bool
is_valid_health (unknown_health s) = false
is_valid_health _ = true

unfoldable pub is_valid_policy : UpgradePolicy → Bool
is_valid_policy (unknown_policy s) = false
is_valid_policy _ = true

-- if policy == "" { policy = UpgradeManual }
abbrev pub or_manual : UpgradePolicy → UpgradePolicy
or_manual (unknown_policy s) = if is_empty s then manual else unknown_policy s
or_manual manual = manual
or_manual notify = notify
or_manual auto_safe = auto_safe

pub record EnvironmentReservation : Type 0 where
  pub id : String
  pub owner_user_id : String
  pub name : String
  pub slug : String
  pub region : String
  pub availability_zone : String
  pub runtime_preset : String
  pub pinned_profile_version_id : String
  pub auto_stop_policy_id : String
  pub created_at : Time

pub record EnvironmentSnapshot : Type 0 where
  pub id : String
  pub owner_user_id : String
  pub name : String
  pub slug : String
  pub lifecycle : EnvironmentLifecycle
  pub health : EnvironmentHealth
  pub region : String
  pub availability_zone : String
  pub runtime_preset : String
  pub pinned_profile_version_id : String
  pub capsule_lock_id : Option String
  pub upgrade_policy : UpgradePolicy
  pub current_runtime_id : Option String
  pub auto_stop_policy_id : String
  pub created_at : Time
  pub updated_at : Time
  pub deleted_at : Option Time
  pub version : ℤ

-- `Snapshot` returns a copy, which is equal to the snapshot.
pub record Environment : Type 0 where
  pub snapshot : EnvironmentSnapshot

abbrev pub bad_lock_id : Option String → Bool
bad_lock_id none = false
bad_lock_id (some s) = is_untrimmed s

-- *id == "" || *id != strings.TrimSpace(*id)
abbrev pub bad_runtime_id : Option String → Bool
bad_runtime_id none = false
bad_runtime_id (some s) = is_empty s || not (same_text s (trim_space s))

validate_deleted_at : EnvironmentSnapshot → Option Time → Result (Unit {0})
validate_deleted_at s none =
    err (errors_new "invalid Environment: deletion time is required for deleted lifecycle")
validate_deleted_at s (some deleted_at) = do
  fail_if (is_some s.current_runtime_id)
      (errors_new "invalid Environment: deleted Environment cannot have a current Runtime")
  fail_if (before deleted_at s.created_at)
      (errors_new "invalid Environment: deletion time is before creation time")
  fail_if (not (same_instant deleted_at s.updated_at))
      (errors_new "invalid Environment: deletion time must equal update time")

unfoldable pub validate_deletion : EnvironmentSnapshot → Result (Unit {0})
unfolding validate_deleted_at same_lifecycle
validate_deletion s =
    if same_lifecycle s.lifecycle deleted
    then validate_deleted_at s s.deleted_at
    else fail_if (is_some s.deleted_at)
        (errors_new "invalid Environment: deletion time requires deleted lifecycle")

unfoldable pub validate_environment_snapshot : EnvironmentSnapshot → Result (Unit {0})
validate_environment_snapshot s = do
  require_each is_untrimmed (λ name. errorf "invalid Environment: %s is required" (name ∷ []))
      (("ID", s.id)
        ∷ ("owner User ID", s.owner_user_id)
        ∷ ("name", s.name)
        ∷ ("slug", s.slug)
        ∷ ("region", s.region)
        ∷ ("availability zone", s.availability_zone)
        ∷ ("Runtime Preset", s.runtime_preset)
        ∷ ("Profile Version ID", s.pinned_profile_version_id)
        ∷ ("Auto-stop Policy ID", s.auto_stop_policy_id)
        ∷ [])
  fail_if (not (is_valid_lifecycle s.lifecycle))
      (errorf "invalid Environment: unknown lifecycle %q" (lifecycle_text s.lifecycle ∷ []))
  fail_if (not (is_valid_health s.health))
      (errorf "invalid Environment: unknown health %q" (health_text s.health ∷ []))
  fail_if (not (is_valid_policy s.upgrade_policy))
      (errorf "invalid Environment: unknown upgrade policy %q" (policy_text s.upgrade_policy ∷ []))
  fail_if (bad_lock_id s.capsule_lock_id)
      (errors_new "invalid Environment: Capsule Lock ID cannot be empty")
  fail_if (bad_runtime_id s.current_runtime_id)
      (errors_new "invalid Environment: current Runtime ID cannot be empty")
  fail_if (is_zero s.created_at) (errors_new "invalid Environment: creation time is required")
  fail_if (is_zero s.updated_at) (errors_new "invalid Environment: update time is required")
  fail_if (before s.updated_at s.created_at)
      (errors_new "invalid Environment: update time is before creation time")
  validate_deletion s
  fail_if (below_one s.version) (errors_new "invalid Environment: version must be positive")

unfoldable pub reserve_environment : EnvironmentReservation → Result Environment
reserve_environment r =
    let s : EnvironmentSnapshot = record {
      id = r.id;
      owner_user_id = r.owner_user_id;
      name = r.name;
      slug = r.slug;
      lifecycle = creating;
      health = unknown;
      region = r.region;
      availability_zone = r.availability_zone;
      runtime_preset = r.runtime_preset;
      pinned_profile_version_id = r.pinned_profile_version_id;
      capsule_lock_id = none;
      upgrade_policy = manual;
      current_runtime_id = none;
      auto_stop_policy_id = r.auto_stop_policy_id;
      created_at = r.created_at;
      updated_at = r.created_at;
      deleted_at = none;
      version = ℤ.pos 1;
    } in
    do
      wrapped "reserve Environment: %w" (validate_environment_snapshot s)
      ok (record { snapshot = s })

unfoldable pub restore_environment : EnvironmentSnapshot → Result Environment
restore_environment snapshot =
    let s = record snapshot { upgrade_policy = or_manual snapshot.upgrade_policy } in
    do
      wrapped "restore Environment: %w" (validate_environment_snapshot s)
      ok (record { snapshot = s })
