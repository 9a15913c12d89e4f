-- ===== src/Environment/Steps.antt =====
-- libs/domain/environment.go: the calls on an Environment, and the outcome of each.
use sshai.Base.{true, false, none, some, ◌≡◌, ◌≢◌, ◌⊎◌, Time, before, is_zero, is_blank, Result, ok}
use sshai.Capsule.Lock.{CapsuleLock}
use sshai.Runtime.Snapshot.{Runtime, clone_runtime_snapshot}
use sshai.Environment.Snapshot.{
  creating, active, deleting, deleted, EnvironmentHealth, UpgradePolicy, is_valid_health,
  is_valid_policy, or_manual, EnvironmentSnapshot, Environment, validate_environment_snapshot,
}
use sshai.Environment.Operations.{
  finalize_environment_transition, activate, begin_deletion, complete_deletion, update_health,
  pin_capsule_lock, repin_capsule_lock, validate_initial_runtime, attach_runtime,
  validate_retired_runtime, detach_runtime, validate_runtime_replacement, replace_runtime,
}

-- One call of an operation, with its arguments.
pub data EnvironmentCall : Type 0 where
  activate_call begin_deletion_call complete_deletion_call : Time → EnvironmentCall
  update_health_call : EnvironmentHealth → Time → EnvironmentCall
  pin_call repin_call : CapsuleLock → UpgradePolicy → Time → EnvironmentCall
  attach_call detach_call : Runtime → Time → EnvironmentCall
  replace_call : Runtime → Runtime → Time → EnvironmentCall

unfoldable pub call_environment : EnvironmentCall → Environment → Result Environment
call_environment (activate_call at) e = activate e at
call_environment (begin_deletion_call at) e = begin_deletion e at
call_environment (complete_deletion_call at) e = complete_deletion e at
call_environment (update_health_call verdict at) e = update_health e verdict at
call_environment (pin_call lock policy at) e = pin_capsule_lock e lock policy at
call_environment (repin_call lock policy at) e = repin_capsule_lock e lock policy at
call_environment (attach_call runtime at) e = attach_runtime e runtime at
call_environment (detach_call runtime at) e = detach_runtime e runtime at
call_environment (replace_call retired replacement at) e = replace_runtime e retired replacement at

abbrev pub time_of : EnvironmentCall → Time
time_of (activate_call at) = at
time_of (begin_deletion_call at) = at
time_of (complete_deletion_call at) = at
time_of (update_health_call verdict at) = at
time_of (pin_call lock policy at) = at
time_of (repin_call lock policy at) = at
time_of (attach_call runtime at) = at
time_of (detach_call runtime at) = at
time_of (replace_call retired replacement at) = at

pub record Accepts (s : EnvironmentSnapshot) (at : Time) : Type 0 where
  pub valid : validate_environment_snapshot s ≡ ok tt
  pub set : is_zero at ≡ false
  pub later : before at s.updated_at ≡ false

abbrev Locks : CapsuleLock → UpgradePolicy → EnvironmentSnapshot → Type 0
Locks lock policy s =
    (is_blank lock.snapshot.id ≡ false)
    × (lock.snapshot.environment_id ≡ s.id)
    × (is_valid_policy (or_manual policy) ≡ true)
    × (s.lifecycle ≢ deleted)

-- When a call changes the Environment.
abbrev pub Admits : EnvironmentCall → EnvironmentSnapshot → Type 0
Admits (activate_call at) s = s.lifecycle ≡ creating
Admits (begin_deletion_call at) s = s.lifecycle ≡ active
Admits (complete_deletion_call at) s = (s.lifecycle ≡ deleting) × (s.current_runtime_id ≡ none)
Admits (update_health_call verdict at) s =
    (is_valid_health verdict ≡ true) × (s.lifecycle ≢ deleted)
Admits (pin_call lock policy at) s = Locks lock policy s × (s.capsule_lock_id ≡ none)
Admits (repin_call lock policy at) s = Locks lock policy s
Admits (attach_call runtime at) s =
    (validate_initial_runtime s (clone_runtime_snapshot runtime.snapshot) ≡ ok tt)
    × ((s.lifecycle ≡ creating) ⊎ (s.lifecycle ≡ active))
    × (s.current_runtime_id ≡ none)
Admits (detach_call runtime at) s =
    (validate_retired_runtime s (clone_runtime_snapshot runtime.snapshot) ≡ ok tt)
    × (s.lifecycle ≢ deleted)
    × (s.current_runtime_id ≡ some runtime.snapshot.id)
Admits (replace_call retired replacement at) s =
    (validate_runtime_replacement s (clone_runtime_snapshot retired.snapshot)
        (clone_runtime_snapshot replacement.snapshot)
      ≡ ok tt)
    × ((s.lifecycle ≡ creating) ⊎ (s.lifecycle ≡ active))
    × (s.current_runtime_id ≡ some retired.snapshot.id)

-- The fields that a call sets.
abbrev pub change : EnvironmentCall → EnvironmentSnapshot → EnvironmentSnapshot
change (activate_call at) s = record s { lifecycle = active }
change (begin_deletion_call at) s = record s { lifecycle = deleting }
change (complete_deletion_call at) s = record s { lifecycle = deleted; deleted_at = some at }
change (update_health_call verdict at) s = record s { health = verdict }
change (pin_call lock policy at) s = record s {
  capsule_lock_id = some lock.snapshot.id;
  upgrade_policy = or_manual policy;
}
change (repin_call lock policy at) s = record s {
  capsule_lock_id = some lock.snapshot.id;
  upgrade_policy = or_manual policy;
}
change (attach_call runtime at) s = record s { current_runtime_id = some runtime.snapshot.id }
change (detach_call runtime at) s = record s { current_runtime_id = none }
change (replace_call retired replacement at) s = record s {
  current_runtime_id = some replacement.snapshot.id;
}

-- The outcome that the call asks for is there already.
abbrev pub Repeats : EnvironmentCall → EnvironmentSnapshot → Type 0
Repeats (update_health_call verdict at) s = (s.health ≡ verdict) × (s.lifecycle ≢ deleted)
Repeats (attach_call runtime at) s =
    (s.current_runtime_id ≡ some runtime.snapshot.id)
    × ((s.lifecycle ≡ creating) ⊎ (s.lifecycle ≡ active))
Repeats (detach_call runtime at) s = (s.current_runtime_id ≡ none) × (s.lifecycle ≢ deleted)
Repeats (replace_call retired replacement at) s =
    (s.current_runtime_id ≡ some replacement.snapshot.id)
    × ((s.lifecycle ≡ creating) ⊎ (s.lifecycle ≡ active))
Repeats _ s = ⊥

-- A call that succeeds found its outcome there and returns the same Environment, or it was admitted
-- and its change was finalized.
abbrev pub Outcome : EnvironmentCall → Environment → Environment → Type 0
Outcome c e e' =
    ((e' ≡ e) × Repeats c e.snapshot)
    ⊎ (Accepts e.snapshot (time_of c)
        × Admits c e.snapshot
        × (finalize_environment_transition (change c e.snapshot) (time_of c) ≡ ok e'))
