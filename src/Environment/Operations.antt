-- ===== src/Environment/Operations.antt =====
-- libs/domain/environment.go: the transitions of an Environment.
use sshai.Base.{
  String, Bool, true, false, not, ◌&&◌, ◌||◌, Option, none, some, [], ◌∷◌, is_nat, same_int,
  inc_int64, max_int64, Time, before, is_zero, is_blank, same_text, is_some, Error, errors_new,
  errorf, Result, ok, err, ◌>>=◌, ◌>>◌, fail_if, wrapped, if◌then◌else◌,
}
use sshai.Capsule.Lock.{CapsuleLock}
use sshai.Runtime.Status.{absent, same_status}
use sshai.Runtime.Snapshot.{
  RuntimeSnapshot, Runtime, clone_runtime_snapshot, validate_runtime_snapshot,
}
use sshai.Runtime.Operations.{refers_to}
use sshai.Environment.Snapshot.{
  EnvironmentLifecycle, creating, active, deleting, deleted, EnvironmentHealth, UpgradePolicy,
  lifecycle_text, health_text, policy_text, same_lifecycle, same_health, is_valid_health,
  is_valid_policy, or_manual, EnvironmentSnapshot, Environment, validate_environment_snapshot,
}

abbrev pub err_capsule_lock_already_pinned : Error
err_capsule_lock_already_pinned = errors_new "Environment already has a pinned Capsule Lock"

unfoldable pub transition_snapshot : Environment → Time → Result EnvironmentSnapshot
transition_snapshot environment at = do
  validate_environment_snapshot environment.snapshot
  fail_if (is_zero at || before at environment.snapshot.updated_at)
      (errors_new "transition time precedes current state")
  ok environment.snapshot

unfoldable pub finalize_environment_transition : EnvironmentSnapshot → Time → Result Environment
finalize_environment_transition next at = do
  fail_if (is_nat next.version max_int64) (errors_new "Environment version exhausted")
  let final = record next { updated_at = at; version = inc_int64 next.version }
  wrapped "finalize Environment transition: %w" (validate_environment_snapshot final)
  ok (record { snapshot = final })

unfoldable pub activate : Environment → Time → Result Environment
activate environment at = do
  next ← wrapped "activate Environment: %w" (transition_snapshot environment at)
  fail_if (not (same_lifecycle next.lifecycle creating)) (
      errorf "activate Environment: lifecycle is %q, want %q"
        (lifecycle_text next.lifecycle ∷ "creating" ∷ []))
  finalize_environment_transition (record next { lifecycle = active }) at

unfoldable pub begin_deletion : Environment → Time → Result Environment
begin_deletion environment at = do
  next ← wrapped "begin Environment deletion: %w" (transition_snapshot environment at)
  fail_if (not (same_lifecycle next.lifecycle active)) (
      errorf "begin Environment deletion: lifecycle is %q, want %q"
        (lifecycle_text next.lifecycle ∷ "active" ∷ []))
  finalize_environment_transition (record next { lifecycle = deleting }) at

unfoldable pub complete_deletion : Environment → Time → Result Environment
complete_deletion environment at = do
  next ← wrapped "complete Environment deletion: %w" (transition_snapshot environment at)
  fail_if (not (same_lifecycle next.lifecycle deleting)) (
      errorf "complete Environment deletion: lifecycle is %q, want %q"
        (lifecycle_text next.lifecycle ∷ "deleting" ∷ []))
  fail_if (is_some next.current_runtime_id)
      (errors_new "complete Environment deletion: current Runtime must be detached")
  finalize_environment_transition (record next { lifecycle = deleted; deleted_at = some at }) at

unfoldable pub update_health : Environment → EnvironmentHealth → Time → Result Environment
update_health environment health at = do
  fail_if (not (is_valid_health health))
      (errorf "update Environment health: unknown health %q" (health_text health ∷ []))
  next ← wrapped "update Environment health: %w" (transition_snapshot environment at)
  fail_if (same_lifecycle next.lifecycle deleted)
      (errors_new "update Environment health: deleted Environment is immutable")
  if same_health health next.health
      then ok environment
      else finalize_environment_transition (record next { health = health }) at

unfoldable pub set_capsule_lock :
    Environment → CapsuleLock → UpgradePolicy → Time → (repin : Bool) → Result Environment
set_capsule_lock environment lock policy at repin = do
  fail_if (is_blank lock.snapshot.id) (errors_new "set Capsule Lock: Capsule Lock ID is required")
  fail_if (not (same_text lock.snapshot.environment_id environment.snapshot.id))
      (errors_new "set Capsule Lock: Capsule Lock does not belong to Environment")
  fail_if (not repin && is_some environment.snapshot.capsule_lock_id)
      err_capsule_lock_already_pinned
  let chosen = or_manual policy
  fail_if (not (is_valid_policy chosen))
      (errorf "set Capsule Lock: unknown upgrade policy %q" (policy_text chosen ∷ []))
  next ← wrapped "set Capsule Lock: %w" (transition_snapshot environment at)
  fail_if (same_lifecycle next.lifecycle deleted)
      (errors_new "set Capsule Lock: deleted Environment is immutable")
  finalize_environment_transition
      (record next { capsule_lock_id = some lock.snapshot.id; upgrade_policy = chosen }) at

unfoldable pub pin_capsule_lock :
    Environment → CapsuleLock → UpgradePolicy → Time → Result Environment
pin_capsule_lock environment lock policy at =
    if is_some environment.snapshot.capsule_lock_id
    then err err_capsule_lock_already_pinned
    else set_capsule_lock environment lock policy at false

unfoldable pub repin_capsule_lock :
    Environment → CapsuleLock → UpgradePolicy → Time → Result Environment
repin_capsule_lock environment lock policy at = set_capsule_lock environment lock policy at true

unfoldable pub validate_runtime_ownership :
    EnvironmentSnapshot → RuntimeSnapshot → Result (Unit {0})
validate_runtime_ownership environment runtime = do
  fail_if (not (same_text runtime.environment_id environment.id))
      (errors_new "Runtime does not belong to Environment")
  fail_if
      (not (same_text runtime.region environment.region)
        || not (same_text runtime.availability_zone environment.availability_zone)
        || not (same_text runtime.runtime_preset environment.runtime_preset))
      (errors_new "Runtime placement or preset differs from Environment ownership")

unfoldable pub validate_initial_runtime : EnvironmentSnapshot → RuntimeSnapshot → Result (Unit {0})
validate_initial_runtime environment runtime = do
  wrapped "invalid Runtime: %w" (validate_runtime_snapshot runtime)
  validate_runtime_ownership environment runtime
  fail_if
      (not (is_nat runtime.sequence 1)
        || not (same_status runtime.status absent)
        || is_some runtime.retired_at
        || is_some runtime.provider_instance_ref)
      (errors_new "initial Runtime must be a fresh sequence-1 reservation")

-- Environment lifecycle %q does not accept a Runtime
abbrev refuses_runtime : EnvironmentLifecycle → Bool
refuses_runtime lifecycle =
    not (same_lifecycle lifecycle creating) && not (same_lifecycle lifecycle active)

-- `next` has a current Runtime, or it gets the one with the ID.
attach_to : Environment → EnvironmentSnapshot → String → Time → Option String → Result Environment
attach_to environment next id at (some current) =
    if same_text current id
    then ok environment
    else err (errorf "attach Runtime: Environment already has current Runtime %q" (current ∷ []))
attach_to environment next id at none =
    finalize_environment_transition (record next { current_runtime_id = some id }) at

unfoldable pub attach_runtime : Environment → Runtime → Time → Result Environment
unfolding clone_runtime_snapshot attach_to
attach_runtime environment runtime at =
    let runtime_snapshot = clone_runtime_snapshot runtime.snapshot in
    do
      wrapped "attach Runtime: %w" (validate_initial_runtime environment.snapshot runtime_snapshot)
      next ← wrapped "attach Runtime: %w" (transition_snapshot environment at)
      fail_if (refuses_runtime next.lifecycle) (
          errorf "attach Runtime: Environment lifecycle %q does not accept a Runtime"
            (lifecycle_text next.lifecycle ∷ []))
      attach_to environment next runtime_snapshot.id at next.current_runtime_id

unfoldable pub validate_retired_runtime : EnvironmentSnapshot → RuntimeSnapshot → Result (Unit {0})
validate_retired_runtime environment runtime = do
  wrapped "invalid Runtime: %w" (validate_runtime_snapshot runtime)
  validate_runtime_ownership environment runtime
  fail_if (not (same_status runtime.status absent) || not (is_some runtime.retired_at))
      (errors_new "Runtime must be retired before detachment")

detach_from : Environment → EnvironmentSnapshot → String → Time → Option String → Result Environment
detach_from environment next id at none = ok environment
detach_from environment next id at (some current) =
    if same_text current id
    then finalize_environment_transition (record next { current_runtime_id = none }) at
    else err (errorf "detach Runtime: current Runtime is %q, not %q" (current ∷ id ∷ []))

unfoldable pub detach_runtime : Environment → Runtime → Time → Result Environment
unfolding clone_runtime_snapshot detach_from
detach_runtime environment runtime at =
    let runtime_snapshot = clone_runtime_snapshot runtime.snapshot in
    do
      wrapped "detach Runtime: %w" (validate_retired_runtime environment.snapshot runtime_snapshot)
      next ← wrapped "detach Runtime: %w" (transition_snapshot environment at)
      fail_if (same_lifecycle next.lifecycle deleted)
          (errors_new "detach Runtime: deleted Environment is immutable")
      detach_from environment next runtime_snapshot.id at next.current_runtime_id

unfoldable pub validate_runtime_replacement :
    EnvironmentSnapshot → RuntimeSnapshot → RuntimeSnapshot → Result (Unit {0})
unfolding inc_int64
validate_runtime_replacement environment current replacement = do
  wrapped "invalid retired Runtime: %w" (validate_runtime_snapshot current)
  wrapped "invalid replacement Runtime: %w" (validate_runtime_snapshot replacement)
  wrapped "retired Runtime ownership: %w" (validate_runtime_ownership environment current)
  wrapped "replacement Runtime ownership: %w" (validate_runtime_ownership environment replacement)
  fail_if (not (same_status current.status absent) || not (is_some current.retired_at))
      (errors_new "current Runtime must be retired before replacement")
  fail_if
      (not (same_status replacement.status absent)
        || is_some replacement.retired_at
        || is_some replacement.provider_instance_ref)
      (errors_new "replacement Runtime must be a fresh reservation")
  fail_if (not (same_int replacement.sequence (inc_int64 current.sequence)))
      (errors_new "replacement Runtime sequence must immediately follow current Runtime")

unfoldable pub replace_runtime : Environment → Runtime → Runtime → Time → Result Environment
unfolding clone_runtime_snapshot
replace_runtime environment retired replacement at =
    let current = clone_runtime_snapshot retired.snapshot in
    let next_runtime = clone_runtime_snapshot replacement.snapshot in
    do
      wrapped "replace current Runtime: %w"
          (validate_runtime_replacement environment.snapshot current next_runtime)
      next ← wrapped "replace current Runtime: %w" (transition_snapshot environment at)
      fail_if (refuses_runtime next.lifecycle) (
          errorf "replace current Runtime: Environment lifecycle %q does not accept a Runtime"
            (lifecycle_text next.lifecycle ∷ []))
      if refers_to next.current_runtime_id next_runtime.id then ok environment else (do
        fail_if (not (refers_to next.current_runtime_id current.id))
            (errors_new "replace current Runtime: retired Runtime is not current")
        finalize_environment_transition (record next { current_runtime_id = some next_runtime.id })
            at)
