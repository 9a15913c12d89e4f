-- ===== src/Environment/Cases.antt =====
-- libs/domain/environment.go: a call that succeeds has one of the outcomes of `Steps`.
use sshai.Base.{true, ◌≡◌, ap, sym, arith, same_text_iff, Time, ok}
use sshai.Capsule.Lock.{CapsuleLock}
use sshai.Runtime.Snapshot.{Runtime}
use sshai.Runtime.Cases.{refers-eq}
use sshai.Environment.Snapshot.{
  EnvironmentHealth, healthy, degraded, blocked, unknown, unknown_health, same_health,
  same_lifecycle, UpgradePolicy, Environment,
}
use sshai.Environment.Operations.{
  transition_snapshot, activate, begin_deletion, complete_deletion, update_health, set_capsule_lock,
  pin_capsule_lock, repin_capsule_lock, attach_runtime, detach_runtime, replace_runtime,
}
use sshai.Environment.Steps.{
  EnvironmentCall, activate_call, begin_deletion_call, complete_deletion_call, update_health_call,
  pin_call, repin_call, attach_call, detach_call, replace_call, call_environment, Outcome,
}

same_health-eq : (a b : EnvironmentHealth) → same_health a b ≡ true → b ≡ a
unfolding same_health
same_health-eq (unknown_health s) (unknown_health t) h =
    ap unknown_health (sym ((same_text_iff s t).0 h))
same_health-eq healthy b h = ground arith
same_health-eq degraded b h = ground arith
same_health-eq blocked b h = ground arith
same_health-eq unknown b h = ground arith
same_health-eq (unknown_health s) _ h = cc

module _ (e : Environment) {e' : Environment} where
  pub activate-cases : (at : Time) → activate e at ≡ ok e' → Outcome (activate_call at) e e'
  unfolding activate same_lifecycle transition_snapshot
  activate-cases at h = ground arith

  begin_deletion-cases :
      (at : Time) → begin_deletion e at ≡ ok e' → Outcome (begin_deletion_call at) e e'
  unfolding begin_deletion same_lifecycle transition_snapshot
  begin_deletion-cases at h = ground arith

  complete_deletion-cases :
      (at : Time) → complete_deletion e at ≡ ok e' → Outcome (complete_deletion_call at) e e'
  unfolding complete_deletion same_lifecycle transition_snapshot
  complete_deletion-cases at h = ground arith

  pub update_health-cases :
      (verdict : EnvironmentHealth) (at : Time)
      → update_health e verdict at ≡ ok e'
      → Outcome (update_health_call verdict at) e e'
  unfolding update_health same_lifecycle transition_snapshot
  update_health-cases verdict at h = ground (arith, same_health-eq verdict e.snapshot.health)

  module _ (lock : CapsuleLock) (policy : UpgradePolicy) (at : Time) where
    pin-cases : pin_capsule_lock e lock policy at ≡ ok e' → Outcome (pin_call lock policy at) e e'
    unfolding pin_capsule_lock set_capsule_lock same_lifecycle transition_snapshot
    pin-cases h = ground (arith, same_text_iff lock.snapshot.environment_id e.snapshot.id)

    repin-cases :
        repin_capsule_lock e lock policy at ≡ ok e' → Outcome (repin_call lock policy at) e e'
    unfolding repin_capsule_lock set_capsule_lock same_lifecycle transition_snapshot
    repin-cases h = ground (arith, same_text_iff lock.snapshot.environment_id e.snapshot.id)

  module _ (runtime : Runtime) (at : Time) where
    pub attach-cases : attach_runtime e runtime at ≡ ok e' → Outcome (attach_call runtime at) e e'
    unfolding attach_runtime same_lifecycle transition_snapshot
    attach-cases h = ground (arith, refers-eq e.snapshot.current_runtime_id runtime.snapshot.id)

    pub detach-cases : detach_runtime e runtime at ≡ ok e' → Outcome (detach_call runtime at) e e'
    unfolding detach_runtime same_lifecycle transition_snapshot
    detach-cases h = ground (arith, refers-eq e.snapshot.current_runtime_id runtime.snapshot.id)

  pub replace-cases :
      (retired replacement : Runtime) (at : Time)
      → replace_runtime e retired replacement at ≡ ok e'
      → Outcome (replace_call retired replacement at) e e'
  unfolding replace_runtime same_lifecycle transition_snapshot
  replace-cases retired replacement at h = ground (
    arith,
    refers-eq e.snapshot.current_runtime_id retired.snapshot.id,
    refers-eq e.snapshot.current_runtime_id replacement.snapshot.id,
  )

-- Every call that succeeds has its outcome.
pub call_environment-Outcome :
    (c : EnvironmentCall) (e : Environment) {e' : Environment}
    → call_environment c e ≡ ok e'
    → Outcome c e e'
unfolding call_environment
call_environment-Outcome (activate_call at) e h = activate-cases e at h
call_environment-Outcome (begin_deletion_call at) e h = begin_deletion-cases e at h
call_environment-Outcome (complete_deletion_call at) e h = complete_deletion-cases e at h
call_environment-Outcome (update_health_call verdict at) e h = update_health-cases e verdict at h
call_environment-Outcome (pin_call lock policy at) e h = pin-cases e lock policy at h
call_environment-Outcome (repin_call lock policy at) e h = repin-cases e lock policy at h
call_environment-Outcome (attach_call runtime at) e h = attach-cases e runtime at h
call_environment-Outcome (detach_call runtime at) e h = detach-cases e runtime at h
call_environment-Outcome (replace_call retired replacement at) e h =
    replace-cases e retired replacement at h
