-- ===== src/Environment/Tests.antt =====
-- One life of an Environment, and the theorems on it.
use sshai.Base.{
  arith, ◌>>=◌, ◌≡◌, ◌≢◌, ◌⊎◌, refl, some, inc_int64, Result, ok, before, after, same_instant,
  to_canonical, is_zero, is_untrimmed, is_private_ipv4, trim_space,
}
use sshai.Runtime.Status.{is_valid_status, same_status}
use sshai.Runtime.Snapshot.{
  validate_lifecycle, validate_runtime_state, validate_runtime_snapshot, clone_runtime_snapshot,
}
use sshai.Environment.Snapshot.{
  deleted, same_lifecycle, same_health, is_valid_lifecycle, is_valid_health, is_valid_policy,
  validate_deletion, validate_environment_snapshot, reserve_environment, Environment,
}
use sshai.Environment.Operations.{
  begin_deletion, complete_deletion, transition_snapshot, finalize_environment_transition, activate,
  update_health, attach_runtime, detach_runtime, replace_runtime, validate_runtime_ownership,
  validate_initial_runtime, validate_retired_runtime, validate_runtime_replacement,
}
use sshai.Environment.Steps.{EnvironmentCall, attach_call, call_environment}
use sshai.Environment.Deletion.{deletion_succeeds}
use sshai.Environment.WellFormed.{wellformed_of_valid, IsWellFormed}
use sshai.Environment.Invariant.{
  Follows, reserved, called, call_environment-Follows, Reachable-environment-IsWellFormed,
}
use sshai.Environment.Runtimes.{Owns, Fresh, Retired, replace_runtime_handover, deleted_is_final}
use sshai.Samples.{
  at, fresh_runtime, retired_runtime, replacement, environment_reservation, empty_environment,
  attached, completed, replaced, detached, gone,
}

-- What a run of the calls computes with.
run_call : EnvironmentCall → Environment → Result Environment
unfolding call_environment transition_snapshot finalize_environment_transition activate
    update_health attach_runtime detach_runtime replace_runtime validate_runtime_ownership
    validate_initial_runtime validate_retired_runtime validate_runtime_replacement
    validate_environment_snapshot validate_deletion is_valid_lifecycle is_valid_health
    is_valid_policy same_lifecycle same_health validate_runtime_snapshot validate_runtime_state
    validate_lifecycle clone_runtime_snapshot same_status is_valid_status is_untrimmed
    is_private_ipv4 trim_space before after same_instant is_zero to_canonical
run_call = call_environment

reserve_test : reserve_environment environment_reservation ≡ ok empty_environment
unfolding reserve_environment run_call
reserve_test = refl

attach_test : attach_runtime empty_environment fresh_runtime (at 10) ≡ ok attached
unfolding run_call
attach_test = refl

replace_test : replace_runtime completed retired_runtime replacement (at 60) ≡ ok replaced
unfolding run_call
replace_test = refl

detach_test : detach_runtime completed retired_runtime (at 60) ≡ ok detached
unfolding run_call
detach_test = refl

attach_call_test :
    call_environment (attach_call fresh_runtime (at 10)) empty_environment ≡ ok attached
unfolding call_environment
attach_call_test = attach_test

Reachable-environment-IsWellFormed_example : IsWellFormed attached.snapshot
Reachable-environment-IsWellFormed_example = Reachable-environment-IsWellFormed (
    called (attach_call fresh_runtime (at 10)) (reserved environment_reservation reserve_test)
      attach_call_test)

call_environment-Follows_example :
    (attached ≡ empty_environment)
    ⊎ (Follows empty_environment.snapshot attached.snapshot × IsWellFormed attached.snapshot)
call_environment-Follows_example =
    call_environment-Follows (attach_call fresh_runtime (at 10)) empty_environment attach_call_test

replace_runtime_handover_example :
    (replaced.snapshot.current_runtime_id ≡ some "rt-2")
    × ((replaced ≡ completed)
        ⊎ ((completed.snapshot.current_runtime_id ≡ some "rt-1")
            × Owns completed.snapshot retired_runtime.snapshot
            × Retired retired_runtime.snapshot
            × Owns completed.snapshot replacement.snapshot
            × Fresh replacement.snapshot
            × (replacement.snapshot.sequence ≡ inc_int64 retired_runtime.snapshot.sequence)))
replace_runtime_handover_example =
    replace_runtime_handover completed retired_runtime replacement (at 60) replace_test

deleted_is_final_example : call_environment (attach_call fresh_runtime (at 90)) gone ≢ ok attached
deleted_is_final_example = deleted_is_final (attach_call fresh_runtime (at 90)) gone attached refl

detached-valid : validate_environment_snapshot detached.snapshot ≡ ok tt
unfolding run_call
detached-valid = refl

deletion_succeeds_example :
    (e' : Environment) × ((do
      deletion ← begin_deletion detached (at 70)
      complete_deletion deletion (at 80))
      ≡ ok e')
    × (e'.snapshot.lifecycle ≡ deleted)
    × (e'.snapshot.deleted_at ≡ some (at 80))
deletion_succeeds_example =
    deletion_succeeds detached (at 70) (at 80) 5
      (wellformed_of_valid detached.snapshot detached-valid) refl refl refl (omega arith)
      (omega arith) (omega arith)
