-- ===== src/Runtime/Tests.antt =====
-- One life of a Runtime, and the theorems on it.
use sshai.Base.{
  ◌≡◌, ◌↔◌, ◌⊎◌, refl, arith, ℤ, Result, ok, err, before, after, to_canonical, is_zero,
  is_untrimmed, is_private_ipv4,
}
use sshai.Runtime.Status.{stopping, is_valid_status, same_status}
use sshai.Runtime.Snapshot.{
  Runtime, validate_lifecycle, validate_runtime_state, validate_runtime_snapshot,
  clone_runtime_snapshot, reserve_runtime,
}
use sshai.Runtime.Operations.{
  RuntimeCall, provision_call, mark_provision_error_call, begin_start_call, begin_stop_call,
  mark_ready_call, provision, mark_provision_error, begin_start, mark_ready, begin_stop,
  mark_stopped, mark_error, begin_replacement, retire, call_runtime, transition,
  finalize_runtime_transition, validate_current_runtime_observation, err_stale_runtime_observation,
}
use sshai.Runtime.WellFormed.{IsWellFormed, validate_runtime-iff-IsWellFormed, wellformed_of_valid}
use sshai.Runtime.Invariant.{
  Follows, Reachable, reserved, called, call_runtime-Follows, Reachable-runtime-IsWellFormed,
}
use sshai.Runtime.Progress.{call_runtime_succeeds, call_runtime_idem}
use sshai.Samples.{
  at, reservation, fresh_runtime, allocated, booting, readiness, serving, unallocated,
}
use sshai.Runtime.Late.{late_observation_unchanged}

-- What a run of the calls computes with.
run_call : RuntimeCall → Runtime → Result Runtime
unfolding call_runtime provision mark_provision_error begin_start mark_ready begin_stop mark_stopped
    mark_error begin_replacement retire transition finalize_runtime_transition
    validate_current_runtime_observation validate_runtime_snapshot validate_runtime_state
    validate_lifecycle clone_runtime_snapshot same_status is_valid_status is_untrimmed
    is_private_ipv4 before after is_zero to_canonical
run_call = call_runtime

reserve_test : reserve_runtime reservation ≡ ok fresh_runtime
unfolding reserve_runtime run_call
reserve_test = refl

provision_test : call_runtime (provision_call "i-1" (at 20)) fresh_runtime ≡ ok allocated
unfolding run_call
provision_test = refl

start_test : call_runtime (begin_start_call (at 30)) allocated ≡ ok booting
unfolding run_call
start_test = refl

ready_test : call_runtime (mark_ready_call readiness) booting ≡ ok serving
unfolding run_call
ready_test = refl

stale_test :
    call_runtime (mark_ready_call (record readiness { expected_version = ℤ.pos 2 })) booting
    ≡ err err_stale_runtime_observation
unfolding run_call
stale_test = refl

allocation_test : call_runtime (mark_provision_error_call (at 20)) fresh_runtime ≡ ok unallocated
unfolding run_call
allocation_test = refl

serving-valid : validate_runtime_snapshot serving.snapshot ≡ ok tt
unfolding run_call
serving-valid = refl

serving-IsWellFormed : IsWellFormed serving.snapshot
serving-IsWellFormed = wellformed_of_valid serving.snapshot serving-valid

validate_runtime-iff-IsWellFormed_example :
    (validate_runtime_snapshot serving.snapshot ≡ ok tt) ↔ IsWellFormed serving.snapshot
validate_runtime-iff-IsWellFormed_example = validate_runtime-iff-IsWellFormed serving.snapshot

booting-Reachable : Reachable booting
booting-Reachable =
    called (begin_start_call (at 30))
      (called (provision_call "i-1" (at 20)) (reserved reservation reserve_test) provision_test)
      start_test

Reachable-runtime-IsWellFormed_example : IsWellFormed serving.snapshot
Reachable-runtime-IsWellFormed_example =
    Reachable-runtime-IsWellFormed (called (mark_ready_call readiness) booting-Reachable ready_test)

call_runtime-Follows_example :
    (serving ≡ booting)
    ⊎ (Follows booting.snapshot serving.snapshot × IsWellFormed serving.snapshot)
call_runtime-Follows_example = call_runtime-Follows (mark_ready_call readiness) booting ready_test

call_runtime_succeeds_example :
    (r : Runtime) × (call_runtime (begin_stop_call (at 50)) serving ≡ ok r)
    × (r.snapshot.status ≡ stopping)
call_runtime_succeeds_example =
    call_runtime_succeeds (begin_stop_call (at 50)) serving serving-IsWellFormed (omega arith) refl
      refl (λ e. ground arith) tt

call_runtime_idem_example : call_runtime (mark_ready_call readiness) serving ≡ ok serving
call_runtime_idem_example = call_runtime_idem (mark_ready_call readiness) booting ready_test

late_test : call_runtime (mark_ready_call readiness) serving ≡ ok serving
unfolding run_call
late_test = refl

serving-Follows : Follows booting.snapshot serving.snapshot
serving-Follows = ground (arith, call_runtime-Follows_example)

late_observation_unchanged_example : serving ≡ serving
late_observation_unchanged_example =
    late_observation_unchanged (mark_ready_call readiness) booting.snapshot serving serving-Follows
      refl late_test

final_test : call_runtime (mark_provision_error_call (at 30)) unallocated ≡ ok unallocated
unfolding run_call
final_test = refl
