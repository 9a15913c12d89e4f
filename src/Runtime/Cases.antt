-- ===== src/Runtime/Cases.antt =====
-- libs/domain/runtime.go: a call that succeeds has one of the outcomes of `Steps`, and a call that
-- is admitted runs to finalizeRuntimeTransition.
use sshai.Base.{
  String, true, false, Option, none, some, ◌≡◌, ◌↔◌, arith, Time, is_empty, same_text_iff, ok, ap,
}
use sshai.Runtime.Status.{same_status}
use sshai.Runtime.Snapshot.{Runtime, clone_runtime_snapshot}
use sshai.Runtime.Operations.{
  refers_to, RuntimeReadinessObservation, RuntimeStateObservation, transition,
  finalize_runtime_transition, provision, mark_provision_error, begin_start, mark_ready, begin_stop,
  mark_stopped, mark_error, begin_replacement, retire, RuntimeCall, provision_call,
  mark_provision_error_call, begin_start_call, begin_stop_call, begin_replacement_call,
  mark_ready_call, mark_stopped_call, mark_error_call, retire_call, call_runtime,
}
use sshai.Runtime.Steps.{
  Accepts, validate_current_runtime_observation-Current, Admits, Repeats, Outcome, change, time_of,
}

pub refers-eq : (o : Option String) (t : String) → (refers_to o t ≡ true) ↔ (o ≡ some t)
refers-eq none t = (λ h. cc, λ h. cc)
refers-eq (some s) t = (λ h. ap some ((same_text_iff s t).0 h), λ h. (same_text_iff s t).1 (cc))

module _ (r : Runtime) {r' : Runtime} where
  provision-cases :
      (p : String) (at : Time) → provision r p at ≡ ok r' → Outcome (provision_call p at) r r'
  unfolding provision same_status transition
  provision-cases p at h = ground (arith, refers-eq r.snapshot.provider_instance_ref p)

  mark_provision_error-cases :
      (at : Time) → mark_provision_error r at ≡ ok r' → Outcome (mark_provision_error_call at) r r'
  unfolding mark_provision_error same_status transition
  mark_provision_error-cases at h = ground arith

  begin_start-cases : (at : Time) → begin_start r at ≡ ok r' → Outcome (begin_start_call at) r r'
  unfolding begin_start same_status transition
  begin_start-cases at h = ground arith

  begin_stop-cases : (at : Time) → begin_stop r at ≡ ok r' → Outcome (begin_stop_call at) r r'
  unfolding begin_stop same_status transition
  begin_stop-cases at h = ground arith

  begin_replacement-cases :
      (at : Time) → begin_replacement r at ≡ ok r' → Outcome (begin_replacement_call at) r r'
  unfolding begin_replacement same_status transition
  begin_replacement-cases at h = ground arith

  mark_ready-cases :
      (o : RuntimeReadinessObservation) → mark_ready r o ≡ ok r' → Outcome (mark_ready_call o) r r'
  unfolding mark_ready same_status transition
  mark_ready-cases o h = ground (
    arith,
    refers-eq r.snapshot.provider_instance_ref o.provider_instance_ref,
    refers-eq r.snapshot.boot_id o.boot_id,
    refers-eq r.snapshot.private_address o.private_address,
    validate_current_runtime_observation-Current (clone_runtime_snapshot r.snapshot)
        o.provider_instance_ref o.expected_version,
  )

  module _ (o : RuntimeStateObservation) where
    mark_stopped-cases : mark_stopped r o ≡ ok r' → Outcome (mark_stopped_call o) r r'
    unfolding mark_stopped same_status transition
    mark_stopped-cases h = ground (
      arith,
      refers-eq r.snapshot.provider_instance_ref o.provider_instance_ref,
      validate_current_runtime_observation-Current (clone_runtime_snapshot r.snapshot)
          o.provider_instance_ref o.expected_version,
    )

    mark_error-cases : mark_error r o ≡ ok r' → Outcome (mark_error_call o) r r'
    unfolding mark_error same_status transition
    mark_error-cases h = ground (
      arith,
      refers-eq r.snapshot.provider_instance_ref o.provider_instance_ref,
      validate_current_runtime_observation-Current (clone_runtime_snapshot r.snapshot)
          o.provider_instance_ref o.expected_version,
    )

    retire-cases : retire r o ≡ ok r' → Outcome (retire_call o) r r'
    unfolding retire same_status transition
    retire-cases h = ground (
      arith,
      refers-eq r.snapshot.provider_instance_ref o.provider_instance_ref,
      validate_current_runtime_observation-Current (clone_runtime_snapshot r.snapshot)
          o.provider_instance_ref o.expected_version,
    )

-- Every call that succeeds has its outcome.
pub call_runtime-Outcome :
    (c : RuntimeCall) (r : Runtime) {r' : Runtime} → call_runtime c r ≡ ok r' → Outcome c r r'
unfolding call_runtime
call_runtime-Outcome (provision_call p at) r h = provision-cases r p at h
call_runtime-Outcome (mark_provision_error_call at) r h = mark_provision_error-cases r at h
call_runtime-Outcome (begin_start_call at) r h = begin_start-cases r at h
call_runtime-Outcome (begin_stop_call at) r h = begin_stop-cases r at h
call_runtime-Outcome (begin_replacement_call at) r h = begin_replacement-cases r at h
call_runtime-Outcome (mark_ready_call o) r h = mark_ready-cases r o h
call_runtime-Outcome (mark_stopped_call o) r h = mark_stopped-cases r o h
call_runtime-Outcome (mark_error_call o) r h = mark_error-cases r o h
call_runtime-Outcome (retire_call o) r h = retire-cases r o h

-- An admitted call runs to the finalization of its change, unless its outcome is there already.
pub call_runtime_admitted :
    (c : RuntimeCall) (r : Runtime)
    → Accepts r.snapshot (time_of c)
    → Admits c r.snapshot
    → ¬ Repeats c r.snapshot
    → call_runtime c r
      ≡ finalize_runtime_transition (change c (clone_runtime_snapshot r.snapshot)) (time_of c)
unfolding call_runtime provision mark_provision_error begin_start begin_stop begin_replacement
    mark_ready mark_stopped mark_error retire same_status transition
call_runtime_admitted (provision_call p at) r a d n =
    ground (arith, refers-eq r.snapshot.provider_instance_ref p)
call_runtime_admitted (mark_ready_call o) r a d n = ground (
  arith,
  refers-eq r.snapshot.provider_instance_ref o.provider_instance_ref,
  refers-eq r.snapshot.boot_id o.boot_id,
  refers-eq r.snapshot.private_address o.private_address,
  validate_current_runtime_observation-Current (clone_runtime_snapshot r.snapshot)
      o.provider_instance_ref o.expected_version,
)
call_runtime_admitted (mark_stopped_call o) r a d n = ground (
  arith,
  refers-eq r.snapshot.provider_instance_ref o.provider_instance_ref,
  validate_current_runtime_observation-Current (clone_runtime_snapshot r.snapshot)
      o.provider_instance_ref o.expected_version,
)
call_runtime_admitted (mark_error_call o) r a d n = ground (
  arith,
  refers-eq r.snapshot.provider_instance_ref o.provider_instance_ref,
  validate_current_runtime_observation-Current (clone_runtime_snapshot r.snapshot)
      o.provider_instance_ref o.expected_version,
)
call_runtime_admitted (retire_call o) r a d n = ground (
  arith,
  refers-eq r.snapshot.provider_instance_ref o.provider_instance_ref,
  validate_current_runtime_observation-Current (clone_runtime_snapshot r.snapshot)
      o.provider_instance_ref o.expected_version,
)
call_runtime_admitted _ r a d n = ground arith

-- What `provision` asks for before it looks at the Runtime.
abbrev pub Named : RuntimeCall → Type 0
Named (provision_call p at) = is_empty p ≡ false
Named _ = Unit {0}

-- A call whose outcome is there already returns the Runtime as it was.
pub call_runtime_repeated :
    (c : RuntimeCall) (r : Runtime)
    → Accepts r.snapshot (time_of c)
    → Repeats c r.snapshot
    → Named c
    → call_runtime c r ≡ ok r
unfolding call_runtime provision mark_provision_error begin_start begin_stop begin_replacement
    mark_ready mark_stopped mark_error retire same_status transition
call_runtime_repeated (provision_call p at) r a d n =
    ground (arith, refers-eq r.snapshot.provider_instance_ref p)
call_runtime_repeated (mark_ready_call o) r a d n = ground (
  arith,
  refers-eq r.snapshot.provider_instance_ref o.provider_instance_ref,
  refers-eq r.snapshot.boot_id o.boot_id,
  refers-eq r.snapshot.private_address o.private_address,
)
call_runtime_repeated (mark_stopped_call o) r a d n =
    ground (arith, refers-eq r.snapshot.provider_instance_ref o.provider_instance_ref)
call_runtime_repeated (mark_error_call o) r a d n =
    ground (arith, refers-eq r.snapshot.provider_instance_ref o.provider_instance_ref)
call_runtime_repeated (retire_call o) r a d n =
    ground (arith, refers-eq r.snapshot.provider_instance_ref o.provider_instance_ref)
call_runtime_repeated _ r a d n = ground arith
