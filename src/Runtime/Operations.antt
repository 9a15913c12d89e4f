-- ===== src/Runtime/Operations.antt =====
-- libs/domain/runtime.go: the operations of a Runtime.
use sshai.Base.{
  String, Bool, false, not, ◌&&◌, ◌||◌, Option, none, some, [], ◌∷◌, ℤ, is_nat, same_int, inc_int64,
  max_int64, Time, before, is_zero, to_canonical, is_blank, is_empty, is_private_ipv4, same_text,
  is_some, Error, errors_new, errorf, Result, ok, ◌>>=◌, ◌>>◌, fail_if, wrapped, if◌then◌else◌,
}
use sshai.Runtime.Status.{
  RuntimeStatus, absent, provisioning, starting, ready, stopping, stopped, replacing, error,
  same_status, status_text,
}
use sshai.Runtime.Snapshot.{
  RuntimeSnapshot, Runtime, clone_runtime_snapshot, validate_runtime_snapshot,
}

pub record RuntimeReadinessObservation : Type 0 where
  pub provider_instance_ref : String
  pub boot_id : String
  pub private_address : String
  pub expected_version : ℤ
  pub observed_at : Time

pub record RuntimeStateObservation : Type 0 where
  pub provider_instance_ref : String
  pub expected_version : ℤ
  pub observed_at : Time

abbrev pub err_stale_runtime_observation : Error
err_stale_runtime_observation = errors_new "stale Runtime observation"

-- reference != nil && *reference == text
abbrev pub refers_to : Option String → String → Bool
refers_to none text = false
refers_to (some s) text = same_text s text

unfoldable pub validate_current_runtime_observation :
    RuntimeSnapshot → String → ℤ → Result (Unit {0})
validate_current_runtime_observation current provider expected =
    fail_if
      (not (same_int expected current.version)
        || not (refers_to current.provider_instance_ref provider))
      err_stale_runtime_observation

unfoldable pub transition : Runtime → Time → Result RuntimeSnapshot
unfolding clone_runtime_snapshot
transition runtime at =
    let next = clone_runtime_snapshot runtime.snapshot in
    do
      validate_runtime_snapshot next
      fail_if (is_zero at || before at next.updated_at)
          (errors_new "transition time precedes current state")
      ok next

unfoldable pub finalize_runtime_transition : RuntimeSnapshot → Time → Result Runtime
unfolding clone_runtime_snapshot inc_int64
finalize_runtime_transition next at = do
  fail_if (is_nat next.version max_int64) (errors_new "Runtime version exhausted")
  let final = record next { updated_at = to_canonical at; version = inc_int64 next.version }
  wrapped "finalize Runtime transition: %w" (validate_runtime_snapshot final)
  ok (record { snapshot = clone_runtime_snapshot final })

-- fmt.Errorf("…: status is %q", status)
abbrev status_is : String → RuntimeStatus → Error
status_is message status = errorf message (status_text status ∷ [])

unfoldable pub provision : Runtime → String → Time → Result Runtime
provision runtime provider at = do
  fail_if (is_empty provider)
      (errors_new "provision Runtime: provider instance reference is required")
  next ← wrapped "provision Runtime: %w" (transition runtime at)
  if same_status next.status provisioning && refers_to next.provider_instance_ref provider
      then ok runtime
      else (do
        fail_if (not (same_status next.status absent) || is_some next.retired_at)
            (status_is "provision Runtime: status is %q" next.status)
        finalize_runtime_transition
            (record next { status = provisioning; provider_instance_ref = some provider }) at)

unfoldable pub mark_provision_error : Runtime → Time → Result Runtime
unfolding clone_runtime_snapshot
mark_provision_error runtime at =
    let current = clone_runtime_snapshot runtime.snapshot in
    if same_status current.status error && not (is_some current.provider_instance_ref)
    then ok runtime
    else (do
      fail_if (not (same_status current.status absent) || is_some current.retired_at)
          (status_is "mark Runtime provision error: status is %q" current.status)
      next ← wrapped "mark Runtime provision error: %w" (transition runtime at)
      finalize_runtime_transition (record next { status = error }) at)

unfoldable pub begin_start : Runtime → Time → Result Runtime
begin_start runtime at = do
  next ← wrapped "start Runtime: %w" (transition runtime at)
  if same_status next.status starting then ok runtime else (do
    fail_if (not (same_status next.status provisioning) && not (same_status next.status stopped))
        (status_is "start Runtime: status is %q" next.status)
    finalize_runtime_transition
        (record next {
          status = starting;
          started_at = some at;
          stopped_at = none;
          private_address = none;
          boot_id = none;
        })
        at)

unfoldable pub mark_ready : Runtime → RuntimeReadinessObservation → Result Runtime
unfolding clone_runtime_snapshot
mark_ready runtime o =
    let current = clone_runtime_snapshot runtime.snapshot in
    if same_status current.status ready
      && refers_to current.provider_instance_ref o.provider_instance_ref
      && refers_to current.boot_id o.boot_id
      && refers_to current.private_address o.private_address
    then ok runtime
    else (do
      fail_if (not (same_status current.status starting))
          (status_is "mark Runtime ready: status is %q" current.status)
      validate_current_runtime_observation current o.provider_instance_ref o.expected_version
      next ← wrapped "mark Runtime ready: %w" (transition runtime o.observed_at)
      fail_if (is_blank o.boot_id || not (is_private_ipv4 o.private_address))
          (errors_new "mark Runtime ready: current boot ID and private IPv4 address are required")
      finalize_runtime_transition
          (record next {
            status = ready;
            boot_id = some o.boot_id;
            private_address = some o.private_address;
          })
          o.observed_at)

unfoldable pub begin_stop : Runtime → Time → Result Runtime
begin_stop runtime at = do
  next ← wrapped "stop Runtime: %w" (transition runtime at)
  if same_status next.status stopping || same_status next.status stopped then ok runtime else (do
    fail_if (not (same_status next.status ready))
        (status_is "stop Runtime: status is %q" next.status)
    finalize_runtime_transition
        (record next { status = stopping; private_address = none; boot_id = none }) at)

unfoldable pub mark_stopped : Runtime → RuntimeStateObservation → Result Runtime
unfolding clone_runtime_snapshot
mark_stopped runtime o =
    let current = clone_runtime_snapshot runtime.snapshot in
    if same_status current.status stopped
      && refers_to current.provider_instance_ref o.provider_instance_ref
    then ok runtime
    else (do
      fail_if (not (same_status current.status stopping))
          (status_is "mark Runtime stopped: status is %q" current.status)
      validate_current_runtime_observation current o.provider_instance_ref o.expected_version
      next ← wrapped "mark Runtime stopped: %w" (transition runtime o.observed_at)
      finalize_runtime_transition
          (record next { status = stopped; stopped_at = some o.observed_at }) o.observed_at)

unfoldable pub mark_error : Runtime → RuntimeStateObservation → Result Runtime
unfolding clone_runtime_snapshot
mark_error runtime o =
    let current = clone_runtime_snapshot runtime.snapshot in
    if same_status current.status error
      && refers_to current.provider_instance_ref o.provider_instance_ref
    then ok runtime
    else (do
      fail_if (same_status current.status absent || same_status current.status replacing)
          (status_is "mark Runtime error: status is %q" current.status)
      validate_current_runtime_observation current o.provider_instance_ref o.expected_version
      next ← wrapped "mark Runtime error: %w" (transition runtime o.observed_at)
      finalize_runtime_transition
          (record next { status = error; private_address = none; boot_id = none }) o.observed_at)

unfoldable pub begin_replacement : Runtime → Time → Result Runtime
begin_replacement runtime at = do
  next ← wrapped "replace Runtime: %w" (transition runtime at)
  if same_status next.status replacing then ok runtime else (do
    fail_if
        (not (same_status next.status ready)
          && not (same_status next.status stopped)
          && not (same_status next.status error))
        (status_is "replace Runtime: status is %q" next.status)
    finalize_runtime_transition
        (record next { status = replacing; private_address = none; boot_id = none }) at)

unfoldable pub retire : Runtime → RuntimeStateObservation → Result Runtime
unfolding clone_runtime_snapshot
retire runtime o =
    let current = clone_runtime_snapshot runtime.snapshot in
    if same_status current.status absent
      && is_some current.retired_at
      && refers_to current.provider_instance_ref o.provider_instance_ref
    then ok runtime
    else (do
      fail_if (not (same_status current.status replacing))
          (status_is "retire Runtime: status is %q" current.status)
      validate_current_runtime_observation current o.provider_instance_ref o.expected_version
      next ← wrapped "retire Runtime: %w" (transition runtime o.observed_at)
      finalize_runtime_transition (record next { status = absent; retired_at = some o.observed_at })
          o.observed_at)

-- One call of an operation, with its arguments.
pub data RuntimeCall : Type 0 where
  provision_call : String → Time → RuntimeCall
  mark_provision_error_call begin_start_call begin_stop_call begin_replacement_call :
      Time → RuntimeCall
  mark_ready_call : RuntimeReadinessObservation → RuntimeCall
  mark_stopped_call mark_error_call retire_call : RuntimeStateObservation → RuntimeCall

unfoldable pub call_runtime : RuntimeCall → Runtime → Result Runtime
call_runtime (provision_call provider at) r = provision r provider at
call_runtime (mark_provision_error_call at) r = mark_provision_error r at
call_runtime (begin_start_call at) r = begin_start r at
call_runtime (begin_stop_call at) r = begin_stop r at
call_runtime (begin_replacement_call at) r = begin_replacement r at
call_runtime (mark_ready_call o) r = mark_ready r o
call_runtime (mark_stopped_call o) r = mark_stopped r o
call_runtime (mark_error_call o) r = mark_error r o
call_runtime (retire_call o) r = retire r o
