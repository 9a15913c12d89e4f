-- ===== src/Operation/Model.antt =====
-- libs/domain/operation.go: the state of an Operation and its transitions.
use sshai.Base.{
  ℕ, String, Bool, true, false, not, ◌&&◌, Option, none, some, List, [], ◌∷◌, Time, before, is_zero,
  is_empty, same_text, is_some, errors_new, errorf, Result, ok, err, ◌>>=◌, ◌>>◌, fail_if, wrapped,
  require_each, if◌then◌else◌,
}

pub data OperationType : Type 0 where
  environment_create environment_update_auto_stop runtime_start runtime_stop runtime_replace
        profile_apply profile_resolve :
      OperationType
  unknown_type : String → OperationType

pub data OperationStatus : Type 0 where
  queued running succeeded failed cancelled blocked : OperationStatus
  unknown_status : String → OperationStatus

unfoldable pub type_text : OperationType → String
type_text environment_create = "environment.create"
type_text environment_update_auto_stop = "environment.update_auto_stop"
type_text runtime_start = "runtime.start"
type_text runtime_stop = "runtime.stop"
type_text runtime_replace = "runtime.replace"
type_text profile_apply = "profile.apply"
type_text profile_resolve = "profile.resolve"
type_text (unknown_type s) = s

unfoldable pub status_text : OperationStatus → String
status_text queued = "queued"
status_text running = "running"
status_text succeeded = "succeeded"
status_text failed = "failed"
status_text cancelled = "cancelled"
status_text blocked = "blocked"
status_text (unknown_status s) = s

abbrev pub is_auto_stop_update : OperationType → Bool
is_auto_stop_update environment_update_auto_stop = true
is_auto_stop_update _ = false

abbrev pub is_queued : OperationStatus → Bool
is_queued queued = true
is_queued _ = false

abbrev pub is_running : OperationStatus → Bool
is_running running = true
is_running _ = false

abbrev pub is_succeeded : OperationStatus → Bool
is_succeeded succeeded = true
is_succeeded _ = false

-- OperationStatus.terminal
unfoldable pub terminal : OperationStatus → Bool
terminal succeeded = true
terminal failed = true
terminal cancelled = true
terminal blocked = true
terminal _ = false

pub record OperationRequest : Type 0 where
  pub id : String
  pub environment_id : String
  pub type : OperationType
  pub requested_by_user_id : String
  pub idempotency_key : String
  pub input : List ℕ
  pub created_at : Time

pub record OperationSnapshot : Type 0 where
  pub id : String
  pub environment_id : String
  pub type : OperationType
  pub status : OperationStatus
  pub requested_by_user_id : String
  pub idempotency_key : String
  pub restate_invocation_id : Option String
  pub input : List ℕ
  pub created_at : Time
  pub completed_at : Option Time

-- `Snapshot` returns a copy, which is equal to the snapshot.
pub record Operation : Type 0 where
  pub snapshot : OperationSnapshot

abbrev pub no_bytes : List ℕ → Bool
no_bytes [] = true
no_bytes (b ∷ r) = false

unfoldable pub queue_operation : OperationRequest → Result Operation
queue_operation r = do
  require_each is_empty (λ name. errorf "queue Operation: %s is required" (name ∷ []))
      (("ID", r.id)
        ∷ ("Environment ID", r.environment_id)
        ∷ ("type", type_text r.type)
        ∷ ("requesting User ID", r.requested_by_user_id)
        ∷ ("idempotency key", r.idempotency_key)
        ∷ [])
  fail_if (no_bytes r.input) (errors_new "queue Operation: input is required")
  fail_if (is_zero r.created_at) (errors_new "queue Operation: creation time is required")
  ok (record {
    snapshot = record {
      id = r.id;
      environment_id = r.environment_id;
      type = r.type;
      status = queued;
      requested_by_user_id = r.requested_by_user_id;
      idempotency_key = r.idempotency_key;
      restate_invocation_id = none;
      input = r.input;
      created_at = r.created_at;
      completed_at = none;
    };
  })

-- *value is set and empty, *value is set and before the time
abbrev pub empty_id : Option String → Bool
empty_id none = false
empty_id (some s) = is_empty s

abbrev pub precedes : Option Time → Time → Bool
precedes none t = false
precedes (some c) t = before c t

abbrev pub request_of : OperationSnapshot → OperationRequest
request_of s = record {
  id = s.id;
  environment_id = s.environment_id;
  type = s.type;
  requested_by_user_id = s.requested_by_user_id;
  idempotency_key = s.idempotency_key;
  input = s.input;
  created_at = s.created_at;
}

unfoldable pub restore_operation : OperationSnapshot → Result Operation
restore_operation s = do
  fail_if (not (is_queued s.status) && not (is_running s.status) && not (terminal s.status))
      (errorf "restore Operation: unknown status %q" (status_text s.status ∷ []))
  fail_if (terminal s.status && not (is_some s.completed_at))
      (errors_new "restore Operation: terminal Operation requires completion time")
  fail_if
      (is_succeeded s.status
        && not (is_some s.restate_invocation_id)
        && not (is_auto_stop_update s.type))
      (errors_new "restore Operation: succeeded Operation requires Restate invocation")
  fail_if (not (terminal s.status) && is_some s.completed_at)
      (errors_new "restore Operation: incomplete Operation cannot have completion time")
  restored ← wrapped "restore Operation: %w" (queue_operation (request_of s))
  fail_if (empty_id s.restate_invocation_id)
      (errors_new "restore Operation: Restate invocation ID cannot be empty")
  fail_if (precedes s.completed_at s.created_at)
      (errors_new "restore Operation: completion time precedes creation time")
  ok (record {
    snapshot = record restored.snapshot {
      status = s.status;
      restate_invocation_id = s.restate_invocation_id;
      completed_at = s.completed_at;
    };
  })

record_for : Operation → String → Option String → Result Operation
record_for operation invocation (some current) =
    if same_text current invocation
    then ok operation
    else err
        (errors_new "record Restate invocation: Operation already belongs to another invocation")
record_for operation invocation none =
    ok (record { snapshot = record operation.snapshot { restate_invocation_id = some invocation } })

unfoldable pub record_restate_invocation : Operation → String → Result Operation
unfolding record_for
record_restate_invocation operation invocation = do
  fail_if (is_empty invocation) (errors_new "record Restate invocation: invocation ID is required")
  record_for operation invocation operation.snapshot.restate_invocation_id

unfoldable pub start : Operation → Time → Result Operation
start operation at =
    let s = operation.snapshot in
    if is_running s.status then ok operation else (do
      fail_if (not (is_queued s.status))
          (errorf "start Operation: status is %q, want %q" (status_text s.status ∷ "queued" ∷ []))
      fail_if (before at s.created_at)
          (errors_new "start Operation: start time precedes creation time")
      ok (record { snapshot = record s { status = running } }))

unfoldable pub succeed : Operation → Time → Result Operation
succeed operation at =
    let s = operation.snapshot in
    if is_succeeded s.status then ok operation else (do
      fail_if (not (is_running s.status)) (
          errorf "succeed Operation: status is %q, want %q" (status_text s.status ∷ "running" ∷ []))
      fail_if (not (is_some s.restate_invocation_id))
          (errors_new "succeed Operation: Restate invocation is required")
      fail_if (before at s.created_at)
          (errors_new "succeed Operation: completion time precedes creation time")
      ok (record { snapshot = record s { status = succeeded; completed_at = some at } }))

unfoldable pub succeed_synchronously : Operation → Time → Result Operation
succeed_synchronously operation at =
    let s = operation.snapshot in
    if is_succeeded s.status && is_auto_stop_update s.type && not (is_some s.restate_invocation_id)
    then ok operation
    else (do
      fail_if (not (is_auto_stop_update s.type)) (
          errorf "succeed Operation synchronously: type %q requires a workflow"
            (type_text s.type ∷ []))
      fail_if (not (is_queued s.status)) (
          errorf "succeed Operation synchronously: status is %q, want %q"
            (status_text s.status ∷ "queued" ∷ []))
      fail_if (is_some s.restate_invocation_id)
          (errors_new "succeed Operation synchronously: Restate invocation must be absent")
      fail_if (before at s.created_at)
          (errors_new "succeed Operation synchronously: completion time precedes creation time")
      ok (record { snapshot = record s { status = succeeded; completed_at = some at } }))

-- One call of an operation, with its arguments.
pub data OperationCall : Type 0 where
  record_invocation_call : String → OperationCall
  start_call succeed_call succeed_synchronously_call : Time → OperationCall

unfoldable pub call_operation : OperationCall → Operation → Result Operation
call_operation (record_invocation_call invocation) o = record_restate_invocation o invocation
call_operation (start_call at) o = start o at
call_operation (succeed_call at) o = succeed o at
call_operation (succeed_synchronously_call at) o = succeed_synchronously o at
