-- ===== src/Operation/Invariant.antt =====
-- libs/domain/operation.go: what holds of every Operation that the operations can reach.
use sshai.Base.{
  true, false, Option, none, some, ◌≡◌, refl, ◌⊎◌, arith, ◌≤◌, Time, before, is_zero, is_empty,
  is_some, Result, ok, err,
}
use sshai.Operation.Model.{
  request_of, environment_update_auto_stop, OperationStatus, queued, succeeded, terminal, type_text,
  unknown_status, OperationRequest, OperationSnapshot, Operation, empty_id, no_bytes,
  queue_operation, restore_operation, record_restate_invocation, start, succeed,
  succeed_synchronously, OperationCall, record_invocation_call, start_call, succeed_call,
  succeed_synchronously_call, call_operation,
}

abbrev Completed : OperationSnapshot → Option Time → Type 0
Completed s none = terminal s.status ≡ false
Completed s (some t) = (terminal s.status ≡ true) × (s.created_at.instant ≤ t.instant)

abbrev pub IsKnown : OperationStatus → Type 0
IsKnown (unknown_status s) = ⊥
IsKnown _ = Unit {0}

pub record IsSound (s : OperationSnapshot) : Type 0 where
  pub id : is_empty s.id ≡ false
  pub environment_id : is_empty s.environment_id ≡ false
  pub type : is_empty (type_text s.type) ≡ false
  pub requested_by_user_id : is_empty s.requested_by_user_id ≡ false
  pub idempotency_key : is_empty s.idempotency_key ≡ false
  pub input : no_bytes s.input ≡ false
  pub created : is_zero s.created_at ≡ false
  pub known : IsKnown s.status
  -- A completion time is there exactly in a terminal Operation, and not before the creation.
  pub completed : Completed s s.completed_at
  pub invocation : empty_id s.restate_invocation_id ≡ false
  -- Success has a Restate invocation, but for the one synchronous command.
  pub provenance :
      s.status ≡ succeeded
      → (is_some s.restate_invocation_id ≡ true) ⊎ (s.type ≡ environment_update_auto_stop)

queue-IsSound :
    (r : OperationRequest) {o : Operation} → queue_operation r ≡ ok o → IsSound o.snapshot
unfolding queue_operation terminal
queue-IsSound r h = ground arith

abbrev queued_form : OperationRequest → OperationSnapshot
queued_form r = record {
  id = r.id;
  environment_id = r.environment_id;
  type = r.type;
  status = queued;
  requested_by_user_id = r.requested_by_user_id;
  idempotency_key = r.idempotency_key;
  restate_invocation_id = none;
  input = r.input;
  created_at = r.created_at;
  completed_at = none;
}

queue-eq :
    (r : OperationRequest) (o : Operation)
    → queue_operation r ≡ ok o
    → o ≡ record { snapshot = queued_form r }
unfolding queue_operation
queue-eq r o h = ground arith

-- What restore_operation checks beside the request.
record Restored (s : OperationSnapshot) : Type 0 where
  known : IsKnown s.status
  completed : Completed s s.completed_at
  invocation : empty_id s.restate_invocation_id ≡ false
  provenance :
      s.status ≡ succeeded
      → (is_some s.restate_invocation_id ≡ true) ⊎ (s.type ≡ environment_update_auto_stop)

module _ (s : OperationSnapshot) (o : Operation) (h : restore_operation s ≡ ok o) where
  restore-Restored : Restored s
  unfolding restore_operation terminal before
  restore-Restored = ground arith

  -- A restored Operation has the snapshot that it was restored from.
  restore-snapshot : o.snapshot ≡ s
  unfolding restore_operation
  restore-snapshot = go (queue_operation (request_of s)) refl
    where
      go : (q : Result Operation) → queue_operation (request_of s) ≡ q → o.snapshot ≡ s
      go (ok q) e = ground (arith, queue-eq (request_of s) q e)
      go (err x) e = ground arith

  restore-queued : (q : Operation) × (queue_operation (request_of s) ≡ ok q)
  unfolding restore_operation
  restore-queued = go (queue_operation (request_of s)) refl
    where
      go :
          (q : Result Operation)
          → queue_operation (request_of s) ≡ q
          → (q : Operation) × (queue_operation (request_of s) ≡ ok q)
      go (ok q) e = (q, e)
      go (err x) e = absurd (ground arith)

  restore-IsSound : IsSound o.snapshot
  restore-IsSound =
      let (q, e) = restore-queued in
      let w = queue-IsSound (request_of s) e in
      let f = queue-eq (request_of s) q e in
      let c = restore-Restored in rw restore-snapshot (ground (arith, f))

call-IsSound :
    (c : OperationCall) (o : Operation) {o' : Operation}
    → IsSound o.snapshot
    → call_operation c o ≡ ok o'
    → IsSound o'.snapshot
unfolding call_operation record_restate_invocation start succeed succeed_synchronously terminal
    before
call-IsSound (record_invocation_call i) o w h = ground arith
call-IsSound (start_call at) o w h = ground arith
call-IsSound (succeed_call at) o w h = ground arith
call-IsSound (succeed_synchronously_call at) o w h = ground arith

-- The Operations that the package hands out.
pub data Reachable : Operation → Type 0 where
  requested : (r : OperationRequest) {o : Operation} → queue_operation r ≡ ok o → Reachable o
  restored : (s : OperationSnapshot) {o : Operation} → restore_operation s ≡ ok o → Reachable o
  called :
      (c : OperationCall) {o o' : Operation}
      → Reachable o
      → call_operation c o ≡ ok o'
      → Reachable o'

-- Every Operation that a request, a restored snapshot and any calls lead to is sound.
pub Reachable-operation-IsSound : {o : Operation} → Reachable o → IsSound o.snapshot
Reachable-operation-IsSound (requested r h) = queue-IsSound r h
Reachable-operation-IsSound (restored s {o} h) = restore-IsSound s o h
Reachable-operation-IsSound (called c {o} before h) =
    call-IsSound c o (Reachable-operation-IsSound before) h
