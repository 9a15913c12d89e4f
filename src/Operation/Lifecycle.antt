-- ===== src/Operation/Lifecycle.antt =====
-- libs/domain/operation.go: the order of an Operation's statuses, and its Restate invocation.
use sshai.Base.{
  refl, ◌∙◌, String, true, false, none, some, ◌≡◌, ◌⊎◌, arith, ◌≤◌, Time, before, is_empty, is_some,
  same_text_iff, ok, ◌>>=◌,
}
use sshai.Operation.Model.{
  environment_update_auto_stop, queued, running, succeeded, terminal, OperationSnapshot, Operation,
  record_restate_invocation, start, succeed, succeed_synchronously, OperationCall,
  record_invocation_call, start_call, succeed_call, succeed_synchronously_call, call_operation,
}

-- The status diagram: a status and its completion time stay; a queued Operation runs; a running one
-- succeeds with an invocation and a completion time; and the synchronous command succeeds from the
-- queue, with no invocation.
abbrev pub Edge : OperationSnapshot → OperationSnapshot → Type 0
Edge s t =
    ((t.status ≡ s.status) × (t.completed_at ≡ s.completed_at))
    ⊎ ((s.status ≡ queued) × (t.status ≡ running) × (t.completed_at ≡ s.completed_at))
    ⊎ ((s.status ≡ running)
        × (t.status ≡ succeeded)
        × (is_some t.restate_invocation_id ≡ true)
        × (is_some t.completed_at ≡ true))
    ⊎ ((s.status ≡ queued)
        × (t.status ≡ succeeded)
        × (s.type ≡ environment_update_auto_stop)
        × (t.restate_invocation_id ≡ none)
        × (is_some t.completed_at ≡ true))

-- What no call changes, and that an invocation once recorded is never replaced.
pub record Keeps (s t : OperationSnapshot) : Type 0 where
  pub id : t.id ≡ s.id
  pub environment_id : t.environment_id ≡ s.environment_id
  pub type : t.type ≡ s.type
  pub requested_by_user_id : t.requested_by_user_id ≡ s.requested_by_user_id
  pub idempotency_key : t.idempotency_key ≡ s.idempotency_key
  pub input : t.input ≡ s.input
  pub created_at : t.created_at ≡ s.created_at
  pub invocation :
      (s.restate_invocation_id ≡ none) ⊎ (t.restate_invocation_id ≡ s.restate_invocation_id)

-- A call that succeeds keeps the request and follows the status diagram.
pub call_operation-Keeps :
    (c : OperationCall) (o : Operation) {o' : Operation}
    → call_operation c o ≡ ok o'
    → Keeps o.snapshot o'.snapshot
unfolding call_operation record_restate_invocation start succeed succeed_synchronously
call_operation-Keeps (record_invocation_call i) o h = ground arith
call_operation-Keeps (start_call at) o h = ground arith
call_operation-Keeps (succeed_call at) o h = ground arith
call_operation-Keeps (succeed_synchronously_call at) o h = ground arith

pub call_operation-Edge :
    (c : OperationCall) (o : Operation) {o' : Operation}
    → call_operation c o ≡ ok o'
    → Edge o.snapshot o'.snapshot
unfolding call_operation record_restate_invocation start succeed succeed_synchronously
call_operation-Edge (record_invocation_call i) o h = ground arith
call_operation-Edge (start_call at) o h = ground arith
call_operation-Edge (succeed_call at) o h = ground arith
call_operation-Edge (succeed_synchronously_call at) o h = ground arith

-- A call that succeeds keeps the request, never replaces an invocation, and follows an edge of the
-- status diagram.
pub call_operation_follows :
    (c : OperationCall) (o : Operation) {o' : Operation}
    → call_operation c o ≡ ok o'
    → Keeps o.snapshot o'.snapshot × Edge o.snapshot o'.snapshot
call_operation_follows c o h = (call_operation-Keeps c o h, call_operation-Edge c o h)

-- Calls of one Operation, in order.
pub data Run (o : Operation) : Operation → Type 0 where
  here : Run o o
  next : (c : OperationCall) {p q : Operation} → Run o p → call_operation c p ≡ ok q → Run o q

terminal-Edge :
    (s t : OperationSnapshot)
    → terminal s.status ≡ true
    → Edge s t
    → (t.status ≡ s.status) × (t.completed_at ≡ s.completed_at)
unfolding terminal
terminal-Edge s t h e = ground arith

-- A terminal Operation has the same status and the same completion time after any calls that
-- succeed.
pub terminal_outcome_stays :
    {o p : Operation}
    → terminal o.snapshot.status ≡ true
    → Run o p
    → (p.snapshot.status ≡ o.snapshot.status) × (p.snapshot.completed_at ≡ o.snapshot.completed_at)
terminal_outcome_stays h here = (refl, refl)
terminal_outcome_stays {o} h (next c {p} {q} r e) =
    let same = terminal_outcome_stays h r in
    let step = terminal-Edge p.snapshot q.snapshot (rw same.0 h) (call_operation-Edge c p e) in
    (step.0 ∙ same.0, step.1 ∙ same.1)

-- An Operation with a Restate invocation has the same one after any calls that succeed.
pub first_invocation_stays :
    {o p : Operation} (i : String)
    → o.snapshot.restate_invocation_id ≡ some i
    → Run o p
    → p.snapshot.restate_invocation_id ≡ some i
first_invocation_stays i h here = h
first_invocation_stays i h (next c {p} {q} r e) =
    let before = first_invocation_stays i h r in
    let k = call_operation-Keeps c p e in ground (arith, k.invocation)

-- A queued Operation with no other invocation, given an invocation that is not empty and times not
-- before its creation, runs through: the invocation is recorded, it starts, and it succeeds with
-- the time of its completion.
pub workflow_succeeds :
    (o : Operation) (i : String) (began ended : Time)
    → o.snapshot.status ≡ queued
    → (o.snapshot.restate_invocation_id ≡ none) ⊎ (o.snapshot.restate_invocation_id ≡ some i)
    → is_empty i ≡ false
    → o.snapshot.created_at.instant ≤ began.instant
    → o.snapshot.created_at.instant ≤ ended.instant
    → (do
      recorded ← record_restate_invocation o i
      started ← start recorded began
      succeed started ended)
      ≡ ok (record {
        snapshot = record o.snapshot {
          status = succeeded;
          restate_invocation_id = some i;
          completed_at = some ended;
        };
      })
unfolding record_restate_invocation start succeed before
workflow_succeeds o i began ended q n e b f = ground (arith, same_text_iff i i)
