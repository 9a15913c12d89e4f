-- ===== src/Operation/Tests.antt =====
-- One life of an Operation, and the theorems on it.
use sshai.Base.{◌≡◌, inl, refl, some, arith, Result, ok, ◌>>=◌, true, before, is_zero}
use sshai.Operation.Model.{
  Operation, terminal, type_text, queue_operation, record_restate_invocation, start, succeed,
  OperationCall, record_invocation_call, start_call, succeed_call, call_operation,
}
use sshai.Operation.Invariant.{IsSound, requested, called, Reachable-operation-IsSound}
use sshai.Operation.Lifecycle.{
  Keeps, Edge, here, next, call_operation_follows, terminal_outcome_stays, first_invocation_stays,
  workflow_succeeds,
}
use sshai.Samples.{
  at, create_request, queued_operation, recorded_operation, running_operation, finished_operation,
}

-- What a run of the calls computes with.
run_call : OperationCall → Operation → Result Operation
unfolding call_operation queue_operation record_restate_invocation start succeed terminal type_text
    before is_zero
run_call = call_operation

queue_test : queue_operation create_request ≡ ok queued_operation
unfolding run_call
queue_test = refl

record_test :
    call_operation (record_invocation_call "inv-1") queued_operation ≡ ok recorded_operation
unfolding run_call
record_test = refl

start_test : call_operation (start_call (at 40)) recorded_operation ≡ ok running_operation
unfolding run_call
start_test = refl

succeed_test : call_operation (succeed_call (at 40)) running_operation ≡ ok finished_operation
unfolding run_call
succeed_test = refl

again_test : call_operation (succeed_call (at 50)) finished_operation ≡ ok finished_operation
unfolding run_call
again_test = refl

finished-terminal : terminal finished_operation.snapshot.status ≡ true
unfolding terminal
finished-terminal = refl

Reachable-operation-IsSound_example : IsSound recorded_operation.snapshot
Reachable-operation-IsSound_example =
    Reachable-operation-IsSound
      (called (record_invocation_call "inv-1") (requested create_request queue_test) record_test)

call_operation_follows_example :
    Keeps running_operation.snapshot finished_operation.snapshot
    × Edge running_operation.snapshot finished_operation.snapshot
call_operation_follows_example =
    call_operation_follows (succeed_call (at 40)) running_operation succeed_test

terminal_outcome_stays_example :
    (finished_operation.snapshot.status ≡ finished_operation.snapshot.status)
    × (finished_operation.snapshot.completed_at ≡ finished_operation.snapshot.completed_at)
terminal_outcome_stays_example =
    terminal_outcome_stays {o = finished_operation} finished-terminal
      (next (succeed_call (at 50)) here again_test)

first_invocation_stays_example : finished_operation.snapshot.restate_invocation_id ≡ some "inv-1"
first_invocation_stays_example =
    first_invocation_stays {o = recorded_operation} "inv-1" refl
      (next (succeed_call (at 40)) (next (start_call (at 40)) here start_test) succeed_test)

workflow_succeeds_example :
    (do
      recorded ← record_restate_invocation queued_operation "inv-1"
      started ← start recorded (at 40)
      succeed started (at 40))
    ≡ ok finished_operation
workflow_succeeds_example =
    workflow_succeeds queued_operation "inv-1" (at 40) (at 40) refl (inl refl) refl (omega arith)
      (omega arith)
