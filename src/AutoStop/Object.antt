-- ===== src/AutoStop/Object.antt =====
-- apps/workflows/auto_stop.go: the handlers of the virtual object that keeps an Environment's
-- coordination state. What the store answers and what became of a dispatch are arguments.
use sshai.Base.{
  ℕ, String, Bool, true, false, not, ◌&&◌, ◌||◌, Option, none, some, ℤ, ◌==◌, Time, zero_time,
  is_empty, is_some, same_text, Result, ok, ◌>>=◌, if◌then◌else◌, ltb, before, is_zero,
}
use sshai.AutoStop.Policy.{unknown_mode, AutoStopActivitySnapshot}
use sshai.AutoStop.Coordinator.{
  AutoStopCoordinationState, AutoStopObservation, AutoStopTimer, AutoStopTransition, keeps,
  cancelled_generation, suppress, resume, observe, expire,
}

pub record AutoStopRefreshRequest : Type 0 where
  pub environment_id : String
  pub runtime_id : String
  pub after_snapshot_sequence : ℕ
  pub fresh_after : Time

unfoldable pub auto_stop_snapshot_satisfies :
    Option AutoStopActivitySnapshot → AutoStopRefreshRequest → Bool
auto_stop_snapshot_satisfies none r = false
auto_stop_snapshot_satisfies (some s) r =
    (r.after_snapshot_sequence == 0 || ltb r.after_snapshot_sequence s.sequence)
    && (is_zero r.fresh_after || not (before s.observed_at r.fresh_after))

unfoldable pub current_auto_stop_timer : AutoStopCoordinationState → AutoStopTimer → Bool
current_auto_stop_timer s t =
    s.timer_pending && same_text s.runtime_id t.runtime_id && s.timer_generation == t.generation

unfoldable pub abandon_auto_stop_runtime : AutoStopCoordinationState → AutoStopTransition
abandon_auto_stop_runtime s =
    keeps
      (record s {
        timer_generation = cancelled_generation s;
        runtime_id = "";
        policy_id = "";
        policy_mode = unknown_mode "";
        policy_grace_seconds = ℤ.pos 0;
        policy_generation = 0;
        timer_pending = false;
        last_snapshot_sequence = 0;
        dispatched_generation = 0;
        suppressed_runtime_id = "";
        grace_started_at = zero_time;
        grace_start_snapshot = none;
      })
      s.timer_pending

-- The two ends of a dispatch that leave no stop behind, and the one that does.
pub data DispatchDisposition : Type 0 where
  dispatched idempotency_conflict reference_unavailable : DispatchDisposition

-- The dispatch cycle ended with no stop.
abbrev pub end_dispatch : AutoStopTransition → AutoStopTransition
end_dispatch t = record t {
  stop = none;
  cancelled = true;
  state = record t.state {
    timer_pending = false;
    dispatched_generation = 0;
    grace_started_at = zero_time;
    grace_start_snapshot = none;
  };
}

after_dispatch : DispatchDisposition → AutoStopTransition → AutoStopTransition
after_dispatch dispatched t = t
after_dispatch idempotency_conflict t = if is_some t.stop then end_dispatch t else t
after_dispatch reference_unavailable t = if is_some t.stop then end_dispatch t else t

-- The observation that the store answers with; `none` is a Runtime that is not the owner's any more.
refresh_read : AutoStopCoordinationState → Option AutoStopObservation → Result AutoStopTransition
refresh_read state none = ok (abandon_auto_stop_runtime state)
refresh_read state (some o) = observe state o

-- Refresh: a state with no Runtime is left as it is.
unfoldable pub refresh :
    AutoStopCoordinationState → Option AutoStopObservation → Result AutoStopTransition
unfolding refresh_read
refresh state read =
    if is_empty state.runtime_id then ok (keeps state false) else refresh_read state read

expire_read :
    AutoStopCoordinationState
    → AutoStopTimer
    → Option AutoStopObservation
    → DispatchDisposition
    → Result AutoStopTransition
expire_read state t none disposition = ok (abandon_auto_stop_runtime state)
expire_read state t (some o) disposition = do
  transition ←
      expire state
        (record { runtime_id = t.runtime_id; generation = t.generation; observation = o })
  ok (after_dispatch disposition transition)

-- Expire of the object.
unfoldable pub expire_timer :
    AutoStopCoordinationState
    → AutoStopTimer
    → Option AutoStopObservation
    → DispatchDisposition
    → Result AutoStopTransition
unfolding expire_read after_dispatch
expire_timer state t read disposition =
    if not (current_auto_stop_timer state t)
    then ok (keeps state false)
    else expire_read state t read disposition

-- The state that the object of an Environment starts from.
abbrev pub initial_state : String → AutoStopCoordinationState
initial_state key = record {
  environment_id = key;
  runtime_id = "";
  policy_id = "";
  policy_mode = unknown_mode "";
  policy_grace_seconds = ℤ.pos 0;
  policy_generation = 0;
  timer_generation = 0;
  timer_pending = false;
  last_snapshot_sequence = 0;
  dispatched_generation = 0;
  suppressed_runtime_id = "";
  grace_started_at = zero_time;
  grace_start_snapshot = none;
}

-- One message to the object. A read or a dispatch that fails ends the handler with the state as it
-- was, and is no message here.
pub data Message : Type 0 where
  suppress_message resume_message : String → Message
  observe_message : AutoStopObservation → Message
  refresh_message : Option AutoStopObservation → Message
  expire_message : AutoStopTimer → Option AutoStopObservation → DispatchDisposition → Message

unfoldable pub handle : Message → AutoStopCoordinationState → Result AutoStopTransition
handle (suppress_message runtime_id) s = suppress s runtime_id
handle (resume_message runtime_id) s = resume s runtime_id
handle (observe_message o) s = observe s o
handle (refresh_message read) s = refresh s read
handle (expire_message t read disposition) s = expire_timer s t read disposition
