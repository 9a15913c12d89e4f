-- ===== src/AutoStop/Tests.antt =====
-- Two rounds of an automatic stop, and a suppressed one.
use sshai.Base.{
  ◌+◌, ℕ, true, false, none, some, [], ◌≡◌, ◌≢◌, ◌⊎◌, refl, arith, ℤ, is_zero, before, inc_uint64,
  show, Result, ok, zero_time,
}
use sshai.AutoStop.Policy.{
  new_auto_stop_policy, validate_auto_stop_activity, validate_conflicts, is_idle, evaluate,
}
use sshai.AutoStop.Qualifies.{qualified}
use sshai.AutoStop.Coordinator.{
  RuntimeStopRequest, AutoStopCoordinationState, AutoStopObservation, AutoStopTimer,
  AutoStopTransition, keeps, suppress, resume, same_mode, coordination_changed,
  restore_auto_stop_policy, evaluate_auto_stop, rebased, without_timer, seen, start_timer,
  observe_decided, observe_current, observe, stop_key, stop_request, expire_decided, expire,
}
use sshai.AutoStop.Object.{
  current_auto_stop_timer, abandon_auto_stop_runtime, dispatched, refresh, expire_timer,
  initial_state, Message, suppress_message, resume_message, observe_message, expire_message, handle,
}
use sshai.AutoStop.Timers.{IsCoherent}
use sshai.AutoStop.Invariant.{Reachable, initial, handled, Reachable-timer-IsCoherent}
use sshai.AutoStop.Stops.{IsJustified, handle_stop-IsJustified}
use sshai.AutoStop.Runs.{Run, here, next, stops-distinct}
use sshai.AutoStop.Suppressed.{IsSuppressed, message_leaves_runtime}
use sshai.Samples.{at, stop_policy, quiet}

-- What a run of the messages computes with.
run_handle : Message → AutoStopCoordinationState → Result AutoStopTransition
unfolding handle suppress resume same_mode coordination_changed restore_auto_stop_policy
    evaluate_auto_stop rebased without_timer seen start_timer observe_decided observe_current
    observe stop_key stop_request expire_decided expire current_auto_stop_timer
    abandon_auto_stop_runtime refresh expire_timer new_auto_stop_policy validate_auto_stop_activity
    validate_conflicts is_idle evaluate is_zero before inc_uint64 show
run_handle = handle

abbrev observation : ℕ → ℕ → AutoStopObservation
observation sequence now = record {
  runtime_id = "rt-1";
  policy = stop_policy.snapshot;
  policy_generation = 1;
  fresh_after = at now;
  processed_at = at now;
  snapshot = some (record quiet { sequence = sequence; observed_at = at now });
  conflicts = [];
}

abbrev timer : ℕ → AutoStopTimer
timer generation = record {
  runtime_id = "rt-1";
  generation = generation;
  delay = ℤ.pos 600000000000;
}

-- The state in which the timer of a generation is pending since a time.
abbrev waiting : ℕ → ℕ → ℕ → AutoStopCoordinationState
waiting generation sequence now = record {
  environment_id = "env-1";
  runtime_id = "rt-1";
  policy_id = "policy-1";
  policy_mode = stop_policy.snapshot.mode;
  policy_grace_seconds = ℤ.pos 600;
  policy_generation = 1;
  timer_generation = generation;
  timer_pending = true;
  last_snapshot_sequence = sequence;
  dispatched_generation = 0;
  suppressed_runtime_id = "";
  grace_started_at = at now;
  grace_start_snapshot = some (record quiet { sequence = sequence; observed_at = at now });
}

abbrev started : ℕ → ℕ → ℕ → AutoStopTransition
started generation sequence now = record (keeps (waiting generation sequence now) false) {
  decision = qualified sequence;
  timer = some (timer generation);
}

abbrev stopped : ℕ → ℕ → ℕ → ℕ → AutoStopTransition
stopped generation sequence now later = record {
  state = record (waiting generation sequence now) {
    timer_pending = false;
    last_snapshot_sequence = sequence + 1;
    dispatched_generation = generation;
  };
  decision = qualified (sequence + 1);
  timer = none;
  stop = some (
      stop_request (waiting generation sequence now)
        (record {
          runtime_id = "rt-1";
          generation = generation;
          observation = observation (sequence + 1) later;
        })
        (record quiet { sequence = sequence; observed_at = at now })
        (record quiet { sequence = sequence + 1; observed_at = at later }));
  cancelled = false;
}

abbrev expiry : ℕ → ℕ → ℕ → Message
expiry generation sequence now =
    expire_message (timer generation) (some (observation sequence now)) dispatched

abbrev idle_state : AutoStopCoordinationState
idle_state = (stopped 1 1 100 700).state

abbrev suppressed_transition : AutoStopTransition
suppressed_transition =
    keeps
      (record idle_state {
        suppressed_runtime_id = "rt-1";
        grace_started_at = zero_time;
        grace_start_snapshot = none;
      })
      false

abbrev resumed_transition : AutoStopTransition
resumed_transition =
    keeps
      (record suppressed_transition.state { suppressed_runtime_id = ""; dispatched_generation = 0 })
      false

start_test :
    handle (observe_message (observation 1 100)) (initial_state "env-1") ≡ ok (started 1 1 100)
unfolding run_handle
start_test = refl

stop_test : handle (expiry 1 2 700) (waiting 1 1 100) ≡ ok (stopped 1 1 100 700)
unfolding run_handle
stop_test = refl

suppress_test : handle (suppress_message "rt-1") idle_state ≡ ok suppressed_transition
unfolding run_handle
suppress_test = refl

ignored_test :
    handle (observe_message (observation 3 800)) suppressed_transition.state
    ≡ ok (keeps suppressed_transition.state false)
unfolding run_handle
ignored_test = refl

resume_test : handle (resume_message "rt-1") suppressed_transition.state ≡ ok resumed_transition
unfolding run_handle
resume_test = refl

again_test :
    handle (observe_message (observation 3 900)) resumed_transition.state ≡ ok (started 2 3 900)
unfolding run_handle
again_test = refl

stop_again_test : handle (expiry 2 4 1600) (waiting 2 3 900) ≡ ok (stopped 2 3 900 1600)
unfolding run_handle
stop_again_test = refl

waiting_reached : Reachable "env-1" (waiting 1 1 100)
waiting_reached = handled (observe_message (observation 1 100)) initial start_test

suppressed_reached : Reachable "env-1" suppressed_transition.state
suppressed_reached =
    handled (suppress_message "rt-1") (handled (expiry 1 2 700) waiting_reached stop_test)
      suppress_test

Reachable-timer-IsCoherent_example : IsCoherent (waiting 1 1 100)
Reachable-timer-IsCoherent_example = Reachable-timer-IsCoherent waiting_reached

-- The two requests, by their evidence.
abbrev request : ℕ → ℕ → ℕ → ℕ → RuntimeStopRequest
request generation sequence now later =
    stop_request (waiting generation sequence now)
      (record {
        runtime_id = "rt-1";
        generation = generation;
        observation = observation (sequence + 1) later;
      })
      (record quiet { sequence = sequence; observed_at = at now })
      (record quiet { sequence = sequence + 1; observed_at = at later })

handle_stop-IsJustified_example : IsJustified (waiting 1 1 100) (request 1 1 100 700)
handle_stop-IsJustified_example =
    handle_stop-IsJustified waiting_reached (expiry 1 2 700) (stopped 1 1 100 700)
      (request 1 1 100 700) stop_test refl

between : Run idle_state (waiting 2 3 900)
between = next (suppress_message "rt-1") suppressed_transition (ground arith) suppress_test (
    next (resume_message "rt-1") resumed_transition (ground arith) resume_test
      (next (observe_message (observation 3 900)) (started 2 3 900) (ground arith) again_test here))

stops-distinct_example :
    (request 1 1 100 700).idempotency_key ≢ (request 2 3 900 1600).idempotency_key
stops-distinct_example =
    stops-distinct (waiting 1 1 100) (waiting 2 3 900) (expiry 1 2 700) (expiry 2 4 1600)
      (stopped 1 1 100 700) (stopped 2 3 900 1600) (request 1 1 100 700) (request 2 3 900 1600)
      stop_test refl between stop_again_test refl (unfold stop_request in refl)

message_leaves_runtime_example :
    ((keeps suppressed_transition.state false).stop ≡ none)
    × ((((keeps suppressed_transition.state false).timer ≡ none)
          × IsSuppressed suppressed_transition.state "rt-1")
        ⊎ (suppressed_transition.state.runtime_id ≢ "rt-1"))
message_leaves_runtime_example =
    message_leaves_runtime suppressed_reached "rt-1" (observe_message (observation 3 800))
      (keeps suppressed_transition.state false) refl (refl, refl) tt ignored_test
