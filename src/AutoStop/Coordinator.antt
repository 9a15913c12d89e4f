-- ===== src/AutoStop/Coordinator.antt =====
-- apps/workflows/auto_stop_coordinator.go: the timers of an Environment's automatic stop.
use sshai.Base.{
  ℕ, ◌+◌, ◌*◌, String, ◌<>◌, Bool, true, false, not, ◌&&◌, ◌||◌, Option, none, some, List, [], ◌∷◌,
  ℤ, same_int, ◌==◌, ltb, inc_uint64, Time, is_zero, zero_time, is_empty, same_text, show,
  errors_new, Result, ok, err, ◌>>=◌, ◌>>◌, fail_if, if◌then◌else◌,
}
use sshai.AutoStop.Policy.{
  AutoStopMode, when_disconnected, when_agents_finish, when_fully_idle, manual, unknown_mode,
  AutoStopPolicySnapshot, AutoStopPolicy, AutoStopConflict, AutoStopActivitySnapshot,
  AutoStopDecision, no_reason, new_auto_stop_policy, evaluate,
}

-- The generations are uint64. `grace_started_at` is the zero time when it is not set.
pub record AutoStopCoordinationState : Type 0 where
  pub environment_id : String
  pub runtime_id : String
  pub policy_id : String
  pub policy_mode : AutoStopMode
  pub policy_grace_seconds : ℤ
  pub policy_generation : ℕ
  pub timer_generation : ℕ
  pub timer_pending : Bool
  pub last_snapshot_sequence : ℕ
  pub dispatched_generation : ℕ
  pub suppressed_runtime_id : String
  pub grace_started_at : Time
  pub grace_start_snapshot : Option AutoStopActivitySnapshot

pub record AutoStopObservation : Type 0 where
  pub runtime_id : String
  pub policy : AutoStopPolicySnapshot
  pub policy_generation : ℕ
  pub fresh_after : Time
  pub processed_at : Time
  pub snapshot : Option AutoStopActivitySnapshot
  pub conflicts : List AutoStopConflict

-- `delay` is in nanoseconds.
pub record AutoStopTimer : Type 0 where
  pub runtime_id : String
  pub generation : ℕ
  pub delay : ℤ

-- `unknown_reason` is any text that is none of the five.
pub data RuntimeStopReason : Type 0 where
  manual_stop auto_stop billing repair resize : RuntimeStopReason
  unknown_reason : String → RuntimeStopReason

pub record RuntimeStopAuditEvidence : Type 0 where
  pub policy : AutoStopPolicySnapshot
  pub policy_generation : ℕ
  pub qualifying_snapshots : List AutoStopActivitySnapshot
  pub grace_started_at : Time
  pub grace_expired_at : Time
  pub grace_period_seconds : ℤ

pub record RuntimeStopRequest : Type 0 where
  pub environment_id : String
  pub runtime_id : String
  pub reason : RuntimeStopReason
  pub idempotency_key : String
  pub audit_evidence : Option RuntimeStopAuditEvidence

pub record AutoStopTransition : Type 0 where
  pub state : AutoStopCoordinationState
  pub decision : AutoStopDecision
  pub timer : Option AutoStopTimer
  pub stop : Option RuntimeStopRequest
  pub cancelled : Bool

pub record AutoStopExpiry : Type 0 where
  pub runtime_id : String
  pub generation : ℕ
  pub observation : AutoStopObservation

abbrev pub no_decision : AutoStopDecision
no_decision = record { qualifies = false; reason = no_reason; snapshot_sequence = 0 }

-- AutoStopTransition{State: state, Cancelled: cancelled}
abbrev pub keeps : AutoStopCoordinationState → Bool → AutoStopTransition
keeps state cancelled = record {
  state = state;
  decision = no_decision;
  timer = none;
  stop = none;
  cancelled = cancelled;
}

-- The generation after a timer that may be pending is cancelled.
abbrev pub cancelled_generation : AutoStopCoordinationState → ℕ
cancelled_generation s =
    if s.timer_pending then inc_uint64 s.timer_generation else s.timer_generation

unfoldable pub suppress : AutoStopCoordinationState → String → Result AutoStopTransition
suppress state runtime_id = do
  fail_if (is_empty state.environment_id || is_empty runtime_id)
      (errors_new "suppress Auto-stop: Environment and Runtime are required")
  ok (
      keeps
        (record state {
          timer_generation = cancelled_generation state;
          timer_pending = false;
          grace_started_at = zero_time;
          grace_start_snapshot = none;
          suppressed_runtime_id = runtime_id;
        })
        state.timer_pending)

unfoldable pub resume : AutoStopCoordinationState → String → Result AutoStopTransition
resume state runtime_id = do
  fail_if (is_empty state.environment_id || is_empty runtime_id)
      (errors_new "resume Auto-stop: Environment and Runtime are required")
  ok (
      keeps
        (if same_text state.suppressed_runtime_id runtime_id
          then record state { suppressed_runtime_id = ""; dispatched_generation = 0 }
          else state)
        false)

unfoldable pub same_mode : AutoStopMode → AutoStopMode → Bool
same_mode when_disconnected when_disconnected = true
same_mode when_agents_finish when_agents_finish = true
same_mode when_fully_idle when_fully_idle = true
same_mode manual manual = true
same_mode (unknown_mode s) (unknown_mode t) = same_text s t
same_mode _ _ = false

unfoldable pub coordination_changed : AutoStopCoordinationState → AutoStopObservation → Bool
coordination_changed s o =
    not (same_text s.runtime_id o.runtime_id)
    || not (same_text s.policy_id o.policy.id)
    || not (same_mode s.policy_mode o.policy.mode)
    || not (same_int s.policy_grace_seconds o.policy.grace_period_seconds)
    || not (s.policy_generation == o.policy_generation)

unfoldable pub restore_auto_stop_policy : String → AutoStopObservation → Result AutoStopPolicy
restore_auto_stop_policy environment_id o = do
  fail_if (is_empty environment_id || is_empty o.runtime_id || o.policy_generation == 0)
      (errors_new "coordinate Auto-stop: Environment, Runtime, and policy generation are required")
  fail_if (not (same_text o.policy.environment_id environment_id))
      (errors_new "coordinate Auto-stop: Policy belongs to another Environment")
  new_auto_stop_policy o.policy.id o.policy.environment_id o.policy.mode
      o.policy.grace_period_seconds

unfoldable pub evaluate_auto_stop :
    AutoStopCoordinationState → AutoStopObservation → Result AutoStopDecision
evaluate_auto_stop state o = do
  policy ← restore_auto_stop_policy state.environment_id o
  evaluate policy (record {
    runtime_id = o.runtime_id;
    previous_snapshot_sequence = state.last_snapshot_sequence;
    fresh_after = o.fresh_after;
    snapshot = o.snapshot;
    conflicts = o.conflicts;
  })

-- The state in which the Runtime, the policy or its generation is another.
unfoldable pub rebased : AutoStopCoordinationState → AutoStopObservation → AutoStopCoordinationState
rebased state o = record state {
  timer_generation = cancelled_generation state;
  runtime_id = o.runtime_id;
  policy_id = o.policy.id;
  policy_mode = o.policy.mode;
  policy_grace_seconds = o.policy.grace_period_seconds;
  policy_generation = o.policy_generation;
  timer_pending = false;
  last_snapshot_sequence = 0;
  dispatched_generation = 0;
  grace_started_at = zero_time;
  grace_start_snapshot = none;
  suppressed_runtime_id =
      if same_text state.runtime_id o.runtime_id then state.suppressed_runtime_id else "";
}

-- A pending timer is cancelled.
unfoldable pub without_timer : AutoStopCoordinationState → AutoStopCoordinationState
without_timer s = record s {
  timer_generation = inc_uint64 s.timer_generation;
  timer_pending = false;
  grace_started_at = zero_time;
  grace_start_snapshot = none;
}

-- The state with the sequence number of the decision.
unfoldable pub seen : AutoStopCoordinationState → AutoStopDecision → AutoStopCoordinationState
seen s d = record s {
  last_snapshot_sequence =
      if ltb s.last_snapshot_sequence d.snapshot_sequence
      then d.snapshot_sequence
      else s.last_snapshot_sequence;
}

-- time.Duration(seconds) * time.Second
abbrev pub nanoseconds : ℤ → ℤ
nanoseconds (ℤ.pos n) = ℤ.pos (n * 1000000000)
nanoseconds (ℤ.negsuc n) = ℤ.negsuc (n * 1000000000 + 999999999)

abbrev pub timer_of : AutoStopCoordinationState → AutoStopObservation → AutoStopTimer
timer_of s o = record {
  runtime_id = o.runtime_id;
  generation = s.timer_generation;
  delay = nanoseconds o.policy.grace_period_seconds;
}

-- A timer starts, with the snapshot that qualified.
unfoldable pub start_timer :
    AutoStopCoordinationState
    → AutoStopObservation
    → AutoStopDecision
    → Bool
    → Option AutoStopActivitySnapshot
    → Result AutoStopTransition
start_timer s o decision cancelled none =
    let next = record s {
      timer_generation = inc_uint64 s.timer_generation;
      timer_pending = true;
    } in
    ok (record {
      state = next;
      decision = decision;
      timer = some (timer_of next o);
      stop = none;
      cancelled = cancelled;
    })
start_timer s o decision cancelled (some snapshot) = do
  let next = record s {
    timer_generation = inc_uint64 s.timer_generation;
    timer_pending = true;
    grace_started_at = o.processed_at;
    grace_start_snapshot = some snapshot;
  }
  fail_if (is_zero o.processed_at) (errors_new "coordinate Auto-stop: processing time is required")
  ok (record {
    state = next;
    decision = decision;
    timer = some (timer_of next o);
    stop = none;
    cancelled = cancelled;
  })

-- From the decision on.
unfoldable pub observe_decided :
    AutoStopCoordinationState
    → AutoStopObservation
    → Bool
    → AutoStopDecision
    → Result AutoStopTransition
unfolding start_timer
observe_decided s o cancelled decision =
    if not decision.qualifies
    then ok
        (record (keeps (if s.timer_pending then without_timer s else s)
          (cancelled || s.timer_pending)) { decision = decision })
    else if s.timer_pending
        || (not (s.dispatched_generation == 0) && s.dispatched_generation == s.timer_generation)
    then ok (record (keeps s cancelled) { decision = decision })
    else start_timer s o decision cancelled o.snapshot

-- From the test of the suppressed Runtime on.
unfoldable pub observe_current :
    AutoStopCoordinationState → AutoStopObservation → Bool → Result AutoStopTransition
unfolding observe_decided
observe_current s o cancelled =
    if same_text s.suppressed_runtime_id o.runtime_id
    then ok (keeps (if s.timer_pending then without_timer s else s) (cancelled || s.timer_pending))
    else (do
      decision ← evaluate_auto_stop s o
      observe_decided (seen s decision) o cancelled decision)

unfoldable pub observe : AutoStopCoordinationState → AutoStopObservation → Result AutoStopTransition
unfolding observe_current
observe state o = do
  policy ← restore_auto_stop_policy state.environment_id o
  if coordination_changed state o
      then observe_current (rebased state o) o state.timer_pending
      else observe_current state o false

unfoldable pub stop_key : String → String → ℕ → String
stop_key environment_id runtime_id generation =
    "system:"
    <> "runtime.stop:"
    <> "auto_stop"
    <> ":"
    <> environment_id
    <> ":"
    <> runtime_id
    <> ":"
    <> show generation

-- The request with the snapshots at the start and at the end of the grace period.
unfoldable pub stop_request :
    AutoStopCoordinationState
    → AutoStopExpiry
    → AutoStopActivitySnapshot
    → AutoStopActivitySnapshot
    → RuntimeStopRequest
stop_request state e grace_start grace_expiry = record {
  environment_id = state.environment_id;
  runtime_id = state.runtime_id;
  reason = auto_stop;
  idempotency_key = stop_key state.environment_id state.runtime_id e.generation;
  audit_evidence = some (record {
    policy = e.observation.policy;
    policy_generation = e.observation.policy_generation;
    qualifying_snapshots = grace_start ∷ grace_expiry ∷ [];
    grace_started_at = state.grace_started_at;
    grace_expired_at = grace_expiry.observed_at;
    grace_period_seconds = state.policy_grace_seconds;
  });
}

-- From the test of the evidence on; `next` has no pending timer.
expire_qualified :
    AutoStopCoordinationState
    → AutoStopExpiry
    → AutoStopCoordinationState
    → AutoStopDecision
    → Option AutoStopActivitySnapshot
    → Option AutoStopActivitySnapshot
    → Result AutoStopTransition
expire_qualified state e next decision (some grace_start) (some grace_expiry) =
    if is_zero state.grace_started_at
    then err (errors_new "coordinate Auto-stop: qualifying grace evidence is required")
    else ok (record {
      state = record next { dispatched_generation = e.generation };
      decision = decision;
      timer = none;
      stop = some (stop_request state e grace_start grace_expiry);
      cancelled = false;
    })
expire_qualified state e next decision _ _ =
    err (errors_new "coordinate Auto-stop: qualifying grace evidence is required")

unfoldable pub expire_decided :
    AutoStopCoordinationState → AutoStopExpiry → AutoStopDecision → Result AutoStopTransition
unfolding expire_qualified
expire_decided state e decision =
    let next = seen (record state { timer_pending = false }) decision in
    if not decision.qualifies
    then ok
        (record (keeps (record next { grace_started_at = zero_time; grace_start_snapshot = none })
          false) { decision = decision })
    else expire_qualified state e next decision state.grace_start_snapshot e.observation.snapshot

-- transition.Cancelled = true
abbrev pub cancelling : Result AutoStopTransition → Result AutoStopTransition
cancelling (ok t) = ok (record t { cancelled = true })
cancelling (err e) = err e

unfoldable pub expire : AutoStopCoordinationState → AutoStopExpiry → Result AutoStopTransition
unfolding expire_decided
expire state e =
    if not state.timer_pending
      || not (e.generation == state.timer_generation)
      || not (same_text e.runtime_id state.runtime_id)
    then ok (keeps state false)
    else if coordination_changed state e.observation
    then cancelling (observe state e.observation)
    else (do decision ← evaluate_auto_stop state e.observation; expire_decided state e decision)
