-- ===== src/Poll/Model.antt =====
-- apps/workflows/durable_deadline_poll.go: the poll that every workflow shares.
use sshai.Base.{
  ℕ, zero, suc, ◌+◌, ◌-◌, String, Bool, true, false, not, ◌||◌, Option, none, some, ℤ, below_one,
  ltb_int, ltb, max_int64, add_int64, Time, before, is_zero, to_canonical, is_empty, errors_new,
  Result, ok, err, ◌>>=◌, ◌>>◌, fail_if, if◌then◌else◌,
}

-- The durations are nanoseconds. The two functions of the configuration are parameters of the poll.
pub record DurableDeadlinePollConfig : Type 0 where
  pub started_at : Time
  pub timeout : ℤ
  pub initial_delay : ℤ
  pub max_delay : ℤ
  pub step_prefix : String
  pub read_step_prefix : String

pub record DurableDeadlinePollValue (A : Type 0) : Type 0 where
  pub value : A
  pub checked_at : Time

pub record DurableDeadlinePollRead (A : Type 0) : Type 0 where
  pub value : A
  pub use_value : Bool
  pub retryable_failure : Bool

-- `value` is there exactly when hasValue is set.
pub record DurableDeadlinePollResult (A : Type 0) : Type 0 where
  pub value : Option A
  pub started_at : Time
  pub checked_at : Time
  pub timed_out : Bool

-- t.Add(d)
abbrev pub add_duration : Time → ℤ → Time
add_duration t (ℤ.pos d) = record t { instant = t.instant + d }
add_duration t (ℤ.negsuc d) = record t { instant = t.instant - (d + 1) }

-- t.Sub(u) for a later t, which saturates.
abbrev pub sub_time : Time → Time → ℤ
sub_time t u =
    if ltb max_int64 (t.instant - u.instant) then ℤ.pos max_int64 else ℤ.pos (t.instant - u.instant)

abbrev pub min_duration : ℤ → ℤ → ℤ
min_duration d e = if ltb_int d e then d else e

-- The variables of the loop and the world.
pub record PollState (A W : Type 0) : Type 0 where
  pub result : DurableDeadlinePollResult A
  pub delay : ℤ
  pub read_immediately : Bool
  pub world : W

pub data Turned (A W : Type 0) : Type 0 where
  returned : Result (DurableDeadlinePollResult A × W) → Turned A W
  again : PollState A W → Turned A W

-- `now`, `sleep` and `read` are what the clock, restate.Sleep and the reader do in a world, each in
-- its journaled step; a `stamp` that is nil changes nothing.
module _ {A W : Type 0} (now : W → Result (Time × W)) (sleep : ℤ → W → Result W)
    (read : Time → W → Result (DurableDeadlinePollRead A × W)) (evaluate : A → Time → A × Bool)
    (stamp : A → Time → A) where
  judge : Time → Option A → Option A × Bool
  judge started none = (none, false)
  judge started (some v) = let r = evaluate v started in (some r.0, r.1)

  -- What a read changes: the result, and whether the evaluation is done.
  unfoldable pub take_read :
      DurableDeadlinePollResult A
      → DurableDeadlinePollRead A
      → Time
      → DurableDeadlinePollResult A × Bool
  unfolding judge
  take_read result r checked =
      let value = if r.use_value then some (stamp r.value checked) else result.value in
      let judged = if r.retryable_failure then (value, false) else judge result.started_at value in
      (record result { value = judged.0; checked_at = checked }, judged.1)

  -- The delay is no longer than the time that is left, unless the read is immediate.
  unfoldable pub clipped : Time → PollState A W → PollState A W
  clipped deadline s =
      if s.read_immediately
      then s
      else record s { delay = min_duration s.delay (sub_time deadline s.result.checked_at) }

  -- The sleep, unless the read is immediate, and the journaled read.
  unfoldable pub attempt : PollState A W → Result ((DurableDeadlinePollResult A × Bool) × W)
  attempt s = do
    slept ← if s.read_immediately then ok s.world else sleep s.delay s.world
    got ← read s.result.started_at slept
    time ← now got.1
    let checked = to_canonical time.0
    fail_if (is_zero checked) (errors_new "durable deadline poll read time is required")
    fail_if (before checked s.result.checked_at)
        (errors_new "durable deadline poll clock moved backwards")
    ok (take_read s.result got.0 checked, time.1)

  unfoldable pub next_delay : ℤ → PollState A W → ℤ
  next_delay max_delay s =
      if s.read_immediately then s.delay else min_duration (add_int64 s.delay s.delay) max_delay

  unfoldable pub after_attempt :
      ℤ → Time → PollState A W → Result ((DurableDeadlinePollResult A × Bool) × W) → Turned A W
  unfolding next_delay
  after_attempt max_delay deadline s (err e) = returned (err e)
  after_attempt max_delay deadline s (ok ((result, finished), w)) =
      if finished
      then returned (ok (result, w))
      else if not (before result.checked_at deadline)
      then returned (ok (record result { timed_out = true }, w))
      else again (record {
        result = result;
        delay = next_delay max_delay s;
        read_immediately = false;
        world = w;
      })

  -- One turn of the loop.
  unfoldable pub turn : ℤ → Time → PollState A W → Turned A W
  unfolding after_attempt next_delay clipped
  turn max_delay deadline s =
      if not (before s.result.checked_at deadline)
      then returned (ok (record s.result { timed_out = true }, s.world))
      else let s' = clipped deadline s in after_attempt max_delay deadline s' (attempt s')

  -- What is left of the loop after a turn.
  abbrev pub proceed :
      Turned A W
      → (PollState A W → Option (Result (DurableDeadlinePollResult A × W)))
      → Option (Result (DurableDeadlinePollResult A × W))
  proceed (returned r) rest = some r
  proceed (again s) rest = rest s

  -- The loop for a number of turns; `none` when they are used up.
  unfoldable pub poll_loop :
      ℕ → ℤ → Time → PollState A W → Option (Result (DurableDeadlinePollResult A × W))
  poll_loop zero max_delay deadline s = none
  poll_loop (suc fuel) max_delay deadline s =
      proceed (turn max_delay deadline s) (λ s'. poll_loop fuel max_delay deadline s')

  -- time.Now at the start, unless the configuration has the time.
  abbrev pub start_time : Time → W → Result (Time × W)
  start_time t w =
      if is_zero t then (do time ← now w; ok (to_canonical time.0, time.1)) else ok (t, w)

  -- The state that the loop begins with, or the result that the initial value already is.
  unfoldable pub first_state :
      DurableDeadlinePollConfig
      → Option (DurableDeadlinePollValue A)
      → Time
      → W
      → Result (Turned A W)
  first_state config none started w = ok (
      again (record {
        result = record {
          value = none;
          started_at = started;
          checked_at = started;
          timed_out = false;
        };
        delay = config.initial_delay;
        read_immediately = true;
        world = w;
      }))
  first_state config (some initial) started w = do
    fail_if (is_zero initial.checked_at)
        (errors_new "durable deadline poll initial observation time is required")
    let judged = evaluate initial.value started
    let result : DurableDeadlinePollResult A = record {
      value = some judged.0;
      started_at = started;
      checked_at = initial.checked_at;
      timed_out = false;
    }
    ok (
        if judged.1
        then returned (ok (result, w))
        else again (record {
          result = result;
          delay = config.initial_delay;
          read_immediately = false;
          world = w;
        }))

  -- Up to the loop: the deadline, and the state that the loop begins with or what is returned.
  unfoldable pub begin_poll :
      DurableDeadlinePollConfig
      → Option (DurableDeadlinePollValue A)
      → W
      → Result (Time × Turned A W)
  unfolding first_state
  begin_poll config initial w = do
    fail_if
        (below_one config.timeout
          || below_one config.initial_delay
          || below_one config.max_delay
          || is_empty config.step_prefix
          || is_empty config.read_step_prefix)
        (errors_new "durable deadline poll is not configured")
    started ← start_time config.started_at w
    fail_if (is_zero started.0) (errors_new "durable deadline poll start time is required")
    outcome ← first_state config initial started.0 started.1
    ok (add_duration started.0 config.timeout, outcome)

  abbrev pub finish_poll :
      ℕ → ℤ → Result (Time × Turned A W) → Option (Result (DurableDeadlinePollResult A × W))
  finish_poll fuel max_delay (err e) = some (err e)
  finish_poll fuel max_delay (ok (deadline, outcome)) =
      proceed outcome (λ s. poll_loop fuel max_delay deadline s)

  -- The poll with the loop for a number of turns.
  unfoldable pub durable_deadline_poll :
      ℕ
      → DurableDeadlinePollConfig
      → Option (DurableDeadlinePollValue A)
      → W
      → Option (Result (DurableDeadlinePollResult A × W))
  unfolding poll_loop begin_poll
  durable_deadline_poll fuel config initial w =
      finish_poll fuel config.max_delay (begin_poll config initial w)
