-- ===== src/Poll/Ends.antt =====
-- apps/workflows/durable_deadline_poll.go: the whole poll ends.
use sshai.Base.{
  ap, ℕ, ◌+◌, ◌-◌, ◌≤◌, Bool, false, Option, none, some, ◌≡◌, ◌||◌, inl, inr, refl, arith,
  Bool-cases, ℤ, below_one, Time, is_zero, to_canonical, is_empty, Result, ok, err, bind_ok,
  if◌then◌else◌,
}
use sshai.Poll.Model.{
  DurableDeadlinePollConfig, DurableDeadlinePollRead, DurableDeadlinePollResult,
  DurableDeadlinePollValue, PollState, Turned, returned, again, first_state, begin_poll,
  finish_poll, durable_deadline_poll, start_time,
}
use sshai.Poll.Terminates.{IsDelay, IsRunning, poll_loop-ends}

-- A duration below 2^62 nanoseconds.
abbrev pub Fits : ℤ → Type 0
Fits (ℤ.pos d) = d ≤ 4611686018427387903
Fits (ℤ.negsuc d) = Unit {0}

below_one-IsDelay : (d : ℤ) → Fits d → below_one d ≡ false → IsDelay d
below_one-IsDelay (ℤ.pos d) f p = ground (arith, f, p)
below_one-IsDelay (ℤ.negsuc d) f p = absurd (ground (arith, p))

-- The initial observation is not after the time.
abbrev pub CheckedBefore : {A : Type 0} → Option (DurableDeadlinePollValue A) → ℕ → Type 0
CheckedBefore none n = Unit {0}
CheckedBefore (some v) n = v.checked_at.instant ≤ n

module _ {A W : Type 0} (now : W → Result (Time × W)) (sleep : ℤ → W → Result W)
    (read : Time → W → Result (DurableDeadlinePollRead A × W)) (evaluate : A → Time → A × Bool)
    (stamp : A → Time → A) (clock : W → ℕ)
    (now_reads : (w w' : W) (t : Time)
      → now w ≡ ok (t, w')
      → (clock w ≤ t.instant) × (t.instant ≤ clock w'))
    (sleep_lasts : (d : ℕ) (w w' : W) → sleep (ℤ.pos d) w ≡ ok w' → clock w + d ≤ clock w')
    (read_follows : (t : Time) (w w' : W) (r : DurableDeadlinePollRead A)
      → read t w ≡ ok (r, w')
      → clock w ≤ clock w') where
  start_time-clock :
      (given : Time) (w w' : W) (t : Time)
      → given.instant ≤ clock w
      → start_time now sleep read evaluate stamp given w ≡ ok (t, w')
      → (t.instant ≤ clock w') × (clock w ≤ clock w')
  unfolding to_canonical
  start_time-clock given w w' t before h = elim (Bool-cases (is_zero given)) [
    | inl absent ↦
        let (time, h1, r) = bind_ok (now w) _ (rw absent at h) in
        let (a, b) = now_reads w time.1 time.0 h1 in
        let f : t.instant ≡ time.0.instant = ground (arith, r) in
        let g : w' ≡ time.1 = ground (arith, r) in
        (ground (arith, b, f, ap clock g), ground (arith, a, b, ap clock g))
    | inr present ↦
        let f : t ≡ given = ground (arith, h, present) in
        let g : w' ≡ w = ground (arith, h, present) in (rw (f, g) before, rw g (ground arith))
  ]

  first_state-IsRunning :
      (config : DurableDeadlinePollConfig) (initial : Option (DurableDeadlinePollValue A))
      (started : Time) (w : W) (s : PollState A W)
      → IsDelay config.initial_delay
      → started.instant ≤ clock w
      → CheckedBefore initial (clock w)
      → first_state now sleep read evaluate stamp config initial started w ≡ ok (again s)
      → IsRunning now sleep read evaluate stamp clock now_reads sleep_lasts read_follows s
  unfolding first_state
  first_state-IsRunning config none started w s d b c h =
      let delay : s.delay ≡ config.initial_delay = ground (arith, h) in
      let checked : s.result.checked_at ≡ started = ground (arith, h) in
      let world : s.world ≡ w = ground (arith, h) in
      record { delay = rw delay d; clock_after = rw (checked, world) b }
  first_state-IsRunning config (some v) started w s d b c h =
      let delay : s.delay ≡ config.initial_delay = ground (arith, h) in
      let checked : s.result.checked_at ≡ v.checked_at = ground (arith, h) in
      let world : s.world ≡ w = ground (arith, h) in
      record { delay = rw delay d; clock_after = rw (checked, world) c }

  -- The nanoseconds up to the deadline and two turns more.
  abbrev pub turns_needed : Result (Time × Turned A W) → ℕ
  turns_needed (err e) = 0
  turns_needed (ok (deadline, returned r)) = 0
  turns_needed (ok (deadline, again s)) =
      (deadline.instant - s.result.checked_at.instant) + (if s.read_immediately then 1 else 0) + 1

  begin_poll-IsRunning :
      (config : DurableDeadlinePollConfig) (initial : Option (DurableDeadlinePollValue A)) (w : W)
      (deadline : Time) (s : PollState A W)
      → Fits config.initial_delay
      → Fits config.max_delay
      → config.started_at.instant ≤ clock w
      → CheckedBefore initial (clock w)
      → begin_poll now sleep read evaluate stamp config initial w ≡ ok (deadline, again s)
      → IsDelay config.max_delay
        × IsRunning now sleep read evaluate stamp clock now_reads sleep_lasts read_follows s
  unfolding begin_poll
  begin_poll-IsRunning config initial w deadline s f g b c h =
      let first : below_one config.initial_delay ≡ false = ground (arith, h) in
      let most : below_one config.max_delay ≡ false = ground (arith, h) in
      let tested : (below_one config.timeout
            || below_one config.initial_delay
            || below_one config.max_delay
            || is_empty config.step_prefix
            || is_empty config.read_step_prefix)
          ≡ false =
        ground (arith, h) in
      let (started, h1, r1) =
        bind_ok (start_time now sleep read evaluate stamp config.started_at w) _ (rw tested at h) in
      let (x, y) = start_time-clock config.started_at w started.1 started.0 b h1 in
      let set : is_zero started.0 ≡ false = ground (arith, r1) in
      let (outcome, h2, r2) =
        bind_ok (first_state now sleep read evaluate stamp config initial started.0 started.1) _
          (rw set at r1) in
      let same : outcome ≡ again s = ground (arith, r2) in
      (
        below_one-IsDelay config.max_delay g most,
        first_state-IsRunning config initial started.0 started.1 s
            (below_one-IsDelay config.initial_delay f first) x (later initial c y) (rw same at h2),
      )
    where
      later :
          (v : Option (DurableDeadlinePollValue A)) {m n : ℕ}
          → CheckedBefore v m
          → m ≤ n
          → CheckedBefore v n
      later none c l = tt
      later (some v) c l = ground (arith, c, l)

  -- The poll returns within a turn for each nanosecond up to its deadline and two more, when its
  -- delays are below 2^62 nanoseconds, its start and its initial observation are not in the future,
  -- the clock does not go back, and a sleep lasts as long as it is meant to.
  pub durable_deadline_poll-ends :
      (config : DurableDeadlinePollConfig) (initial : Option (DurableDeadlinePollValue A)) (w : W)
      (fuel : ℕ)
      → Fits config.initial_delay
      → Fits config.max_delay
      → config.started_at.instant ≤ clock w
      → CheckedBefore initial (clock w)
      → turns_needed (begin_poll now sleep read evaluate stamp config initial w) ≤ fuel
      → (r : Result (DurableDeadlinePollResult A × W)) × (durable_deadline_poll now sleep read
            evaluate stamp fuel config initial w
          ≡ some r)
  unfolding durable_deadline_poll
  durable_deadline_poll-ends config initial w fuel f g b c enough =
      go (begin_poll now sleep read evaluate stamp config initial w) refl enough
    where
      go :
          (begun : Result (Time × Turned A W))
          → begin_poll now sleep read evaluate stamp config initial w ≡ begun
          → turns_needed begun ≤ fuel
          → (r : Result (DurableDeadlinePollResult A × W)) × (finish_poll now sleep read evaluate
                stamp fuel config.max_delay begun
              ≡ some r)
      go (err e) h n = (err e, refl)
      go (ok (deadline, returned r)) h n = (r, refl)
      go (ok (deadline, again s)) h n =
          let (bounded, run) = begin_poll-IsRunning config initial w deadline s f g b c h in
          poll_loop-ends now sleep read evaluate stamp clock now_reads sleep_lasts read_follows
            config.max_delay deadline bounded fuel s run (ground (arith, n))
