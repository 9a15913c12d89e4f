-- ===== src/Poll/Terminates.antt =====
-- apps/workflows/durable_deadline_poll.go: the poll ends.
use sshai.Base.{
  ◌∙◌, ℕ, ltb, zero, suc, ◌+◌, ◌-◌, ◌≤◌, ◌<◌, Bool, true, false, some, ◌≡◌, inl, inr, refl, sym,
  arith, Bool-cases, ℤ, add_int64, Time, before, to_canonical, Result, ok, err, bind_ok,
  if◌then◌else◌,
}
use sshai.Poll.Model.{
  DurableDeadlinePollRead, DurableDeadlinePollResult, PollState, Turned, returned, again, sub_time,
  min_duration, take_read, clipped, attempt, after_attempt, next_delay, turn, poll_loop, proceed,
}

-- The delays for which doubling does not overflow.
abbrev pub IsDelay : ℤ → Type 0
IsDelay (ℤ.pos d) = (1 ≤ d) × (d ≤ 4611686018427387903)
IsDelay (ℤ.negsuc d) = ⊥

double-IsDelay :
    (d max_delay : ℤ)
    → IsDelay d
    → IsDelay max_delay
    → IsDelay (min_duration (add_int64 d d) max_delay)
unfolding add_int64
double-IsDelay (ℤ.pos d) (ℤ.pos m) w v = ground (arith, w, v)
double-IsDelay (ℤ.negsuc d) m w v = absurd w
double-IsDelay (ℤ.pos d) (ℤ.negsuc m) w v = absurd v

clip-IsDelay :
    (d : ℤ) (deadline checked : Time)
    → IsDelay d
    → checked.instant < deadline.instant
    → IsDelay (min_duration d (sub_time deadline checked))
clip-IsDelay (ℤ.negsuc d) deadline checked w early = absurd w
clip-IsDelay (ℤ.pos d) deadline checked w early = ground (arith, w, early)

fewer :
    {A W : Type 0} (s s' : PollState A W) (deadline fuel : ℕ)
    → s.result.checked_at.instant < deadline
    → s'.read_immediately ≡ false
    → s.result.checked_at.instant ≤ s'.result.checked_at.instant
    → (s.read_immediately ≡ false → s.result.checked_at.instant < s'.result.checked_at.instant)
    → (deadline - s.result.checked_at.instant) + (if s.read_immediately then 1 else 0) < suc fuel
    → (deadline - s'.result.checked_at.instant) + (if s'.read_immediately then 1 else 0) < fuel
fewer s s' deadline fuel first later b c h = ground (arith, first, later, b, c, h)

-- The clock of a world does not go back, a sleep lasts as long as it is meant to, and the time that
-- is read is one that the clock shows.
module _ {A W : Type 0} (now : W → Result (Time × W)) (sleep : ℤ → W → Result W)
    (read : Time → W → Result (DurableDeadlinePollRead A × W)) (evaluate : A → Time → A × Bool)
    (stamp : A → Time → A) (clock : W → ℕ)
    (now_reads : (w w' : W) (t : Time)
      → now w ≡ ok (t, w')
      → (clock w ≤ t.instant) × (t.instant ≤ clock w'))
    (sleep_lasts : (d : ℕ) (w w' : W) → sleep (ℤ.pos d) w ≡ ok w' → clock w + d ≤ clock w')
    (read_follows : (t : Time) (w w' : W) (r : DurableDeadlinePollRead A)
      → read t w ≡ ok (r, w')
      → clock w ≤ clock w') where
  -- The delay is one that can be doubled and the clock is not before the last check.
  pub record IsRunning (s : PollState A W) : Type 0 where
    pub delay : IsDelay s.delay
    pub clock_after : s.result.checked_at.instant ≤ clock s.world

  slept_advances :
      (d : ℤ) (immediate : Bool) (w w' : W)
      → IsDelay d
      → (if immediate then ok w else sleep d w) ≡ ok w'
      → (clock w ≤ clock w') × (immediate ≡ false → clock w < clock w')
  slept_advances d true w w' positive h =
      let same : w ≡ w' = ground (arith, h) in
      (rw same (ground arith), λ p. absurd (ground (arith, p)))
  slept_advances (ℤ.negsuc k) false w w' positive h = absurd positive
  slept_advances (ℤ.pos k) false w w' positive h =
      let lasts = sleep_lasts k w w' h in
      (ground (arith, lasts), λ _. ground (arith, lasts, positive))

  take_read-checked :
      (result : DurableDeadlinePollResult A) (r : DurableDeadlinePollRead A) (t : Time)
      → (take_read now sleep read evaluate stamp result r t).0.checked_at ≡ t
  unfolding take_read
  take_read-checked result r t = refl

  -- A check after an attempt, in the world after it, is later by the sleep.
  attempt_advances :
      (s : PollState A W) (result : DurableDeadlinePollResult A) (finished : Bool) (w : W)
      → IsRunning s
      → attempt now sleep read evaluate stamp s ≡ ok ((result, finished), w)
      → (result.checked_at.instant ≤ clock w)
        × (s.result.checked_at.instant ≤ result.checked_at.instant)
        × (s.read_immediately ≡ false → s.result.checked_at.instant < result.checked_at.instant)
  unfolding attempt to_canonical
  attempt_advances s result finished w run h =
      let (slept, h1, r1) =
        bind_ok (if s.read_immediately then ok s.world else sleep s.delay s.world) _ h in
      let (got, h2, r2) = bind_ok (read s.result.started_at slept) _ r1 in
      let (time, h3, r3) = bind_ok (now got.1) _ r2 in
      let (a, b) = slept_advances s.delay s.read_immediately s.world slept run.delay h1 in
      let c = read_follows s.result.started_at slept got.1 got.0 h2 in
      let (d, f) = now_reads got.1 time.1 time.0 h3 in
      let checked : result.checked_at.instant ≡ time.0.instant =
        ground (arith, r3, take_read-checked s.result got.0 (to_canonical time.0)) in
      let world : time.1 ≡ w = ground (arith, r3) in
      (
        rw (sym world) (ground (arith, checked, f)),
        ground (arith, run.clock_after, a, c, d, checked),
        λ p. ground (arith, run.clock_after, b p, c, d, checked),
      )

  -- The shortened delay does not change the rest.
  clipped-IsRunning :
      (deadline : Time) (s : PollState A W)
      → IsRunning s
      → s.result.checked_at.instant < deadline.instant
      → IsRunning (clipped now sleep read evaluate stamp deadline s)
        × ((clipped now sleep read evaluate stamp deadline s).result ≡ s.result)
        × ((clipped now sleep read evaluate stamp deadline s).read_immediately ≡ s.read_immediately)
  unfolding clipped
  clipped-IsRunning deadline s run early = go s.read_immediately refl
    where
      shorter : PollState A W
      shorter = record s { delay = min_duration s.delay (sub_time deadline s.result.checked_at) }

      go :
          (b : Bool)
          → s.read_immediately ≡ b
          → IsRunning (if b then s else shorter)
            × ((if b then s else shorter).result ≡ s.result)
            × ((if b then s else shorter).read_immediately ≡ s.read_immediately)
      go true e = (run, refl, refl)
      go false e = (
        record {
          delay = clip-IsDelay s.delay deadline s.result.checked_at run.delay early;
          clock_after = run.clock_after;
        },
        refl,
        refl,
      )

  module _ (max_delay : ℤ) (deadline : Time) (bounded : IsDelay max_delay) where
    next_delay-IsDelay :
        (s : PollState A W)
        → IsDelay s.delay
        → IsDelay (next_delay now sleep read evaluate stamp max_delay s)
    unfolding next_delay
    next_delay-IsDelay s w = go s.read_immediately
      where
        go :
            (b : Bool)
            → IsDelay (if b then s.delay else min_duration (add_int64 s.delay s.delay) max_delay)
        go true = w
        go false = double-IsDelay s.delay max_delay w bounded

    after_advances :
        (s s' : PollState A W) (got : Result ((DurableDeadlinePollResult A × Bool) × W))
        → IsRunning s
        → attempt now sleep read evaluate stamp s ≡ got
        → after_attempt now sleep read evaluate stamp max_delay deadline s got ≡ again s'
        → IsRunning s'
          × (s'.read_immediately ≡ false)
          × (s'.result.checked_at.instant < deadline.instant)
          × (s.result.checked_at.instant ≤ s'.result.checked_at.instant)
          × (s.read_immediately ≡ false
              → s.result.checked_at.instant < s'.result.checked_at.instant)
    unfolding after_attempt next_delay before
    after_advances s s' (err e) run h g = absurd (ground (arith, g))
    after_advances s s' (ok ((result, true), w)) run h g = absurd (ground (arith, g))
    after_advances s s' (ok ((result, false), w)) run h g =
        let (a, b, c) = attempt_advances s result false w run h in
        let result' : s'.result ≡ result = ground (arith, g) in
        let world' : s'.world ≡ w = ground (arith, g) in
        let delay' : s'.delay ≡ next_delay now sleep read evaluate stamp max_delay s =
          ground (arith, g) in
        (
          record {
            delay = rw delay' (next_delay-IsDelay s run.delay);
            clock_after = rw (result', world') a;
          },
          ground (arith, g),
          ground (arith, g),
          rw result' b,
          λ p. rw result' (c p),
        )

    turn_advances :
        (s s' : PollState A W)
        → IsRunning s
        → turn now sleep read evaluate stamp max_delay deadline s ≡ again s'
        → IsRunning s'
          × (s'.read_immediately ≡ false)
          × (s.result.checked_at.instant < deadline.instant)
          × (s'.result.checked_at.instant < deadline.instant)
          × (s.result.checked_at.instant ≤ s'.result.checked_at.instant)
          × (s.read_immediately ≡ false
              → s.result.checked_at.instant < s'.result.checked_at.instant)
    unfolding turn before
    turn_advances s s' run h =
        elim (Bool-cases (ltb s.result.checked_at.instant deadline.instant)) [
          | inr late ↦ absurd (ground (arith, h, late))
          | inl early ↦
              let first : s.result.checked_at.instant < deadline.instant = ground (arith, early) in
              let (run', same, kind) = clipped-IsRunning deadline s run first in
              let s1 = clipped now sleep read evaluate stamp deadline s in
              let (a, b, c, d, f) =
                after_advances s1 s' (attempt now sleep read evaluate stamp s1) run' refl
                  (rw early at h) in
              (a, b, first, c, rw same at d, λ p. rw same at (f (kind ∙ p)))
        ]

    -- The turns that are enough: one for each nanosecond up to the deadline, and the immediate one.
    abbrev pub turns_left : PollState A W → ℕ
    turns_left s =
        (deadline.instant - s.result.checked_at.instant) + (if s.read_immediately then 1 else 0)

    turn_ends :
        (fuel : ℕ) (s : PollState A W)
        → IsRunning s
        → turns_left s < suc fuel
        → ((s' : PollState A W)
            → IsRunning s'
            → turns_left s' < fuel
            → (r : Result (DurableDeadlinePollResult A × W)) × (poll_loop now sleep read evaluate
                  stamp fuel max_delay deadline s'
                ≡ some r))
        → (o : Turned A W) → turn now sleep read evaluate stamp max_delay deadline s ≡ o
        → (r : Result (DurableDeadlinePollResult A × W)) × (proceed now sleep read evaluate stamp o
              (λ s'. poll_loop now sleep read evaluate stamp fuel max_delay deadline s')
            ≡ some r)
    turn_ends fuel s run h rest (returned r) e = (r, refl)
    turn_ends fuel s run h rest (again s') e =
        let (run', later, first, second, b, c) = turn_advances s s' run e in
        rest s' run' (fewer s s' deadline.instant fuel first later b c h)

    pub poll_loop-ends :
        (fuel : ℕ) (s : PollState A W)
        → IsRunning s
        → turns_left s < fuel
        → (r : Result (DurableDeadlinePollResult A × W)) × (poll_loop now sleep read evaluate stamp
              fuel max_delay deadline s
            ≡ some r)
    unfolding poll_loop
    poll_loop-ends zero s run h = absurd (ground (arith, h))
    poll_loop-ends (suc fuel) s run h =
        turn_ends fuel s run h (λ s' run' h'. poll_loop-ends fuel s' run' h')
          (turn now sleep read evaluate stamp max_delay deadline s) refl
