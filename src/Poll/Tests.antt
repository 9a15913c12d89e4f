-- ===== src/Poll/Tests.antt =====
-- A poll in a world that is its own clock.
use sshai.Base.{
  Bool, ℕ, ◌+◌, true, false, leb, Option, none, some, ◌≡◌, refl, arith, ℤ, Time, is_zero, before,
  to_canonical, Result, ok, add_int64,
}
use sshai.Poll.Model.{
  DurableDeadlinePollConfig, DurableDeadlinePollRead, DurableDeadlinePollResult, clipped, take_read,
  attempt, after_attempt, next_delay, turn, poll_loop, first_state, begin_poll,
  durable_deadline_poll,
}
use sshai.Poll.Ends.{durable_deadline_poll-ends}
use sshai.Samples.{at}

abbrev now : ℕ → Result (Time × ℕ)
now w = ok (at w, w)

abbrev sleep : ℤ → ℕ → Result ℕ
sleep (ℤ.pos d) w = ok (w + d)
sleep (ℤ.negsuc d) w = ok w

-- A read takes a nanosecond and gives the time.
abbrev read : Time → ℕ → Result (DurableDeadlinePollRead ℕ × ℕ)
read started w = ok (record { value = w + 1; use_value = true; retryable_failure = false }, w + 1)

abbrev is_late : ℕ → ℕ → Time → ℕ × Bool
is_late limit v started = (v, leb limit v)

abbrev same : ℕ → Time → ℕ
same v t = v

abbrev config : DurableDeadlinePollConfig
config = record {
  started_at = at 0;
  timeout = ℤ.pos 20;
  initial_delay = ℤ.pos 2;
  max_delay = ℤ.pos 4;
  step_prefix = "step";
  read_step_prefix = "read";
}

run_poll : ℕ → ℕ → Option (Result (DurableDeadlinePollResult ℕ × ℕ))
unfolding durable_deadline_poll begin_poll first_state poll_loop turn clipped after_attempt
    next_delay attempt take_read is_zero before to_canonical add_int64
run_poll limit fuel = durable_deadline_poll now sleep read (is_late limit) same fuel config none 100

-- Reads at 101, 104, 109 and 114.
done_test :
    run_poll 110 22
    ≡ some (
        ok (
          record { value = some 114; started_at = at 100; checked_at = at 114; timed_out = false },
          114,
        ))
unfolding run_poll to_canonical
done_test = refl

timeout_test :
    run_poll 900 22
    ≡ some (
        ok (
          record { value = some 121; started_at = at 100; checked_at = at 121; timed_out = true },
          121,
        ))
unfolding run_poll to_canonical
timeout_test = refl

durable_deadline_poll-ends_example :
    (r : Result (DurableDeadlinePollResult ℕ × ℕ)) × (durable_deadline_poll now sleep read
        (is_late 110)
        same
        22
        config
        none
        100
      ≡ some r)
unfolding run_poll
durable_deadline_poll-ends_example =
    durable_deadline_poll-ends now sleep read (is_late 110) same (λ w. w)
      (λ w w' t h. ground (arith, h)) (λ d w w' h. ground (arith, h))
      (λ t w w' r h. ground (arith, h)) config none 100 22 (ground arith) (ground arith)
      (ground arith) tt (ground arith)
