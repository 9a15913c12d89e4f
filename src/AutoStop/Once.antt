-- ===== src/AutoStop/Once.antt =====
-- apps/workflows/auto_stop.go: the generations of the timers along a run.
use sshai.Base.{
  ◌+◌, ◌≤◌, ◌<◌, Bool, true, false, ◌≡◌, inl, inr, refl, ◌∙◌, arith, Bool-cases, ok, if◌then◌else◌,
  max_uint64, inc_uint64,
}
use sshai.AutoStop.Coordinator.{
  AutoStopCoordinationState, AutoStopObservation, AutoStopTransition, AutoStopTimer, AutoStopExpiry,
  observe, seen, without_timer, rebased,
}
use sshai.AutoStop.Object.{
  abandon_auto_stop_runtime, Message, suppress_message, resume_message, observe_message,
  refresh_message, expire_message, handle,
}
use sshai.AutoStop.Outcomes.{Based, Observed, Expired, expire-Expired, observe-Observed}
use sshai.AutoStop.Invariant.{
  TimedOut, expire_timer-TimedOut, suppress-outcome, resume-outcome, refresh_outcome,
}

-- The generation does not fall, and a timer that is newly pending has a new one.
abbrev pub Later : AutoStopCoordinationState → AutoStopCoordinationState → Type 0
Later s s' =
    (s.timer_generation ≤ s'.timer_generation)
    × (s.environment_id ≡ s'.environment_id)
    × (s.timer_pending ≡ false → s'.timer_pending ≡ true → s.timer_generation < s'.timer_generation)

pub Later-refl : (s : AutoStopCoordinationState) → Later s s
Later-refl s = (ground arith, refl, λ p q. absurd (ground (arith, p, q)))

pub Later-trans : (s s' s'' : AutoStopCoordinationState) → Later s s' → Later s' s'' → Later s s''
Later-trans s s' s'' (a, e, f) (b, e', g) = (
  ground (arith, a, b),
  e ∙ e',
  λ p q. elim (Bool-cases s'.timer_pending) [
    | inl r ↦ ground (arith, f p r, b)
    | inr r ↦ ground (arith, a, g r q)
  ],
)

seen-Later : (s : AutoStopCoordinationState) (d : _) → Later s (seen s d)
unfolding seen
seen-Later s d = (ground arith, refl, λ p q. absurd (ground (arith, p, q)))

cancelled-Later :
    (s : AutoStopCoordinationState)
    → s.timer_generation < max_uint64
    → Later s (if s.timer_pending then without_timer s else s)
unfolding without_timer inc_uint64
cancelled-Later s room = go s.timer_pending
  where
    go : (pending : Bool) → Later s (if pending then without_timer s else s)
    go true = (ground (arith, room), refl, λ p q. absurd (ground (arith, q)))
    go false = Later-refl s

-- The state that an observation is of has the Runtime's own timers and room for one more.
Based-Later :
    (s : AutoStopCoordinationState) (o : AutoStopObservation) (base : AutoStopCoordinationState)
    → s.timer_generation + 1 < max_uint64
    → Based s o base
    → Later s base × (base.timer_generation < max_uint64)
unfolding rebased inc_uint64
Based-Later s o base room (inl (_, e)) =
    rw e ((ground (arith, room), refl, λ p q. absurd (ground (arith, q))), ground (arith, room))
Based-Later s o base room (inr (_, e)) = rw e (Later-refl s, ground (arith, room))

Observed-Later :
    (s : AutoStopCoordinationState) (o : AutoStopObservation) (t : AutoStopTransition)
    → s.timer_generation < max_uint64
    → Observed s o t
    → Later s t.state
unfolding seen inc_uint64
Observed-Later s o t room (inl (_, e, _)) = rw e (cancelled-Later s room)
Observed-Later s o t room (inr (inl (d, e, _))) = rw e (cancelled-Later (seen s d) room)
Observed-Later s o t room (inr (inr (inl (d, e, _)))) = rw e (seen-Later s d)
Observed-Later s o t room (inr (inr (inr (d, g, _, _, _, p, e, _)))) =
    rw e (ground (arith, room), refl, λ p q. ground (arith, room))

module _ (s : AutoStopCoordinationState) (room : s.timer_generation + 1 < max_uint64) where
  observe-Later :
      (o : AutoStopObservation) (t : AutoStopTransition) → observe s o ≡ ok t → Later s t.state
  observe-Later o t h =
      let (_, (base, from, result)) = observe-Observed s o h in
      let (first, more) = Based-Later s o base room from in
      Later-trans s base t.state first (Observed-Later base o t more result)

  expire-Later : (e : AutoStopExpiry) (t : AutoStopTransition) → Expired s e t → Later s t.state
  unfolding seen
  expire-Later e t (inl (f, _, _)) = rw f (Later-refl s)
  expire-Later e t (inr (inl (t', o, _, f))) = rw f (observe-Later e.observation t' o)
  expire-Later e t (inr (inr (inl (d, f, _, _)))) =
      rw f (ground arith, refl, λ p q. absurd (ground (arith, q)))
  expire-Later e t (inr (inr (inr (d, _, _, _, _, _, _, _, f, _, _)))) =
      rw f (ground arith, refl, λ p q. absurd (ground (arith, q)))

  abandon-Later : Later s (abandon_auto_stop_runtime s).state
  unfolding abandon_auto_stop_runtime inc_uint64
  abandon-Later = (ground (arith, room), refl, λ p q. absurd (ground (arith, q)))

  expiry_message-Later :
      (timer : AutoStopTimer) (t : AutoStopTransition) → TimedOut s timer t → Later s t.state
  expiry_message-Later timer t (inl e) = rw e (Later-refl s)
  expiry_message-Later timer t (inr (inl e)) = rw e abandon-Later
  expiry_message-Later timer t (inr (inr (o, t', _, e, inl same))) =
      rw same (expire-Later _ t' (expire-Expired s _ e))
  expiry_message-Later timer t (inr (inr (o, t', _, e, inr ended))) =
      let (a, f, _) = expire-Later _ t' (expire-Expired s _ e) in
      rw ended (a, f, λ p q. absurd (ground (arith, q)))

  pub handle-Later : (m : Message) (t : AutoStopTransition) → handle m s ≡ ok t → Later s t.state
  unfolding handle inc_uint64
  handle-Later (suppress_message r) t h =
      let (p, g, _, _, _, e) = suppress-outcome s r t h in
      (ground (arith, room, g), e, λ _ q. absurd (ground (arith, p, q)))
  handle-Later (resume_message r) t h = elim (resume-outcome s r t h) [
    | inl e ↦ rw e (Later-refl s)
    | inr (_, e) ↦ rw e (ground arith, refl, λ p q. absurd (ground (arith, p, q)))
  ]
  handle-Later (observe_message o) t h = observe-Later o t h
  handle-Later (refresh_message read) t h = elim (refresh_outcome s read t h) [
    | inl e ↦ rw e (Later-refl s)
    | inr (inl e) ↦ rw e abandon-Later
    | inr (inr (o, e)) ↦ observe-Later o t e
  ]
  handle-Later (expire_message timer read d) t h =
      expiry_message-Later timer t (expire_timer-TimedOut s timer read d t h)
