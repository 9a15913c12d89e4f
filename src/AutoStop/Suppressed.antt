-- ===== src/AutoStop/Suppressed.antt =====
-- apps/workflows/auto_stop.go: the Runtime whose automatic stop is suppressed.
use sshai.Base.{
  String, true, false, Option, none, some, ◌≡◌, ◌≢◌, ◌⊎◌, inl, inr, refl, ap, sym, ◌∙◌, arith,
  Bool-cases, is_empty, ok, same_text, same_text_iff,
}
use sshai.AutoStop.Coordinator.{
  AutoStopCoordinationState, AutoStopObservation, AutoStopTransition, AutoStopTimer,
  RuntimeStopRequest, observe, seen, without_timer, rebased,
}
use sshai.AutoStop.Object.{
  abandon_auto_stop_runtime, current_auto_stop_timer, Message, suppress_message, resume_message,
  observe_message, refresh_message, expire_message, handle,
}
use sshai.AutoStop.Outcomes.{Based, Observed, observe-Observed}
use sshai.AutoStop.Timers.{IsCoherent, Based-current}
use sshai.AutoStop.Invariant.{
  TimedOut, expire_timer-TimedOut, refresh_outcome, Reachable, Reachable-timer-IsCoherent,
}
use sshai.AutoStop.Stops.{handle-Stops}

-- The messages but for those that suppress and resume.
abbrev pub IsWatch : Message → Type 0
IsWatch (suppress_message r) = ⊥
IsWatch (resume_message r) = ⊥
IsWatch _ = Unit {0}

abbrev pub IsSuppressed : AutoStopCoordinationState → String → Type 0
IsSuppressed s runtime_id = (s.runtime_id ≡ runtime_id) × (s.suppressed_runtime_id ≡ runtime_id)

-- The Runtime is still suppressed and no timer was started, or it is not the state's any more.
abbrev Left : String → AutoStopTransition → Type 0
Left rt t = ((t.timer ≡ none) × IsSuppressed t.state rt) ⊎ (t.state.runtime_id ≢ rt)

Observed-runtime :
    (s : AutoStopCoordinationState) (o : AutoStopObservation) (t : AutoStopTransition)
    → Observed s o t
    → (t.state.runtime_id ≡ s.runtime_id)
      × (t.state.suppressed_runtime_id ≡ s.suppressed_runtime_id)
      × ((s.suppressed_runtime_id ≡ o.runtime_id) → t.timer ≡ none)
unfolding seen without_timer
Observed-runtime s o t (inl (_, e, n)) = rw e (ground arith, ground arith, λ _. n)
Observed-runtime s o t (inr (inl (_, e, n))) = rw e (ground arith, ground arith, λ _. n)
Observed-runtime s o t (inr (inr (inl (_, e, n)))) = rw e (refl, refl, λ _. n)
Observed-runtime s o t (inr (inr (inr (_, _, _, other, _, _, e, _)))) =
    rw e (refl, refl, λ same. absurd (other same))

module _ (s : AutoStopCoordinationState) (rt : String) (named : is_empty rt ≡ false)
    (w : IsSuppressed s rt) where
  base-suppressed :
      (o : AutoStopObservation) (base : AutoStopCoordinationState)
      → Based s o base
      → base.runtime_id ≡ rt
      → base.suppressed_runtime_id ≡ rt
  unfolding rebased
  base-suppressed o base (inl (_, e)) same =
      ground (arith, e, same, w, same_text_iff s.runtime_id o.runtime_id)
  base-suppressed o base (inr (_, e)) same = rw e w.1

  observe-Left : (o : AutoStopObservation) (t : AutoStopTransition) → observe s o ≡ ok t → Left rt t
  observe-Left o t h =
      let (_, (base, from, result)) = observe-Observed s o h in
      let (runtime, _) = Based-current s o from in
      let (kept, suppressed, timer) = Observed-runtime base o t result in
      elim (Bool-cases (same_text base.runtime_id rt)) [
        | inl same ↦
            let f = (same_text_iff base.runtime_id rt).0 same in
            let b = base-suppressed o base from f in
            inl (timer (b ∙ sym f ∙ runtime), (kept ∙ f, suppressed ∙ b))
        | inr other ↦
            inr (λ e. ground (arith, other, same_text_iff base.runtime_id rt, sym kept ∙ e))
      ]

  abandon-Left : Left rt (abandon_auto_stop_runtime s)
  unfolding abandon_auto_stop_runtime
  abandon-Left = inr (λ e. ground (arith, ap is_empty e, named))

  module _ (coherent : IsCoherent s) where
    no_timer : s.timer_pending ≡ true → ⊥
    no_timer p = let (g, a) = coherent p in a.free (w.1 ∙ sym w.0)

    expiry_message-Left :
        (timer : AutoStopTimer) (t : AutoStopTransition) → TimedOut s timer t → Left rt t
    unfolding current_auto_stop_timer
    expiry_message-Left timer t (inl e) = rw e (inl (refl, w))
    expiry_message-Left timer t (inr (inl e)) = rw e abandon-Left
    expiry_message-Left timer t (inr (inr (o, t', current, _, _))) =
        absurd (no_timer (ground arith))

    handle-Left : (m : Message) (t : AutoStopTransition) → IsWatch m → handle m s ≡ ok t → Left rt t
    unfolding handle
    handle-Left (suppress_message r) t watch h = absurd watch
    handle-Left (resume_message r) t watch h = absurd watch
    handle-Left (observe_message o) t watch h = observe-Left o t h
    handle-Left (refresh_message read) t watch h = elim (refresh_outcome s read t h) [
      | inl e ↦ rw e (inl (refl, w))
      | inr (inl e) ↦ rw e abandon-Left
      | inr (inr (o, e)) ↦ observe-Left o t e
    ]
    handle-Left (expire_message timer read d) t watch h =
        expiry_message-Left timer t (expire_timer-TimedOut s timer read d t h)

    not_stopped : (m : Message) (t : AutoStopTransition) → handle m s ≡ ok t → t.stop ≡ none
    not_stopped m t h = go t.stop refl
      where
        go : (stop : Option RuntimeStopRequest) → t.stop ≡ stop → stop ≡ none
        go none e = refl
        go (some r) e = absurd (no_timer (handle-Stops s t e m h).1.3)

-- In a state that messages lead to and whose Runtime is suppressed, a message that is neither a
-- suppression nor a resumption requests no stop, and it starts no timer and leaves the Runtime
-- suppressed unless it leaves the state with another Runtime or none.
pub message_leaves_runtime :
    {key : String} {s : AutoStopCoordinationState} (reached : Reachable key s) (rt : String)
    (m : Message) (t : AutoStopTransition)
    → is_empty rt ≡ false
    → IsSuppressed s rt
    → IsWatch m
    → handle m s ≡ ok t
    → (t.stop ≡ none) × (((t.timer ≡ none) × IsSuppressed t.state rt) ⊎ (t.state.runtime_id ≢ rt))
message_leaves_runtime {s = s} reached rt m t named w watch h =
    let coherent = Reachable-timer-IsCoherent reached in
    (not_stopped s rt named w coherent m t h, handle-Left s rt named w coherent m t watch h)
