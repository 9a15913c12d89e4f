-- ===== src/AutoStop/Stops.antt =====
-- apps/workflows/auto_stop.go: when the object requests a stop.
use sshai.Base.{
  ◌<◌, String, true, Option, none, some, [], ◌∷◌, ◌≡◌, ◌≢◌, inl, inr, refl, ap, sym, ◌∙◌, arith, ok,
}
use sshai.AutoStop.Policy.{validate_auto_stop_activity, AutoStopActivitySnapshot}
use sshai.AutoStop.Qualifies.{Idle}
use sshai.AutoStop.Coordinator.{
  AutoStopCoordinationState, AutoStopObservation, AutoStopTransition, AutoStopTimer, AutoStopExpiry,
  RuntimeStopRequest, RuntimeStopAuditEvidence, resume, stop_request,
}
use sshai.AutoStop.Object.{
  abandon_auto_stop_runtime, refresh, Message, suppress_message, resume_message, observe_message,
  refresh_message, expire_message, handle, current_auto_stop_timer,
}
use sshai.AutoStop.Outcomes.{Expired, expire-Expired, Stops, observe-Observed}
use sshai.AutoStop.Timers.{IsCoherent, unchanged}
use sshai.AutoStop.Invariant.{
  TimedOut, expire_timer-TimedOut, suppress-outcome, resume-outcome, refresh_outcome, Reachable,
  Reachable-timer-IsCoherent,
}

abbrev expiry_of : AutoStopTimer → AutoStopObservation → AutoStopExpiry
expiry_of timer o = record {
  runtime_id = timer.runtime_id;
  generation = timer.generation;
  observation = o;
}

module _ (s : AutoStopCoordinationState) (t : AutoStopTransition) {r : RuntimeStopRequest}
    (stop : t.stop ≡ some r) where
  no_stop : t.stop ≡ none → ⊥
  no_stop n = ground (arith, stop, n)

  expiry-Stops : (e : AutoStopExpiry) → Expired s e t → Stops s e t
  expiry-Stops e (inl (_, n, _)) = absurd (no_stop n)
  expiry-Stops e (inr (inl (t', o, changed, c))) =
      absurd (
        no_stop
          (ap (λ (t : AutoStopTransition). t.stop) c ∙ (observe-Observed s e.observation o).0))
  expiry-Stops e (inr (inr (inl (_, _, n, _)))) = absurd (no_stop n)
  expiry-Stops e (inr (inr (inr w))) = w

  abandoned : t ≡ abandon_auto_stop_runtime s → ⊥
  unfolding abandon_auto_stop_runtime
  abandoned e = ground (arith, stop, e)

  expiry_message-Stops :
      (timer : AutoStopTimer)
      → TimedOut s timer t
      → (current_auto_stop_timer s timer ≡ true)
        × ((o : AutoStopObservation) × Stops s (expiry_of timer o) t)
  expiry_message-Stops timer (inl e) = absurd (ground (arith, stop, e))
  expiry_message-Stops timer (inr (inl e)) = absurd (abandoned e)
  expiry_message-Stops timer (inr (inr (o, t', current, e, inl same))) =
      (current, (o, expiry-Stops (expiry_of timer o) (rw same (expire-Expired s _ e))))
  expiry_message-Stops timer (inr (inr (o, t', current, e, inr ended))) =
      absurd (ground (arith, stop, ended))

  refreshed : (read : Option AutoStopObservation) → refresh s read ≡ ok t → ⊥
  refreshed read h = elim (refresh_outcome s read t h) [
    | inl e ↦ ground (arith, stop, e)
    | inr (inl e) ↦ abandoned e
    | inr (inr (o, e)) ↦ no_stop (observe-Observed s o e).0
  ]

  resumed_nothing : (runtime_id : String) → resume s runtime_id ≡ ok t → ⊥
  resumed_nothing runtime_id h = elim (resume-outcome s runtime_id t h) [
    | inl e ↦ ground (arith, stop, e)
    | inr (_, e) ↦ ground (arith, stop, e)
  ]

  -- Only an expiry requests a stop.
  pub handle-Stops : (m : Message) → handle m s ≡ ok t → (e : AutoStopExpiry) × Stops s e t
  unfolding handle
  handle-Stops (suppress_message r) h = absurd (no_stop (suppress-outcome s r t h).4)
  handle-Stops (resume_message r) h = absurd (resumed_nothing r h)
  handle-Stops (observe_message o) h = absurd (no_stop (observe-Observed s o h).0)
  handle-Stops (refresh_message read) h = absurd (refreshed read h)
  handle-Stops (expire_message timer read d) h =
      let (_, (o, w)) = expiry_message-Stops timer (expire_timer-TimedOut s timer read d t h) in
      (expiry_of timer o, w)

-- What a requested stop of a state's Runtime stands on: one snapshot at the start of the grace
-- period and a later one at its end, both valid, of the Runtime and idle for the policy's mode.
pub record IsJustified (s : AutoStopCoordinationState) (r : RuntimeStopRequest) : Type 0 where
  pub evidence : RuntimeStopAuditEvidence
  pub began : AutoStopActivitySnapshot
  pub finished : AutoStopActivitySnapshot
  pub runtime : r.runtime_id ≡ s.runtime_id
  pub recorded : r.audit_evidence ≡ some evidence
  pub snapshots : evidence.qualifying_snapshots ≡ began ∷ finished ∷ []
  pub of_runtime : (began.runtime_id ≡ r.runtime_id) × (finished.runtime_id ≡ r.runtime_id)
  pub valid_before : validate_auto_stop_activity began ≡ ok tt
  pub valid_after : validate_auto_stop_activity finished ≡ ok tt
  pub later : began.sequence < finished.sequence
  pub idle_before : Idle s.policy_mode began
  pub idle_after : Idle s.policy_mode finished
  pub expired : evidence.grace_expired_at ≡ finished.observed_at
  pub free : s.suppressed_runtime_id ≢ r.runtime_id

Stops-IsJustified :
    (s : AutoStopCoordinationState) (t : AutoStopTransition) (e : AutoStopExpiry)
    {r : RuntimeStopRequest}
    → IsCoherent s
    → Stops s e t
    → t.stop ≡ some r
    → IsJustified s r
unfolding stop_request
Stops-IsJustified s t e {r} w (d, began, finished, pending, _, same, g, (_, q, _), _, requested, _)
      stop =
    let (g', a) = w pending in
    let (runtime, mode) = unchanged s e.observation same in
    let f : r ≡ stop_request s e began finished = ground (arith, requested, stop) in
    let b : g' ≡ began = ground (arith, g, a.snapshot) in
    rw f (record {
      evidence = record {
        policy = e.observation.policy;
        policy_generation = e.observation.policy_generation;
        qualifying_snapshots = began ∷ finished ∷ [];
        grace_started_at = s.grace_started_at;
        grace_expired_at = finished.observed_at;
        grace_period_seconds = s.policy_grace_seconds;
      };
      began = began;
      finished = finished;
      runtime = refl;
      recorded = refl;
      snapshots = refl;
      of_runtime = (rw (sym b) a.runtime, q.runtime ∙ sym runtime);
      valid_before = rw (sym b) a.activity;
      valid_after = q.activity;
      later = ground (arith, q.new, rw b at a.seen);
      idle_before = rw (sym b) a.idle;
      idle_after = rw mode q.idle;
      expired = refl;
      free = a.free;
    })

-- In every state that messages lead to, a message that requests a stop is one for the state's
-- Runtime, which is not suppressed, with two valid recorded snapshots of it, the second with a
-- larger sequence number, that the policy's mode both finds idle.
pub handle_stop-IsJustified :
    {key : String} {s : AutoStopCoordinationState} (reached : Reachable key s) (m : Message)
    (t : AutoStopTransition) (r : RuntimeStopRequest)
    → handle m s ≡ ok t
    → t.stop ≡ some r
    → IsJustified s r
handle_stop-IsJustified {s = s} reached m t r h stop =
    let (e, w) = handle-Stops s t stop m h in
    Stops-IsJustified s t e (Reachable-timer-IsCoherent reached) w stop
