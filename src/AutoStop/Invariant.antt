-- ===== src/AutoStop/Invariant.antt =====
-- apps/workflows/auto_stop.go: what holds of every state that messages lead the object to.
use sshai.Base.{
  String, true, false, Option, none, some, ◌≡◌, ◌⊎◌, inl, inr, refl, ap, sym, arith, Bool-cases,
  is_empty, same_text, same_text_iff, ok, bind_ok,
}
use sshai.AutoStop.Policy.{AutoStopActivitySnapshot, validate_auto_stop_activity}
use sshai.AutoStop.Coordinator.{
  AutoStopCoordinationState, AutoStopObservation, AutoStopTransition, AutoStopTimer, keeps,
  cancelled_generation, observe, expire, suppress, resume,
}
use sshai.AutoStop.Object.{
  abandon_auto_stop_runtime, refresh, expire_timer, DispatchDisposition, Message, suppress_message,
  resume_message, observe_message, refresh_message, expire_message, handle, current_auto_stop_timer,
  end_dispatch, initial_state,
}
use sshai.AutoStop.Outcomes.{expire-Expired}
use sshai.AutoStop.Timers.{
  IsArmed, IsCoherent, observe-IsCoherent, Expired-IsCoherent, not_pending-IsCoherent,
}

-- An expiry leaves the state as it is, abandons the Runtime, or is the coordinator's, with the
-- dispatch cycle ended or not.
abbrev pub TimedOut : AutoStopCoordinationState → AutoStopTimer → AutoStopTransition → Type 0
TimedOut s timer t =
    (t ≡ keeps s false)
    ⊎ (t ≡ abandon_auto_stop_runtime s)
    ⊎ ((o : AutoStopObservation) × (t' : AutoStopTransition) × (current_auto_stop_timer s timer
          ≡ true)
        × (expire s (record {
          runtime_id = timer.runtime_id;
          generation = timer.generation;
          observation = o;
        })
            ≡ ok t')
        × ((t ≡ t') ⊎ (t ≡ end_dispatch t')))

pub expire_timer-TimedOut :
    (s : AutoStopCoordinationState) (timer : AutoStopTimer) (read : Option AutoStopObservation)
    (d : DispatchDisposition) (t : AutoStopTransition)
    → expire_timer s timer read d ≡ ok t
    → TimedOut s timer t
unfolding expire_timer
expire_timer-TimedOut s timer none d t h = elim (Bool-cases (current_auto_stop_timer s timer)) [
  | inl current ↦ inr (inl (ground arith))
  | inr late ↦ inl (ground arith)
]
expire_timer-TimedOut s timer (some o) d t h = elim (Bool-cases (current_auto_stop_timer s timer)) [
  | inl current ↦
      let (t', e, rest) =
        bind_ok
          (expire s (record {
            runtime_id = timer.runtime_id;
            generation = timer.generation;
            observation = o;
          }))
          _ (rw current at h) in
      inr (inr (o, t', current, e, ground arith))
  | inr late ↦ inl (ground arith)
]

activity-runtime :
    (g : AutoStopActivitySnapshot)
    → validate_auto_stop_activity g ≡ ok tt
    → is_empty g.runtime_id ≡ false
unfolding validate_auto_stop_activity
activity-runtime g h = ground arith

armed-runtime :
    (s : AutoStopCoordinationState) {g : AutoStopActivitySnapshot}
    → IsArmed s g
    → is_empty s.runtime_id ≡ false
armed-runtime s {g} a = rw (sym a.runtime) (activity-runtime g a.activity)

-- The state without the suppression.
abbrev pub resumed : AutoStopCoordinationState → AutoStopCoordinationState
resumed s = record s { suppressed_runtime_id = ""; dispatched_generation = 0 }

pub resume-outcome :
    (s : AutoStopCoordinationState) (runtime_id : String) (t : AutoStopTransition)
    → resume s runtime_id ≡ ok t
    → (t ≡ keeps s false) ⊎ ((s.suppressed_runtime_id ≡ runtime_id) × (t ≡ keeps (resumed s) false))
unfolding resume
resume-outcome s runtime_id t h = elim (Bool-cases (same_text s.suppressed_runtime_id runtime_id)) [
  | inl same ↦ inr ((same_text_iff s.suppressed_runtime_id runtime_id).0 same, ground arith)
  | inr other ↦ inl (ground arith)
]

resumed-IsCoherent : (s : AutoStopCoordinationState) → IsCoherent s → IsCoherent (resumed s)
resumed-IsCoherent s w p =
    let (g, a) = w p in
    let named = armed-runtime s a in
    (
      g,
      record {
        snapshot = a.snapshot;
        runtime = a.runtime;
        seen = a.seen;
        activity = a.activity;
        idle = a.idle;
        started = a.started;
        free = λ e. ground (arith, ap is_empty e, named);
      },
    )

pub suppress-outcome :
    (s : AutoStopCoordinationState) (runtime_id : String) (t : AutoStopTransition)
    → suppress s runtime_id ≡ ok t
    → (t.state.timer_pending ≡ false)
      × (t.state.timer_generation ≡ cancelled_generation s)
      × (t.state.suppressed_runtime_id ≡ runtime_id)
      × (t.timer ≡ none)
      × (t.stop ≡ none)
      × (s.environment_id ≡ t.state.environment_id)
unfolding suppress
suppress-outcome s runtime_id t h = ground arith

abandoned-IsCoherent :
    (s : AutoStopCoordinationState) → IsCoherent (abandon_auto_stop_runtime s).state
unfolding abandon_auto_stop_runtime
abandoned-IsCoherent s = not_pending-IsCoherent (abandon_auto_stop_runtime s).state refl

pub refresh_outcome :
    (s : AutoStopCoordinationState) (read : Option AutoStopObservation) (t : AutoStopTransition)
    → refresh s read ≡ ok t
    → (t ≡ keeps s false)
      ⊎ (t ≡ abandon_auto_stop_runtime s)
      ⊎ ((o : AutoStopObservation) × (observe s o ≡ ok t))
unfolding refresh
refresh_outcome s none t h = ground arith
refresh_outcome s (some o) t h = elim (Bool-cases (is_empty s.runtime_id)) [
  | inl e ↦ inl (ground arith)
  | inr e ↦ inr (inr (o, rw e at h))
]

-- A step of the object keeps what holds of a pending timer.
module _ (s : AutoStopCoordinationState) (w : IsCoherent s) where
  expiry_message-IsCoherent :
      (timer : AutoStopTimer) (t : AutoStopTransition) → TimedOut s timer t → IsCoherent t.state
  expiry_message-IsCoherent timer t (inl e) = rw e w
  expiry_message-IsCoherent timer t (inr (inl e)) = rw e (
      not_pending-IsCoherent (abandon_auto_stop_runtime s).state
        (unfold abandon_auto_stop_runtime in refl))
  expiry_message-IsCoherent timer t (inr (inr (o, t', current, e, inl same))) =
      rw same (Expired-IsCoherent s _ t' w (expire-Expired s _ e))
  expiry_message-IsCoherent timer t (inr (inr (o, t', current, e, inr ended))) =
      rw ended (not_pending-IsCoherent (end_dispatch t').state refl)

  refresh-IsCoherent :
      (read : Option AutoStopObservation) (t : AutoStopTransition)
      → refresh s read ≡ ok t
      → IsCoherent t.state
  refresh-IsCoherent read t h = go (refresh_outcome s read t h)
    where
      go :
          (t ≡ keeps s false)
            ⊎ (t ≡ abandon_auto_stop_runtime s)
            ⊎ ((o : AutoStopObservation) × (observe s o ≡ ok t))
          → IsCoherent t.state
      go (inl e) = rw e w
      go (inr (inl e)) = rw e (abandoned-IsCoherent s)
      go (inr (inr (o, e))) = observe-IsCoherent s o w e

  resume-IsCoherent :
      (runtime_id : String) (t : AutoStopTransition)
      → resume s runtime_id ≡ ok t
      → IsCoherent t.state
  resume-IsCoherent runtime_id t h = elim (resume-outcome s runtime_id t h) [
    | inl e ↦ rw e w
    | inr (_, e) ↦ rw e (resumed-IsCoherent s w)
  ]

  handle-IsCoherent :
      (m : Message) (t : AutoStopTransition) → handle m s ≡ ok t → IsCoherent t.state
  unfolding handle
  handle-IsCoherent (suppress_message r) t h =
      not_pending-IsCoherent t.state (suppress-outcome s r t h).0
  handle-IsCoherent (resume_message r) t h = resume-IsCoherent r t h
  handle-IsCoherent (observe_message o) t h = observe-IsCoherent s o w h
  handle-IsCoherent (refresh_message read) t h = refresh-IsCoherent read t h
  handle-IsCoherent (expire_message timer read d) t h =
      expiry_message-IsCoherent timer t (expire_timer-TimedOut s timer read d t h)

-- The states that messages lead the object of an Environment to.
pub data Reachable (key : String) : AutoStopCoordinationState → Type 0 where
  initial : Reachable key (initial_state key)
  handled :
      (m : Message) {s : AutoStopCoordinationState} {t : AutoStopTransition}
      → Reachable key s
      → handle m s ≡ ok t
      → Reachable key t.state

-- In every state that messages lead to, a pending timer was started with a valid snapshot of the
-- state's Runtime that the policy's mode finds idle, whose sequence number is not above the last
-- one, and the Runtime is not suppressed.
pub Reachable-timer-IsCoherent :
    {key : String} {s : AutoStopCoordinationState} → Reachable key s → IsCoherent s
Reachable-timer-IsCoherent initial = not_pending-IsCoherent _ refl
Reachable-timer-IsCoherent (handled m {s} {t} before h) =
    handle-IsCoherent s (Reachable-timer-IsCoherent before) m t h
