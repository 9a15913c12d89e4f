-- ===== src/AutoStop/Timers.antt =====
-- apps/workflows/auto_stop_coordinator.go: what a pending timer stands on.
use sshai.Base.{
  ◌≤◌, Bool, true, false, some, ◌≡◌, ◌≢◌, inl, inr, refl, ap, sym, ◌∙◌, arith, is_zero,
  same_text_iff, ok, if◌then◌else◌,
}
use sshai.AutoStop.Policy.{
  AutoStopMode, AutoStopActivitySnapshot, AutoStopDecision, unknown_mode,
  validate_auto_stop_activity,
}
use sshai.AutoStop.Qualifies.{Idle}
use sshai.AutoStop.Coordinator.{
  AutoStopCoordinationState, AutoStopObservation, AutoStopTransition, AutoStopExpiry, same_mode,
  coordination_changed, rebased, without_timer, seen, observe,
}
use sshai.AutoStop.Outcomes.{Observed, Based, observe-Observed, Expired}

-- What a timer was started with: a snapshot of the Runtime that the policy's mode finds idle.
pub record IsArmed (s : AutoStopCoordinationState) (g : AutoStopActivitySnapshot) : Type 0 where
  pub snapshot : s.grace_start_snapshot ≡ some g
  pub runtime : g.runtime_id ≡ s.runtime_id
  pub seen : g.sequence ≤ s.last_snapshot_sequence
  pub activity : validate_auto_stop_activity g ≡ ok tt
  pub idle : Idle s.policy_mode g
  pub started : is_zero s.grace_started_at ≡ false
  pub free : s.suppressed_runtime_id ≢ s.runtime_id

abbrev pub IsCoherent : AutoStopCoordinationState → Type 0
IsCoherent s = s.timer_pending ≡ true → (g : AutoStopActivitySnapshot) × IsArmed s g

same_mode-eq : (m n : AutoStopMode) → same_mode m n ≡ true → m ≡ n
unfolding same_mode
same_mode-eq (unknown_mode s) (unknown_mode t) h = ap unknown_mode ((same_text_iff s t).0 h)
same_mode-eq m n h = ground arith

pub unchanged :
    (s : AutoStopCoordinationState) (o : AutoStopObservation)
    → coordination_changed s o ≡ false
    → (s.runtime_id ≡ o.runtime_id) × (s.policy_mode ≡ o.policy.mode)
unfolding coordination_changed
unchanged s o h = (
  (same_text_iff s.runtime_id o.runtime_id).0 (ground arith),
  same_mode-eq s.policy_mode o.policy.mode (ground arith),
)

-- The state that an observation is of has the Runtime and the mode of the observation.
pub Based-current :
    (s : AutoStopCoordinationState) (o : AutoStopObservation) {base : AutoStopCoordinationState}
    → Based s o base
    → (base.runtime_id ≡ o.runtime_id) × (base.policy_mode ≡ o.policy.mode)
unfolding rebased
Based-current s o (inl (c, e)) = rw e (refl, refl)
Based-current s o (inr (c, e)) = rw e (unchanged s o c)

pub not_pending-IsCoherent :
    (s : AutoStopCoordinationState) → s.timer_pending ≡ false → IsCoherent s
not_pending-IsCoherent s h p = absurd (ground arith)

rebased-IsCoherent :
    (s : AutoStopCoordinationState) (o : AutoStopObservation) → IsCoherent (rebased s o)
unfolding rebased
rebased-IsCoherent s o = not_pending-IsCoherent (rebased s o) refl

seen-IsCoherent :
    (s : AutoStopCoordinationState) (d : AutoStopDecision) → IsCoherent s → IsCoherent (seen s d)
unfolding seen
seen-IsCoherent s d w p =
    let (g, a) = w p in
    (
      g,
      record {
        snapshot = a.snapshot;
        runtime = a.runtime;
        seen = ground (arith, a.seen);
        activity = a.activity;
        idle = a.idle;
        started = a.started;
        free = a.free;
      },
    )

cancelled-IsCoherent :
    (s : AutoStopCoordinationState)
    → IsCoherent s
    → IsCoherent (if s.timer_pending then without_timer s else s)
unfolding without_timer
cancelled-IsCoherent s w = go s.timer_pending
  where
    go : (pending : Bool) → IsCoherent (if pending then without_timer s else s)
    go true = λ p. absurd (ground arith)
    go false = w

module _ (s : AutoStopCoordinationState) (o : AutoStopObservation)
    (runtime : s.runtime_id ≡ o.runtime_id) (mode : s.policy_mode ≡ o.policy.mode)
    (w : IsCoherent s) where
  Observed-IsCoherent : (t : AutoStopTransition) → Observed s o t → IsCoherent t.state
  unfolding seen
  Observed-IsCoherent t (inl (same, e, timer)) = rw e (cancelled-IsCoherent s w)
  Observed-IsCoherent t (inr (inl (d, e, timer))) =
      rw e (cancelled-IsCoherent (seen s d) (seen-IsCoherent s d w))
  Observed-IsCoherent t (inr (inr (inl (d, e, timer)))) = rw e (seen-IsCoherent s d w)
  Observed-IsCoherent t (inr (inr (inr (d, g, (found, q, n), other, processed, p, e, timer)))) =
      rw e (λ pending. (
        g,
        record {
          snapshot = refl;
          runtime = q.runtime ∙ sym runtime;
          seen = ground (arith, n);
          activity = q.activity;
          idle = rw mode (q.idle);
          started = processed;
          free = λ same. other (same ∙ runtime);
        },
      ))

pub observe-IsCoherent :
    (s : AutoStopCoordinationState) (o : AutoStopObservation) {t : AutoStopTransition}
    → IsCoherent s
    → observe s o ≡ ok t
    → IsCoherent t.state
observe-IsCoherent s o {t} w h =
    let (stop, (base, from, result)) = observe-Observed s o h in
    let (runtime, mode) = Based-current s o from in
    Observed-IsCoherent base o runtime mode (based from) t result
  where
    based : {base : AutoStopCoordinationState} → Based s o base → IsCoherent base
    based (inl (c, e)) = rw e (rebased-IsCoherent s o)
    based (inr (c, e)) = rw e w

pub Expired-IsCoherent :
    (s : AutoStopCoordinationState) (e : AutoStopExpiry) (t : AutoStopTransition)
    → IsCoherent s
    → Expired s e t
    → IsCoherent t.state
unfolding seen
Expired-IsCoherent s e t w (inl (state, _, _)) = rw state w
Expired-IsCoherent s e t w (inr (inl (t', o, changed, c))) =
    rw c (observe-IsCoherent s e.observation w o)
Expired-IsCoherent s e t w (inr (inr (inl (d, state, _, _)))) =
    rw state (λ p. absurd (ground arith))
Expired-IsCoherent s e t w (inr (inr (inr (d, began, finished, _, _, _, _, _, state, _, _)))) =
    rw state (λ p. absurd (ground arith))
