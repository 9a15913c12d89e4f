-- ===== src/AutoStop/Outcomes.antt =====
-- apps/workflows/auto_stop_coordinator.go: what an observation and an expiry come to.
use sshai.Base.{
  String, Bool, true, false, not, ◌&&◌, ◌||◌, Option, none, some, ◌≡◌, ◌≢◌, ◌⊎◌, inl, inr, refl, ap,
  sym, arith, ◌==◌, Bool-cases, inc_uint64, zero_time, is_zero, same_text, same_text_iff, Result,
  ok, err, bind_ok, if◌then◌else◌,
}
use sshai.AutoStop.Policy.{
  AutoStopPolicy, AutoStopActivitySnapshot, AutoStopEvaluationRequest, AutoStopDecision,
  new_auto_stop_policy, evaluate,
}
use sshai.AutoStop.Qualifies.{Qualifies, evaluate_qualifies_iff, passed, needs_snapshot}
use sshai.AutoStop.Coordinator.{
  AutoStopCoordinationState, AutoStopObservation, AutoStopTransition, AutoStopExpiry,
  coordination_changed, restore_auto_stop_policy, evaluate_auto_stop, rebased, without_timer, seen,
  start_timer, observe_decided, observe_current, observe, expire_decided, expire, stop_request,
  cancelling, nanoseconds,
}

-- The request that an observation is evaluated with.
abbrev pub evaluation_of :
    AutoStopCoordinationState → AutoStopObservation → AutoStopEvaluationRequest
evaluation_of s o = record {
  runtime_id = o.runtime_id;
  previous_snapshot_sequence = s.last_snapshot_sequence;
  fresh_after = o.fresh_after;
  snapshot = o.snapshot;
  conflicts = o.conflicts;
}

restored-mode :
    (env : String) (o : AutoStopObservation) {p : AutoStopPolicy}
    → restore_auto_stop_policy env o ≡ ok p
    → p.snapshot.mode ≡ o.policy.mode
unfolding restore_auto_stop_policy new_auto_stop_policy
restored-mode env o h = ground arith

-- The snapshot that a decision to stop stands on.
abbrev pub Evidence :
    AutoStopCoordinationState
    → AutoStopObservation
    → AutoStopActivitySnapshot
    → AutoStopDecision
    → Type 0
Evidence s o snapshot d =
    (o.snapshot ≡ some snapshot)
    × Qualifies o.policy.mode (evaluation_of s o) snapshot
    × (d.snapshot_sequence ≡ snapshot.sequence)

snapshot_qualifies :
    (s : AutoStopCoordinationState) (o : AutoStopObservation) (p : AutoStopPolicy)
    {d : AutoStopDecision}
    → p.snapshot.mode ≡ o.policy.mode
    → evaluate p (evaluation_of s o) ≡ ok d
    → d.qualifies ≡ true
    → (found : Option AutoStopActivitySnapshot) → o.snapshot ≡ found
    → (snapshot : AutoStopActivitySnapshot) × Evidence s o snapshot d
snapshot_qualifies s o p m e q none n =
    absurd (ground (arith, needs_snapshot p (evaluation_of s o) n e))
snapshot_qualifies s o p {d} m e q (some snapshot) n = (
  snapshot,
  (
    n,
    rw (sym m) ((evaluate_qualifies_iff p (evaluation_of s o) snapshot n).0 (d, e, q)),
    ap (λ (d : AutoStopDecision). d.snapshot_sequence)
        (passed p (evaluation_of s o) snapshot n d e q).8,
  ),
)

pub evaluated-Evidence :
    (s : AutoStopCoordinationState) (o : AutoStopObservation) {d : AutoStopDecision}
    → evaluate_auto_stop s o ≡ ok d
    → d.qualifies ≡ true
    → (snapshot : AutoStopActivitySnapshot) × Evidence s o snapshot d
unfolding evaluate_auto_stop
evaluated-Evidence s o {d} h q =
    let (p, made, e) = bind_ok (restore_auto_stop_policy s.environment_id o) _ h in
    snapshot_qualifies s o p (restored-mode s.environment_id o made) e q o.snapshot refl

-- What an observation comes to, from the state in which the Runtime and the policy are its own.
abbrev pub Observed : AutoStopCoordinationState → AutoStopObservation → AutoStopTransition → Type 0
Observed s o t =
    ((s.suppressed_runtime_id ≡ o.runtime_id)
      × (t.state ≡ (if s.timer_pending then without_timer s else s))
      × (t.timer ≡ none))
    ⊎ ((d : AutoStopDecision) × (t.state
          ≡ (if s.timer_pending then without_timer (seen s d) else seen s d))
        × (t.timer ≡ none))
    ⊎ ((d : AutoStopDecision) × (t.state ≡ seen s d) × (t.timer ≡ none))
    ⊎ ((d : AutoStopDecision) × (snapshot : AutoStopActivitySnapshot) × Evidence s o snapshot d
        × (s.suppressed_runtime_id ≢ o.runtime_id)
        × (is_zero o.processed_at ≡ false)
        × (s.timer_pending ≡ false)
        × (t.state ≡ record (seen s d) {
          timer_generation = inc_uint64 s.timer_generation;
          timer_pending = true;
          grace_started_at = o.processed_at;
          grace_start_snapshot = some snapshot;
        })
        × (t.timer
            ≡ some (record {
              runtime_id = o.runtime_id;
              generation = inc_uint64 s.timer_generation;
              delay = nanoseconds o.policy.grace_period_seconds;
            })))

observe_decided-Observed :
    (s : AutoStopCoordinationState) (o : AutoStopObservation) (cancelled : Bool)
    (d : AutoStopDecision) {t : AutoStopTransition}
    → s.suppressed_runtime_id ≢ o.runtime_id
    → evaluate_auto_stop s o ≡ ok d
    → observe_decided (seen s d) o cancelled d ≡ ok t
    → (t.stop ≡ none) × Observed s o t
unfolding observe_decided seen start_timer
observe_decided-Observed s o cancelled d {t} other e h = elim (Bool-cases d.qualifies) [
  | inr against ↦ (ground arith, inr (inl (d, ground arith, ground arith)))
  | inl q ↦
      let (snapshot, (found, w, n)) = evaluated-Evidence s o e q in
      elim (Bool-cases (
        s.timer_pending
        || (not (s.dispatched_generation == 0) && s.dispatched_generation == s.timer_generation))) [
          | inl kept ↦ (ground arith, inr (inr (inl (d, ground arith, ground arith))))
          | inr fresh ↦ (
            ground (arith, found),
            inr (
                inr (
                  inr (
                    d,
                    snapshot,
                    (found, w, n),
                    other,
                    ground (arith, found),
                    ground arith,
                    ground (arith, found),
                    ground (arith, found),
                  ))),
          )
        ]
]

pub observe_current-Observed :
    (s : AutoStopCoordinationState) (o : AutoStopObservation) (cancelled : Bool)
    {t : AutoStopTransition}
    → observe_current s o cancelled ≡ ok t
    → (t.stop ≡ none) × Observed s o t
unfolding observe_current
observe_current-Observed s o cancelled {t} h =
    elim (Bool-cases (same_text s.suppressed_runtime_id o.runtime_id)) [
      | inl same ↦ (
        ground arith,
        inl (
          (same_text_iff s.suppressed_runtime_id o.runtime_id).0 same,
          ground arith,
          ground arith,
        ),
      )
      | inr other ↦
          let (d, e, rest) = bind_ok (evaluate_auto_stop s o) _ (rw other at h) in
          observe_decided-Observed s o cancelled d
            (λ x. ground (arith, same_text_iff s.suppressed_runtime_id o.runtime_id)) e rest
    ]

-- An observation is of the state itself, or of the state in which its Runtime and its policy are.
abbrev pub Based :
    AutoStopCoordinationState → AutoStopObservation → AutoStopCoordinationState → Type 0
Based s o base =
    ((coordination_changed s o ≡ true) × (base ≡ rebased s o))
    ⊎ ((coordination_changed s o ≡ false) × (base ≡ s))

pub observe-Observed :
    (s : AutoStopCoordinationState) (o : AutoStopObservation) {t : AutoStopTransition}
    → observe s o ≡ ok t
    → (t.stop ≡ none) × ((base : AutoStopCoordinationState) × Based s o base × Observed base o t)
unfolding observe
observe-Observed s o {t} h =
    let (p, made, rest) = bind_ok (restore_auto_stop_policy s.environment_id o) _ h in
    elim (Bool-cases (coordination_changed s o)) [
      | inl changed ↦
          let w = observe_current-Observed (rebased s o) o s.timer_pending (rw changed at rest) in
          (w.0, (rebased s o, inl (changed, refl), w.1))
      | inr same ↦
          let w = observe_current-Observed s o false (rw same at rest) in
          (w.0, (s, inr (same, refl), w.1))
    ]

-- The expiry of the current timer that requests the stop.
abbrev pub Stops : AutoStopCoordinationState → AutoStopExpiry → AutoStopTransition → Type 0
Stops s e t =
    (d : AutoStopDecision) × (began finished : AutoStopActivitySnapshot) × (s.timer_pending ≡ true)
    × (e.generation ≡ s.timer_generation)
    × (coordination_changed s e.observation ≡ false)
    × (s.grace_start_snapshot ≡ some began)
    × Evidence s e.observation finished d
    × (t.state ≡ record (seen (record s { timer_pending = false }) d) {
      dispatched_generation = e.generation;
    })
    × (t.stop ≡ some (stop_request s e began finished))
    × (t.timer ≡ none)

-- An expiry of a timer that is not current, or an observation of another Runtime or policy, or a
-- decision against the stop, or the stop.
abbrev pub Expired : AutoStopCoordinationState → AutoStopExpiry → AutoStopTransition → Type 0
Expired s e t =
    ((t.state ≡ s) × (t.stop ≡ none) × (t.timer ≡ none))
    ⊎ ((t' : AutoStopTransition) × (observe s e.observation ≡ ok t')
        × (coordination_changed s e.observation ≡ true)
        × (t ≡ record t' { cancelled = true }))
    ⊎ ((d : AutoStopDecision) × (t.state ≡ record (seen (record s { timer_pending = false }) d) {
      grace_started_at = zero_time;
      grace_start_snapshot = none;
    })
        × (t.stop ≡ none)
        × (t.timer ≡ none))
    ⊎ Stops s e t

module _ (s : AutoStopCoordinationState) (e : AutoStopExpiry) (d : AutoStopDecision)
    {t : AutoStopTransition} (h : expire_decided s e d ≡ ok t) where
  expire_stopped :
      (finished : AutoStopActivitySnapshot)
      → d.qualifies ≡ true
      → e.observation.snapshot ≡ some finished
      → (found : Option AutoStopActivitySnapshot) → s.grace_start_snapshot ≡ found
      → (began : AutoStopActivitySnapshot) × (s.grace_start_snapshot ≡ some began)
        × (t.state ≡ record (seen (record s { timer_pending = false }) d) {
          dispatched_generation = e.generation;
        })
        × (t.stop ≡ some (stop_request s e began finished))
        × (t.timer ≡ none)
  unfolding expire_decided
  expire_stopped finished q given none n = absurd (ground arith)
  expire_stopped finished q given (some began) n =
      (began, n, ground arith, ground arith, ground arith)

  expire_refused :
      d.qualifies ≡ false
      → (t.state ≡ record (seen (record s { timer_pending = false }) d) {
        grace_started_at = zero_time;
        grace_start_snapshot = none;
      })
        × (t.stop ≡ none)
        × (t.timer ≡ none)
  unfolding expire_decided
  expire_refused q = ground arith

expire_decided-Expired :
    (s : AutoStopCoordinationState) (e : AutoStopExpiry) (d : AutoStopDecision)
    {t : AutoStopTransition}
    → s.timer_pending ≡ true
    → e.generation ≡ s.timer_generation
    → coordination_changed s e.observation ≡ false
    → evaluate_auto_stop s e.observation ≡ ok d
    → expire_decided s e d ≡ ok t
    → Expired s e t
expire_decided-Expired s e d {t} pending current same evaluated h = elim (Bool-cases d.qualifies) [
  | inr against ↦
      let (state, stop, timer) = expire_refused s e d h against in
      inr (inr (inl (d, state, stop, timer)))
  | inl q ↦
      let (finished, w) = evaluated-Evidence s e.observation evaluated q in
      let (began, g, state, stop, timer) =
        expire_stopped s e d h finished q w.0 s.grace_start_snapshot refl in
      inr (inr (inr (d, began, finished, pending, current, same, g, w, state, stop, timer)))
]

cancelling_ok :
    (r : Result AutoStopTransition) {t : AutoStopTransition}
    → cancelling r ≡ ok t
    → (t' : AutoStopTransition) × (r ≡ ok t') × (t ≡ record t' { cancelled = true })
cancelling_ok (ok t') h = (t', refl, ground arith)
cancelling_ok (err x) h = absurd (ground arith)

pub expire-Expired :
    (s : AutoStopCoordinationState) (e : AutoStopExpiry) {t : AutoStopTransition}
    → expire s e ≡ ok t
    → Expired s e t
unfolding expire
expire-Expired s e {t} h =
    elim (Bool-cases (
      not s.timer_pending
      || not (e.generation == s.timer_generation)
      || not (same_text e.runtime_id s.runtime_id))) [
        | inl late ↦ inl (ground arith, ground arith, ground arith)
        | inr current ↦ elim (Bool-cases (coordination_changed s e.observation)) [
          | inl changed ↦
              let (t', o, c) =
                cancelling_ok (observe s e.observation) (rw (current, changed) at h) in
              inr (inl (t', o, changed, c))
          | inr same ↦
              let (d, evaluated, rest) =
                bind_ok (evaluate_auto_stop s e.observation) _ (rw (current, same) at h) in
              expire_decided-Expired s e d (ground arith) (ground arith) same evaluated rest
        ]
      ]
