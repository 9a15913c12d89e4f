-- ===== src/AutoStop/Qualifies.antt =====
-- libs/domain/autostop.go: exactly when a stop qualifies.
use sshai.Base.{
  none, ℕ, true, false, some, [], ◌≡◌, ◌≤◌, ◌<◌, ◌↔◌, ◌⊎◌, refl, arith, ℤ, before, is_zero,
  is_empty, same_text_iff, ok,
}
use sshai.AutoStop.Policy.{
  AutoStopMode, when_disconnected, when_agents_finish, when_fully_idle, manual, unknown_mode,
  AutoStopPolicy, AutoStopActivitySnapshot, AutoStopEvaluationRequest, AutoStopDecision,
  stale_sequence, blocked, validate_auto_stop_activity, validate_conflicts, is_idle, is_manual,
  evaluate,
}

-- Nothing that the mode looks at is there.
abbrev pub Idle : AutoStopMode → AutoStopActivitySnapshot → Type 0
Idle when_disconnected s = (s.ssh_connections ≡ ℤ.pos 0) × (s.ide_connections ≡ ℤ.pos 0)
Idle when_agents_finish s = (s.codex_processes ≡ ℤ.pos 0) × (s.claude_processes ≡ ℤ.pos 0)
Idle when_fully_idle s =
    (s.ssh_connections ≡ ℤ.pos 0)
    × (s.ide_connections ≡ ℤ.pos 0)
    × (s.codex_processes ≡ ℤ.pos 0)
    × (s.claude_processes ≡ ℤ.pos 0)
    × (s.protected_processes ≡ ℤ.pos 0)
    × (s.selected_containers ≡ ℤ.pos 0)
    × (s.unknown_user_processes ≡ ℤ.pos 0)
Idle manual s = ⊥
Idle (unknown_mode text) s = ⊥

-- A current, fresh and new snapshot of the Runtime in which the mode finds nothing, with no
-- operation in the way.
pub record Qualifies (mode : AutoStopMode) (r : AutoStopEvaluationRequest)
    (s : AutoStopActivitySnapshot) : Type 0 where
  pub named : is_empty r.runtime_id ≡ false
  pub threshold : is_zero r.fresh_after ≡ false
  pub activity : validate_auto_stop_activity s ≡ ok tt
  pub runtime : s.runtime_id ≡ r.runtime_id
  pub new : r.previous_snapshot_sequence < s.sequence
  pub fresh : r.fresh_after.instant ≤ s.observed_at.instant
  pub conflicts : r.conflicts ≡ []
  pub idle : Idle mode s

Idle-iff :
    (mode : AutoStopMode) (s : AutoStopActivitySnapshot) → (is_idle mode s ≡ true) ↔ Idle mode s
unfolding is_idle
Idle-iff when_disconnected s = (λ h. ground arith, λ h. ground arith)
Idle-iff when_agents_finish s = (λ h. ground arith, λ h. ground arith)
Idle-iff when_fully_idle s = (λ h. ground arith, λ h. ground arith)
Idle-iff manual s = (λ h. cc, λ h. absurd h)
Idle-iff (unknown_mode text) s = (λ h. cc, λ h. absurd h)

abbrev pub qualified : ℕ → AutoStopDecision
qualified n = record {
  qualifies = true;
  reason = sshai.AutoStop.Policy.qualifies;
  snapshot_sequence = n;
}

pub needs_snapshot :
    (p : AutoStopPolicy) (r : AutoStopEvaluationRequest) {d : AutoStopDecision}
    → r.snapshot ≡ none
    → evaluate p r ≡ ok d
    → d.qualifies ≡ false
unfolding evaluate
needs_snapshot p r e h = ground arith

module _ (p : AutoStopPolicy) (r : AutoStopEvaluationRequest) (s : AutoStopActivitySnapshot)
    (given : r.snapshot ≡ some s) where
  -- What was tested on the way to a decision that qualifies.
  pub passed :
      (d : AutoStopDecision)
      → evaluate p r ≡ ok d
      → d.qualifies ≡ true
      → (is_empty r.runtime_id ≡ false)
        × (is_zero r.fresh_after ≡ false)
        × (validate_auto_stop_activity s ≡ ok tt)
        × (s.runtime_id ≡ r.runtime_id)
        × (r.previous_snapshot_sequence < s.sequence)
        × (r.fresh_after.instant ≤ s.observed_at.instant)
        × (r.conflicts ≡ [])
        × (is_idle p.snapshot.mode s ≡ true)
        × (d ≡ qualified s.sequence)
  unfolding evaluate before
  passed d h q = ground (arith, same_text_iff s.runtime_id r.runtime_id)

  tests_pass :
      Qualifies p.snapshot.mode r s
      → is_manual p.snapshot.mode ≡ false
      → is_idle p.snapshot.mode s ≡ true
      → evaluate p r ≡ ok (qualified s.sequence)
  unfolding evaluate before validate_conflicts
  tests_pass w m i = ground (
    arith,
    w.named,
    w.threshold,
    w.activity,
    w.runtime,
    w.new,
    w.fresh,
    w.conflicts,
    same_text_iff s.runtime_id r.runtime_id,
  )

Idle-ne-manual :
    (mode : AutoStopMode) (s : AutoStopActivitySnapshot) → Idle mode s → is_manual mode ≡ false
Idle-ne-manual manual s h = absurd h
Idle-ne-manual _ s h = refl

-- With a snapshot at hand there is a decision that qualifies exactly when the snapshot does for the
-- policy's mode: the request has a Runtime and a freshness threshold, and the snapshot is valid, of
-- the Runtime, new, fresh, idle and without conflicts.
pub evaluate_qualifies_iff :
    (p : AutoStopPolicy) (r : AutoStopEvaluationRequest) (s : AutoStopActivitySnapshot)
    → r.snapshot ≡ some s
    → ((d : AutoStopDecision) × (evaluate p r ≡ ok d) × (d.qualifies ≡ true))
      ↔ Qualifies p.snapshot.mode r s
evaluate_qualifies_iff p r s given = (
  λ (d, h, q).
      let t = passed p r s given d h q in
      record {
        named = t.0;
        threshold = t.1;
        activity = t.2;
        runtime = t.3;
        new = t.4;
        fresh = t.5;
        conflicts = t.6;
        idle = (Idle-iff p.snapshot.mode s).0 t.7;
      },
  λ w. (
    qualified s.sequence,
    tests_pass p r s given w (Idle-ne-manual p.snapshot.mode s w.idle)
        ((Idle-iff p.snapshot.mode s).1 w.idle),
    refl,
  ),
)

-- A snapshot whose evaluation qualified is blocked as stale when the sequence number of that
-- decision is the previous one.
pub qualifies_once :
    (p : AutoStopPolicy) (r : AutoStopEvaluationRequest) (s : AutoStopActivitySnapshot)
    (d : AutoStopDecision)
    → r.snapshot ≡ some s
    → evaluate p r ≡ ok d
    → d.qualifies ≡ true
    → evaluate p (record r { previous_snapshot_sequence = d.snapshot_sequence })
      ≡ ok (blocked stale_sequence d.snapshot_sequence)
unfolding evaluate
qualifies_once p r s d given h q =
    let t = passed p r s given d h q in ground (arith, same_text_iff s.runtime_id r.runtime_id)

weaker-Idle :
    (mode : AutoStopMode) (s : AutoStopActivitySnapshot)
    → (mode ≡ when_disconnected) ⊎ (mode ≡ when_agents_finish)
    → Idle when_fully_idle s
    → Idle mode s
weaker-Idle mode s m h = ground arith

-- What qualifies for the mode that waits for full idleness qualifies for the two other modes.
pub fully_idle_is_strictest :
    (mode : AutoStopMode) (r : AutoStopEvaluationRequest) (s : AutoStopActivitySnapshot)
    → (mode ≡ when_disconnected) ⊎ (mode ≡ when_agents_finish)
    → Qualifies when_fully_idle r s
    → Qualifies mode r s
fully_idle_is_strictest mode r s m w = record {
  named = w.named;
  threshold = w.threshold;
  activity = w.activity;
  runtime = w.runtime;
  new = w.new;
  fresh = w.fresh;
  conflicts = w.conflicts;
  idle = weaker-Idle mode s m w.idle;
}
