-- ===== src/AutoStop/Policy.antt =====
-- libs/domain/autostop.go: the Auto-stop Policy and its evaluation.
use sshai.Base.{
  ℕ, String, Bool, true, false, not, ◌&&◌, ◌||◌, Option, none, some, List, [], ◌∷◌, ℤ, is_nat,
  is_negative, above_nat, ◌==◌, leb, Time, before, is_zero, is_empty, same_text, Error, errors_new,
  errorf, Result, ok, err, ◌>>◌, fail_if, if◌then◌else◌,
}

pub data AutoStopMode : Type 0 where
  when_disconnected when_agents_finish when_fully_idle manual : AutoStopMode
  unknown_mode : String → AutoStopMode

pub record AutoStopPolicySnapshot : Type 0 where
  pub id : String
  pub environment_id : String
  pub mode : AutoStopMode
  pub grace_period_seconds : ℤ

pub record AutoStopPolicy : Type 0 where
  pub snapshot : AutoStopPolicySnapshot

abbrev unknown_mode_text : AutoStopMode → Option String
unknown_mode_text (unknown_mode s) = some s
unknown_mode_text _ = none

-- The `default` of the switch over the mode.
abbrev fail_if_unknown : Option String → (String → Error) → Result (Unit {0})
fail_if_unknown none e = ok tt
fail_if_unknown (some s) e = err (e s)

unfoldable pub new_auto_stop_policy : String → String → AutoStopMode → ℤ → Result AutoStopPolicy
new_auto_stop_policy id environment_id mode grace = do
  fail_if (is_empty id) (errors_new "create Auto-stop Policy: ID is required")
  fail_if (is_empty environment_id)
      (errors_new "create Auto-stop Policy: Environment ID is required")
  fail_if_unknown (unknown_mode_text mode)
      (λ s. errorf "create Auto-stop Policy: unknown mode %q" (s ∷ []))
  fail_if (is_negative grace || above_nat grace 86400)
      (errors_new "create Auto-stop Policy: grace period must be between 0 and 86400 seconds")
  ok (record {
    snapshot = record {
      id = id;
      environment_id = environment_id;
      mode = mode;
      grace_period_seconds = grace;
    };
  })

pub data AutoStopConflict : Type 0 where
  setup materialization start replace restore : AutoStopConflict
  unknown_conflict : String → AutoStopConflict

-- `sequence` is a uint64, and the counts are `int`s.
pub record AutoStopActivitySnapshot : Type 0 where
  pub runtime_id : String
  pub sequence : ℕ
  pub observed_at : Time
  pub ssh_connections : ℤ
  pub ide_connections : ℤ
  pub codex_processes : ℤ
  pub claude_processes : ℤ
  pub protected_processes : ℤ
  pub selected_containers : ℤ
  pub unknown_user_processes : ℤ

pub record AutoStopEvaluationRequest : Type 0 where
  pub runtime_id : String
  pub previous_snapshot_sequence : ℕ
  pub fresh_after : Time
  pub snapshot : Option AutoStopActivitySnapshot
  pub conflicts : List AutoStopConflict

-- `no_reason` is the empty text of a decision that was not made.
pub data AutoStopDecisionReason : Type 0 where
  no_reason qualifies activity blocked_manual missing_snapshot stale_snapshot stale_sequence
        runtime_changed conflicting_operation :
      AutoStopDecisionReason

pub record AutoStopDecision : Type 0 where
  pub qualifies : Bool
  pub reason : AutoStopDecisionReason
  pub snapshot_sequence : ℕ

abbrev pub blocked : AutoStopDecisionReason → ℕ → AutoStopDecision
blocked reason sequence = record {
  qualifies = false;
  reason = reason;
  snapshot_sequence = sequence;
}

any_negative : List ℤ → Bool
any_negative [] = false
any_negative (v ∷ rest) = is_negative v || any_negative rest

unfoldable pub validate_auto_stop_activity : AutoStopActivitySnapshot → Result (Unit {0})
unfolding any_negative
validate_auto_stop_activity s = do
  fail_if (is_empty s.runtime_id || s.sequence == 0 || is_zero s.observed_at) (
      errors_new
        "evaluate Auto-stop Policy: Activity Snapshot identity, sequence, and observation time are required")
  fail_if
      (any_negative (
        s.ssh_connections ∷ s.ide_connections ∷ s.codex_processes ∷ s.claude_processes
        ∷ s.protected_processes ∷ s.selected_containers ∷ s.unknown_user_processes ∷ []))
      (errors_new "evaluate Auto-stop Policy: Activity Snapshot counts cannot be negative")

-- The loop over the conflicts that fails at the first unknown one.
unfoldable pub validate_conflicts : List AutoStopConflict → Result (Unit {0})
validate_conflicts [] = ok tt
validate_conflicts (unknown_conflict s ∷ rest) =
    err (errorf "evaluate Auto-stop Policy: unknown conflict %q" (s ∷ []))
validate_conflicts (setup ∷ rest) = validate_conflicts rest
validate_conflicts (materialization ∷ rest) = validate_conflicts rest
validate_conflicts (start ∷ rest) = validate_conflicts rest
validate_conflicts (replace ∷ rest) = validate_conflicts rest
validate_conflicts (restore ∷ rest) = validate_conflicts rest

-- len(conflicts) > 0
abbrev pub has_conflicts : List AutoStopConflict → Bool
has_conflicts [] = false
has_conflicts (c ∷ rest) = true

-- The switch over the mode.
unfoldable pub is_idle : AutoStopMode → AutoStopActivitySnapshot → Bool
is_idle when_disconnected s = is_nat s.ssh_connections 0 && is_nat s.ide_connections 0
is_idle when_agents_finish s = is_nat s.codex_processes 0 && is_nat s.claude_processes 0
is_idle when_fully_idle s =
    is_nat s.ssh_connections 0
    && is_nat s.ide_connections 0
    && is_nat s.codex_processes 0
    && is_nat s.claude_processes 0
    && is_nat s.protected_processes 0
    && is_nat s.selected_containers 0
    && is_nat s.unknown_user_processes 0
is_idle manual s = false
is_idle (unknown_mode text) s = false

abbrev pub is_manual : AutoStopMode → Bool
is_manual manual = true
is_manual _ = false

evaluate_snapshot :
    AutoStopMode
    → AutoStopEvaluationRequest
    → Option AutoStopActivitySnapshot
    → Result AutoStopDecision
evaluate_snapshot mode request none = ok (blocked missing_snapshot 0)
evaluate_snapshot mode request (some s) = do
  validate_auto_stop_activity s
  if not (same_text s.runtime_id request.runtime_id)
      then ok (blocked runtime_changed s.sequence)
      else if leb s.sequence request.previous_snapshot_sequence
      then ok (blocked stale_sequence s.sequence)
      else if before s.observed_at request.fresh_after
      then ok (blocked stale_snapshot s.sequence)
      else (do
        validate_conflicts request.conflicts
        if has_conflicts request.conflicts
            then ok (blocked conflicting_operation s.sequence)
            else if not (is_idle mode s)
            then ok (blocked activity s.sequence)
            else ok (record {
              qualifies = true;
              reason = AutoStopDecisionReason.qualifies;
              snapshot_sequence = s.sequence;
            }))

unfoldable pub evaluate : AutoStopPolicy → AutoStopEvaluationRequest → Result AutoStopDecision
unfolding evaluate_snapshot
evaluate policy request =
    if is_manual policy.snapshot.mode then ok (blocked blocked_manual 0) else (do
      fail_if (is_empty request.runtime_id || is_zero request.fresh_after)
          (errors_new "evaluate Auto-stop Policy: Runtime ID and freshness threshold are required")
      evaluate_snapshot policy.snapshot.mode request request.snapshot)
