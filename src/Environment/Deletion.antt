-- ===== src/Environment/Deletion.antt =====
-- libs/domain/environment.go: an Environment without a Runtime can be deleted.
use sshai.Base.{
  ℕ, ◌+◌, ◌≤◌, false, none, some, ◌≡◌, refl, arith, ℤ, is_nat, max_int64, inc_int64, Time, before,
  is_zero, Result, ok, ◌>>=◌, ap, ◌∙◌,
}
use sshai.Environment.Snapshot.{
  active, deleting, deleted, same_lifecycle, is_valid_lifecycle, EnvironmentSnapshot, Environment,
}
use sshai.Environment.Operations.{
  transition_snapshot, finalize_environment_transition, begin_deletion, complete_deletion,
}
use sshai.Environment.WellFormed.{IsWellFormed, valid_of_wellformed}

transition_succeeds :
    (e : Environment) (at : Time)
    → IsWellFormed e.snapshot
    → e.snapshot.updated_at.instant ≤ at.instant
    → transition_snapshot e at ≡ ok e.snapshot
unfolding transition_snapshot is_zero before
transition_succeeds e at w later =
    ground (arith, valid_of_wellformed e.snapshot w, w.created, w.updated)

abbrev next_version : EnvironmentSnapshot → Time → EnvironmentSnapshot
next_version n at = record n { updated_at = at; version = inc_int64 n.version }

finalize_succeeds :
    (n : EnvironmentSnapshot) (at : Time)
    → is_nat n.version max_int64 ≡ false
    → IsWellFormed (next_version n at)
    → finalize_environment_transition n at ≡ ok (record { snapshot = next_version n at })
unfolding finalize_environment_transition
finalize_succeeds n at room w = ground (arith, valid_of_wellformed (next_version n at) w)

abbrev begun : EnvironmentSnapshot → Time → EnvironmentSnapshot
begun s at = next_version (record s { lifecycle = deleting }) at

abbrev ended : EnvironmentSnapshot → Time → EnvironmentSnapshot
ended s at = next_version (record s { lifecycle = deleted; deleted_at = some at }) at

module _ (s : EnvironmentSnapshot) (w : IsWellFormed s) (at : Time)
    (later : s.updated_at.instant ≤ at.instant) (room : is_nat s.version max_int64 ≡ false) where
  begun-IsWellFormed : s.lifecycle ≡ active → IsWellFormed (begun s at)
  unfolding is_valid_lifecycle inc_int64
  begun-IsWellFormed a = ground arith

  ended-IsWellFormed : s.current_runtime_id ≡ none → IsWellFormed (ended s at)
  unfolding is_valid_lifecycle inc_int64
  ended-IsWellFormed free = ground arith

begin_succeeds :
    (e : Environment) (at : Time)
    → IsWellFormed e.snapshot
    → e.snapshot.updated_at.instant ≤ at.instant
    → is_nat e.snapshot.version max_int64 ≡ false
    → e.snapshot.lifecycle ≡ active
    → begin_deletion e at ≡ ok (record { snapshot = begun e.snapshot at })
unfolding begin_deletion same_lifecycle
begin_succeeds e at w later room a = ground (
  arith,
  transition_succeeds e at w later,
  finalize_succeeds (record e.snapshot { lifecycle = deleting }) at room
      (begun-IsWellFormed e.snapshot w at later room a),
)

complete_succeeds :
    (e : Environment) (at : Time)
    → IsWellFormed e.snapshot
    → e.snapshot.updated_at.instant ≤ at.instant
    → is_nat e.snapshot.version max_int64 ≡ false
    → e.snapshot.lifecycle ≡ deleting
    → e.snapshot.current_runtime_id ≡ none
    → complete_deletion e at ≡ ok (record { snapshot = ended e.snapshot at })
unfolding complete_deletion same_lifecycle
complete_succeeds e at w later room d free = ground (
  arith,
  transition_succeeds e at w later,
  finalize_succeeds (record e.snapshot { lifecycle = deleted; deleted_at = some at }) at room
      (ended-IsWellFormed e.snapshot w at later room free),
)

-- A well-formed active Environment with no current Runtime, whose version is not one of the last two,
-- is deleted by beginning and completing its deletion at times that do not go back: both calls
-- succeed, and the result is deleted, at the time of the second.
pub deletion_succeeds :
    (e : Environment) (began finished : Time) (v : ℕ)
    → IsWellFormed e.snapshot
    → e.snapshot.lifecycle ≡ active
    → e.snapshot.current_runtime_id ≡ none
    → e.snapshot.version ≡ ℤ.pos v
    → v + 2 ≤ max_int64
    → e.snapshot.updated_at.instant ≤ began.instant
    → began.instant ≤ finished.instant
    → (e' : Environment) × ((do
      deletion ← begin_deletion e began
      complete_deletion deletion finished)
        ≡ ok e')
      × (e'.snapshot.lifecycle ≡ deleted)
      × (e'.snapshot.deleted_at ≡ some finished)
unfolding inc_int64
deletion_succeeds e began finished v w a free ver room l m =
    let r1 : is_nat e.snapshot.version max_int64 ≡ false = ground arith in
    let r2 : is_nat (inc_int64 e.snapshot.version) max_int64 ≡ false = ground arith in
    let first = begin_succeeds e began w l r1 a in
    let second =
      complete_succeeds (record { snapshot = begun e.snapshot began }) finished
        (begun-IsWellFormed e.snapshot w began l r1 a) m r2 refl free in
    (
      record { snapshot = ended (begun e.snapshot began) finished },
      ap (λ (r : Result Environment). r >>= λ d. complete_deletion d finished) first ∙ second,
      refl,
      refl,
    )
