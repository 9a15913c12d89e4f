-- ===== src/Runtime/Invariant.antt =====
-- libs/domain/runtime.go: what holds of every Runtime that the operations can reach.
use sshai.Base.{
  ◌≤◌, false, ◌≡◌, ◌≢◌, ◌⊎◌, inl, inr, arith, ℤ, is_nat, max_int64, inc_int64, Time, before,
  to_canonical, ok, ap, sym, ◌∙◌,
}
use sshai.Runtime.Status.{
  RuntimeStatus, absent, provisioning, starting, ready, stopping, stopped, replacing, error,
}
use sshai.Runtime.Snapshot.{
  RuntimeSnapshot, Runtime, RuntimeReservation, clone_runtime_snapshot, validate_runtime_snapshot,
  reserve_runtime, restore_runtime,
}
use sshai.Runtime.Operations.{
  finalize_runtime_transition, RuntimeCall, provision_call, mark_provision_error_call,
  begin_start_call, begin_stop_call, begin_replacement_call, mark_ready_call, mark_stopped_call,
  mark_error_call, retire_call, call_runtime,
}
use sshai.Runtime.WellFormed.{IsWellFormed, wellformed_of_valid}
use sshai.Runtime.Steps.{Accepts, change, Admits, time_of}
use sshai.Runtime.Cases.{call_runtime-Outcome}

-- A copy with canonical times is as well formed.
pub clone-IsWellFormed :
    {s : RuntimeSnapshot} → IsWellFormed s → IsWellFormed (clone_runtime_snapshot s)
unfolding clone_runtime_snapshot
clone-IsWellFormed w = ground arith

pub unclone-IsWellFormed :
    {s : RuntimeSnapshot} → IsWellFormed (clone_runtime_snapshot s) → IsWellFormed s
unfolding clone_runtime_snapshot
unclone-IsWellFormed w = ground arith

-- The status diagram.
infix 40 ◌⟶◌
pub data ◌⟶◌ : RuntimeStatus → RuntimeStatus → Type 0 where
  provision_edge : absent ⟶ provisioning
  allocation_fails : absent ⟶ error
  first_start : provisioning ⟶ starting
  restart : stopped ⟶ starting
  becomes_ready : starting ⟶ ready
  stop : ready ⟶ stopping
  halt : stopping ⟶ stopped
  fails : {s : RuntimeStatus} → s ≢ absent → s ≢ replacing → s ⟶ error
  replace_ready : ready ⟶ replacing
  replace_stopped : stopped ⟶ replacing
  replace_error : error ⟶ replacing
  retirement : replacing ⟶ absent

-- A change keeps the identity, follows an edge, counts one version and does not go back in time.
pub record Follows (s t : RuntimeSnapshot) : Type 0 where
  pub id : t.id ≡ s.id
  pub environment_id : t.environment_id ≡ s.environment_id
  pub sequence : t.sequence ≡ s.sequence
  pub runtime_preset : t.runtime_preset ≡ s.runtime_preset
  pub region : t.region ≡ s.region
  pub availability_zone : t.availability_zone ≡ s.availability_zone
  pub image_version : t.image_version ≡ s.image_version
  pub created_at : t.created_at ≡ s.created_at
  pub version : t.version ≡ inc_int64 s.version
  pub room : is_nat s.version max_int64 ≡ false
  pub updated : s.updated_at.instant ≤ t.updated_at.instant
  pub edge : s.status ⟶ t.status

module _ (n : RuntimeSnapshot) (at : Time) {r : Runtime}
    (done : finalize_runtime_transition n at ≡ ok r) where
  finalize-room : is_nat n.version max_int64 ≡ false
  unfolding finalize_runtime_transition
  finalize-room = ground arith

  finalize-valid :
      validate_runtime_snapshot
        (record n { updated_at = to_canonical at; version = inc_int64 n.version })
      ≡ ok tt
  unfolding finalize_runtime_transition
  finalize-valid = ground arith

  pub finalize-eq :
      r.snapshot
      ≡ clone_runtime_snapshot
          (record n { updated_at = to_canonical at; version = inc_int64 n.version })
  unfolding finalize_runtime_transition
  finalize-eq = ground arith

  pub finalize-IsWellFormed : IsWellFormed r.snapshot
  finalize-IsWellFormed = rw finalize-eq (clone-IsWellFormed (wellformed_of_valid _ finalize-valid))

change-edge : (c : RuntimeCall) (s : RuntimeSnapshot) → Admits c s → s.status ⟶ (change c s).status
change-edge (provision_call p at) s a = rw a.1 provision_edge
change-edge (mark_provision_error_call at) s a = rw a.0 allocation_fails
change-edge (begin_start_call at) s (inl e) = rw e first_start
change-edge (begin_start_call at) s (inr e) = rw e restart
change-edge (begin_stop_call at) s e = rw e stop
change-edge (begin_replacement_call at) s a =
    grind (arith, replace_ready, replace_stopped, replace_error)
change-edge (mark_ready_call o) s a = rw a.0 becomes_ready
change-edge (mark_stopped_call o) s a = rw a.0 halt
change-edge (mark_error_call o) s a = fails a.0 a.1
change-edge (retire_call o) s a = rw a.0 retirement

-- The fields of a finalized change that no call sets.
pub change-kept :
    (c : RuntimeCall) (s : RuntimeSnapshot)
    → let t = change c (clone_runtime_snapshot s) in
      (t.id ≡ s.id)
      × (t.environment_id ≡ s.environment_id)
      × (t.sequence ≡ s.sequence)
      × (t.runtime_preset ≡ s.runtime_preset)
      × (t.region ≡ s.region)
      × (t.availability_zone ≡ s.availability_zone)
      × (t.image_version ≡ s.image_version)
      × (t.created_at ≡ s.created_at)
      × (t.version ≡ s.version)
      × (t.status ≡ (change c s).status)
unfolding clone_runtime_snapshot
change-kept (begin_stop_call at) s = ground arith
change-kept _ s = ground arith

module _ (c : RuntimeCall) (r : Runtime) {r' : Runtime} (accepts : Accepts r.snapshot (time_of c))
    (admits : Admits c r.snapshot)
    (done : finalize_runtime_transition (change c (clone_runtime_snapshot r.snapshot)) (time_of c)
      ≡ ok r') where
  finalized-Follows : Follows r.snapshot r'.snapshot
  unfolding before clone_runtime_snapshot to_canonical
  finalized-Follows =
      let k = change-kept c r.snapshot in
      let e = finalize-eq _ _ done in
      record {
        id = ap (λ (s : RuntimeSnapshot). s.id) e ∙ k.0;
        environment_id = ap (λ (s : RuntimeSnapshot). s.environment_id) e ∙ k.1;
        sequence = ap (λ (s : RuntimeSnapshot). s.sequence) e ∙ k.2;
        runtime_preset = ap (λ (s : RuntimeSnapshot). s.runtime_preset) e ∙ k.3;
        region = ap (λ (s : RuntimeSnapshot). s.region) e ∙ k.4;
        availability_zone = ap (λ (s : RuntimeSnapshot). s.availability_zone) e ∙ k.5;
        image_version = ap (λ (s : RuntimeSnapshot). s.image_version) e ∙ k.6;
        created_at = ap (λ (s : RuntimeSnapshot). s.created_at) e ∙ k.7;
        version = ap (λ (s : RuntimeSnapshot). s.version) e ∙ ap inc_int64 k.8;
        room = ap (λ (v : ℤ). is_nat v max_int64) (sym k.8) ∙ finalize-room _ _ done;
        updated = rw e (ground (arith, accepts.later));
        edge = rw (e, k.9) (change-edge c r.snapshot admits);
      }

-- A call that succeeds returns the Runtime as it was, or a well-formed Runtime that follows it: of
-- the same identity, one version later, not earlier in time, and along an edge of the status
-- diagram.
pub call_runtime-Follows :
    (c : RuntimeCall) (r : Runtime) {r' : Runtime}
    → call_runtime c r ≡ ok r'
    → (r' ≡ r) ⊎ (Follows r.snapshot r'.snapshot × IsWellFormed r'.snapshot)
call_runtime-Follows c r h = elim (call_runtime-Outcome c r h) [
  | inl (same, repeats) ↦ inl same
  | inr (accepts, admits, done) ↦
      inr (finalized-Follows c r accepts admits done, finalize-IsWellFormed _ _ done)
]

-- The Runtimes that the package hands out.
pub data Reachable : Runtime → Type 0 where
  reserved : (v : RuntimeReservation) {r : Runtime} → reserve_runtime v ≡ ok r → Reachable r
  restored : (s : RuntimeSnapshot) {r : Runtime} → restore_runtime s ≡ ok r → Reachable r
  called :
      (c : RuntimeCall) {r r' : Runtime} → Reachable r → call_runtime c r ≡ ok r' → Reachable r'

reserve-IsWellFormed :
    (v : RuntimeReservation) {r : Runtime} → reserve_runtime v ≡ ok r → IsWellFormed r.snapshot
unfolding reserve_runtime
reserve-IsWellFormed v {r} h = wellformed_of_valid r.snapshot (ground arith)

restore-IsWellFormed :
    (s : RuntimeSnapshot) {r : Runtime} → restore_runtime s ≡ ok r → IsWellFormed r.snapshot
unfolding restore_runtime
restore-IsWellFormed s {r} h =
    let e : r.snapshot ≡ clone_runtime_snapshot s = ground arith in
    let v : validate_runtime_snapshot s ≡ ok tt = ground arith in
    rw e (clone-IsWellFormed (wellformed_of_valid s v))

-- Every Runtime that a reservation, a restored snapshot and any calls lead to is well formed.
pub Reachable-runtime-IsWellFormed : {r : Runtime} → Reachable r → IsWellFormed r.snapshot
Reachable-runtime-IsWellFormed (reserved v h) = reserve-IsWellFormed v h
Reachable-runtime-IsWellFormed (restored s h) = restore-IsWellFormed s h
Reachable-runtime-IsWellFormed (called c before h) = elim (call_runtime-Follows c _ h) [
  | inl same ↦ rw same (Reachable-runtime-IsWellFormed before)
  | inr (follows, w) ↦ w
]
