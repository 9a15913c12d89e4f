-- ===== src/Environment/Invariant.antt =====
-- libs/domain/environment.go: what holds of every Environment that the operations can reach.
use sshai.Base.{
  ◌≤◌, false, ◌≡◌, ◌≢◌, ◌⊎◌, inl, inr, arith, ap, sym, ◌∙◌, ℤ, is_nat, max_int64, inc_int64, Time,
  before, ok,
}
use sshai.Environment.Snapshot.{
  EnvironmentLifecycle, creating, active, deleting, deleted, EnvironmentReservation,
  EnvironmentSnapshot, Environment, validate_environment_snapshot, reserve_environment,
  restore_environment,
}
use sshai.Environment.Operations.{finalize_environment_transition}
use sshai.Environment.WellFormed.{IsWellFormed, wellformed_of_valid}
use sshai.Environment.Steps.{
  EnvironmentCall, activate_call, begin_deletion_call, complete_deletion_call, update_health_call,
  pin_call, repin_call, attach_call, detach_call, replace_call, call_environment, time_of, Accepts,
  Admits, change,
}
use sshai.Environment.Cases.{call_environment-Outcome}

-- The lifecycle goes one way; every other call leaves it.
infix 40 ◌⟶◌
pub data ◌⟶◌ : EnvironmentLifecycle → EnvironmentLifecycle → Type 0 where
  activation : creating ⟶ active
  deletion_begins : active ⟶ deleting
  deletion_ends : deleting ⟶ deleted
  stays : {l : EnvironmentLifecycle} → l ≢ deleted → l ⟶ l

pub record Follows (s t : EnvironmentSnapshot) : Type 0 where
  pub id : t.id ≡ s.id
  pub owner_user_id : t.owner_user_id ≡ s.owner_user_id
  pub name : t.name ≡ s.name
  pub slug : t.slug ≡ s.slug
  pub region : t.region ≡ s.region
  pub availability_zone : t.availability_zone ≡ s.availability_zone
  pub runtime_preset : t.runtime_preset ≡ s.runtime_preset
  pub pinned_profile_version_id : t.pinned_profile_version_id ≡ s.pinned_profile_version_id
  pub auto_stop_policy_id : t.auto_stop_policy_id ≡ s.auto_stop_policy_id
  pub created_at : t.created_at ≡ s.created_at
  pub version : t.version ≡ inc_int64 s.version
  pub room : is_nat s.version max_int64 ≡ false
  pub updated : s.updated_at.instant ≤ t.updated_at.instant
  pub edge : s.lifecycle ⟶ t.lifecycle

module _ (n : EnvironmentSnapshot) (at : Time) {e : Environment}
    (done : finalize_environment_transition n at ≡ ok e) where
  finalize-room : is_nat n.version max_int64 ≡ false
  unfolding finalize_environment_transition
  finalize-room = ground arith

  pub finalize-eq : e.snapshot ≡ record n { updated_at = at; version = inc_int64 n.version }
  unfolding finalize_environment_transition
  finalize-eq = ground arith

  finalize-valid :
      validate_environment_snapshot (record n { updated_at = at; version = inc_int64 n.version })
      ≡ ok tt
  unfolding finalize_environment_transition
  finalize-valid = ground arith

  pub finalize-IsWellFormed : IsWellFormed e.snapshot
  finalize-IsWellFormed = rw finalize-eq (wellformed_of_valid _ finalize-valid)

lives :
    (s : EnvironmentSnapshot)
    → (s.lifecycle ≡ creating) ⊎ (s.lifecycle ≡ active)
    → s.lifecycle ≢ deleted
lives s h d = ground arith

pub change-edge :
    (c : EnvironmentCall) (s : EnvironmentSnapshot)
    → Admits c s
    → s.lifecycle ⟶ (change c s).lifecycle
change-edge (activate_call at) s a = rw a activation
change-edge (begin_deletion_call at) s a = rw a deletion_begins
change-edge (complete_deletion_call at) s a = rw a.0 deletion_ends
change-edge (update_health_call verdict at) s a = stays a.1
change-edge (pin_call lock policy at) s a = stays a.0.3
change-edge (repin_call lock policy at) s a = stays a.3
change-edge (attach_call runtime at) s a = stays (lives s a.1)
change-edge (detach_call runtime at) s a = stays a.1
change-edge (replace_call retired replacement at) s a = stays (lives s a.1)

change-kept :
    (c : EnvironmentCall) (s : EnvironmentSnapshot)
    → let t = change c s in
      (t.id ≡ s.id)
      × (t.owner_user_id ≡ s.owner_user_id)
      × (t.name ≡ s.name)
      × (t.slug ≡ s.slug)
      × (t.region ≡ s.region)
      × (t.availability_zone ≡ s.availability_zone)
      × (t.runtime_preset ≡ s.runtime_preset)
      × (t.pinned_profile_version_id ≡ s.pinned_profile_version_id)
      × (t.auto_stop_policy_id ≡ s.auto_stop_policy_id)
      × (t.created_at ≡ s.created_at)
      × (t.version ≡ s.version)
change-kept (activate_call at) s = ground arith
change-kept _ s = ground arith

module _ (c : EnvironmentCall) (e : Environment) {e' : Environment}
    (accepts : Accepts e.snapshot (time_of c)) (admits : Admits c e.snapshot)
    (done : finalize_environment_transition (change c e.snapshot) (time_of c) ≡ ok e') where
  finalized-Follows : Follows e.snapshot e'.snapshot
  unfolding before
  finalized-Follows =
      let k = change-kept c e.snapshot in
      let q = finalize-eq _ _ done in
      record {
        id = ap (λ (s : EnvironmentSnapshot). s.id) q ∙ k.0;
        owner_user_id = ap (λ (s : EnvironmentSnapshot). s.owner_user_id) q ∙ k.1;
        name = ap (λ (s : EnvironmentSnapshot). s.name) q ∙ k.2;
        slug = ap (λ (s : EnvironmentSnapshot). s.slug) q ∙ k.3;
        region = ap (λ (s : EnvironmentSnapshot). s.region) q ∙ k.4;
        availability_zone = ap (λ (s : EnvironmentSnapshot). s.availability_zone) q ∙ k.5;
        runtime_preset = ap (λ (s : EnvironmentSnapshot). s.runtime_preset) q ∙ k.6;
        pinned_profile_version_id =
            ap (λ (s : EnvironmentSnapshot). s.pinned_profile_version_id) q ∙ k.7;
        auto_stop_policy_id = ap (λ (s : EnvironmentSnapshot). s.auto_stop_policy_id) q ∙ k.8;
        created_at = ap (λ (s : EnvironmentSnapshot). s.created_at) q ∙ k.9;
        version = ap (λ (s : EnvironmentSnapshot). s.version) q ∙ ap inc_int64 k.10;
        room = ap (λ (v : ℤ). is_nat v max_int64) (sym k.10) ∙ finalize-room _ _ done;
        updated = rw q (ground (arith, accepts.later));
        edge = rw q (change-edge c e.snapshot admits);
      }

-- A call that succeeds returns the Environment as it was, or a well-formed one that follows it: of
-- the same identity, one version later, not earlier in time, and along an edge of the lifecycle
-- diagram.
pub call_environment-Follows :
    (c : EnvironmentCall) (e : Environment) {e' : Environment}
    → call_environment c e ≡ ok e'
    → (e' ≡ e) ⊎ (Follows e.snapshot e'.snapshot × IsWellFormed e'.snapshot)
call_environment-Follows c e h = elim (call_environment-Outcome c e h) [
  | inl (same, repeats) ↦ inl same
  | inr (accepts, admits, done) ↦
      inr (finalized-Follows c e accepts admits done, finalize-IsWellFormed _ _ done)
]

-- The Environments that the package hands out.
pub data Reachable : Environment → Type 0 where
  reserved :
      (v : EnvironmentReservation) {e : Environment} → reserve_environment v ≡ ok e → Reachable e
  restored :
      (s : EnvironmentSnapshot) {e : Environment} → restore_environment s ≡ ok e → Reachable e
  called :
      (c : EnvironmentCall) {e e' : Environment}
      → Reachable e
      → call_environment c e ≡ ok e'
      → Reachable e'

reserve-IsWellFormed :
    (v : EnvironmentReservation) {e : Environment}
    → reserve_environment v ≡ ok e
    → IsWellFormed e.snapshot
unfolding reserve_environment
reserve-IsWellFormed v {e} h = wellformed_of_valid e.snapshot (ground arith)

restore-IsWellFormed :
    (s : EnvironmentSnapshot) {e : Environment}
    → restore_environment s ≡ ok e
    → IsWellFormed e.snapshot
unfolding restore_environment
restore-IsWellFormed s {e} h = wellformed_of_valid e.snapshot (ground arith)

-- Every Environment that a reservation, a restored snapshot and any calls lead to is well formed.
pub Reachable-environment-IsWellFormed : {e : Environment} → Reachable e → IsWellFormed e.snapshot
Reachable-environment-IsWellFormed (reserved v h) = reserve-IsWellFormed v h
Reachable-environment-IsWellFormed (restored s h) = restore-IsWellFormed s h
Reachable-environment-IsWellFormed (called c before h) = elim (call_environment-Follows c _ h) [
  | inl same ↦ rw same (Reachable-environment-IsWellFormed before)
  | inr (follows, w) ↦ w
]

pub source-ne-deleted : {l m : EnvironmentLifecycle} → l ⟶ m → l ≢ deleted
source-ne-deleted activation e = cc
source-ne-deleted deletion_begins e = cc
source-ne-deleted deletion_ends e = cc
source-ne-deleted (stays n) e = n e
