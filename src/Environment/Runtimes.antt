-- ===== src/Environment/Runtimes.antt =====
-- libs/domain/environment.go: which Runtime an Environment has, and when, and its end.
use sshai.Base.{
  true, none, some, ◌≡◌, ◌≢◌, ◌⊎◌, inl, inr, arith, ap, ℤ, same_int, inc_int64, same_text_iff,
  is_some, Time, ok,
}
use sshai.Runtime.Status.{absent, same_status}
use sshai.Runtime.Snapshot.{RuntimeSnapshot, Runtime, clone_runtime_snapshot}
use sshai.Environment.Snapshot.{deleted, EnvironmentSnapshot, Environment}
use sshai.Environment.Operations.{
  validate_runtime_ownership, validate_initial_runtime, attach_runtime, validate_retired_runtime,
  detach_runtime, validate_runtime_replacement, replace_runtime,
}
use sshai.Environment.Steps.{
  EnvironmentCall, activate_call, update_health_call, attach_call, detach_call, replace_call,
  call_environment, Repeats,
}
use sshai.Environment.Cases.{call_environment-Outcome, attach-cases, detach-cases, replace-cases}
use sshai.Environment.Invariant.{finalize-eq, change-edge, source-ne-deleted}

-- The Runtime belongs to the Environment and has its placement and preset.
pub record Owns (s : EnvironmentSnapshot) (r : RuntimeSnapshot) : Type 0 where
  pub environment_id : r.environment_id ≡ s.id
  pub region : r.region ≡ s.region
  pub availability_zone : r.availability_zone ≡ s.availability_zone
  pub runtime_preset : r.runtime_preset ≡ s.runtime_preset

-- Reserved and not yet provisioned.
abbrev pub Fresh : RuntimeSnapshot → Type 0
Fresh r = (r.status ≡ absent) × (r.retired_at ≡ none) × (r.provider_instance_ref ≡ none)

abbrev pub Retired : RuntimeSnapshot → Type 0
Retired r = (r.status ≡ absent) × (is_some r.retired_at ≡ true)

pub ownership-Owns :
    (s : EnvironmentSnapshot) (r : RuntimeSnapshot)
    → validate_runtime_ownership s r ≡ ok tt
    → Owns s r
unfolding validate_runtime_ownership
ownership-Owns s r h = ground (
  arith,
  same_text_iff r.environment_id s.id,
  same_text_iff r.region s.region,
  same_text_iff r.availability_zone s.availability_zone,
  same_text_iff r.runtime_preset s.runtime_preset,
)

same_int-eq : (a b : ℤ) → same_int a b ≡ true → a ≡ b
same_int-eq a b h = ground arith

module _ (s : EnvironmentSnapshot) (r : Runtime) where
  initial-Fresh :
      validate_initial_runtime s (clone_runtime_snapshot r.snapshot) ≡ ok tt
      → Owns s r.snapshot × Fresh r.snapshot × (r.snapshot.sequence ≡ ℤ.pos 1)
  unfolding validate_initial_runtime same_status clone_runtime_snapshot
  initial-Fresh h = (
    ground (arith, ownership-Owns s (clone_runtime_snapshot r.snapshot)),
    ground arith,
    ground arith,
  )

  validate_retired_runtime-Retired :
      validate_retired_runtime s (clone_runtime_snapshot r.snapshot) ≡ ok tt
      → Owns s r.snapshot × Retired r.snapshot
  unfolding validate_retired_runtime same_status clone_runtime_snapshot
  validate_retired_runtime-Retired h =
      (ground (arith, ownership-Owns s (clone_runtime_snapshot r.snapshot)), ground arith)

replacement-checked :
    (s : EnvironmentSnapshot) (old new : Runtime)
    → validate_runtime_replacement s
        (clone_runtime_snapshot old.snapshot)
        (clone_runtime_snapshot new.snapshot)
      ≡ ok tt
    → Owns s old.snapshot
      × Retired old.snapshot
      × Owns s new.snapshot
      × Fresh new.snapshot
      × (new.snapshot.sequence ≡ inc_int64 old.snapshot.sequence)
unfolding validate_runtime_replacement same_status clone_runtime_snapshot
replacement-checked s old new h = (
  ground (arith, ownership-Owns s (clone_runtime_snapshot old.snapshot)),
  ground arith,
  ground (arith, ownership-Owns s (clone_runtime_snapshot new.snapshot)),
  ground arith,
  ground (arith, same_int-eq new.snapshot.sequence (inc_int64 old.snapshot.sequence)),
)

-- After an attachment that succeeds the Runtime is current. Unless the Environment is as it was, it
-- had no Runtime, and the Runtime is its own, fresh and the first of its sequence.
pub attach_runtime_current :
    (e : Environment) (r : Runtime) (at : Time) {e' : Environment}
    → attach_runtime e r at ≡ ok e'
    → (e'.snapshot.current_runtime_id ≡ some r.snapshot.id)
      × ((e' ≡ e)
          ⊎ ((e.snapshot.current_runtime_id ≡ none)
              × Owns e.snapshot r.snapshot
              × Fresh r.snapshot
              × (r.snapshot.sequence ≡ ℤ.pos 1)))
attach_runtime_current e r at h = elim (attach-cases e r at h) [
  | inl (same, repeats) ↦ (rw same repeats.0, inl same)
  | inr (accepts, admits, done) ↦
      let c = initial-Fresh e.snapshot r admits.0 in
      (
        ap (λ (s : EnvironmentSnapshot). s.current_runtime_id) (finalize-eq _ _ done),
        inr (admits.2, c.0, c.1, c.2),
      )
]

-- After a detachment the Environment has no Runtime; the one that it lost is its own, and retired.
pub detach_runtime-none :
    (e : Environment) (r : Runtime) (at : Time) {e' : Environment}
    → detach_runtime e r at ≡ ok e'
    → (e'.snapshot.current_runtime_id ≡ none)
      × ((e' ≡ e)
          ⊎ ((e.snapshot.current_runtime_id ≡ some r.snapshot.id)
              × Owns e.snapshot r.snapshot
              × Retired r.snapshot))
detach_runtime-none e r at h = elim (detach-cases e r at h) [
  | inl (same, repeats) ↦ (rw same repeats.0, inl same)
  | inr (accepts, admits, done) ↦
      let c = validate_retired_runtime-Retired e.snapshot r admits.0 in
      (
        ap (λ (s : EnvironmentSnapshot). s.current_runtime_id) (finalize-eq _ _ done),
        inr (admits.2, c.0, c.1),
      )
]

-- After a replacement the new Runtime is current. Unless it was current before, it takes over from
-- the old one, which is retired; both are the Environment's, the new one is fresh, and its sequence
-- number is the next.
pub replace_runtime_handover :
    (e : Environment) (old new : Runtime) (at : Time) {e' : Environment}
    → replace_runtime e old new at ≡ ok e'
    → (e'.snapshot.current_runtime_id ≡ some new.snapshot.id)
      × ((e' ≡ e)
          ⊎ ((e.snapshot.current_runtime_id ≡ some old.snapshot.id)
              × Owns e.snapshot old.snapshot
              × Retired old.snapshot
              × Owns e.snapshot new.snapshot
              × Fresh new.snapshot
              × (new.snapshot.sequence ≡ inc_int64 old.snapshot.sequence)))
replace_runtime_handover e old new at h = elim (replace-cases e old new at h) [
  | inl (same, repeats) ↦ (rw same repeats.0, inl same)
  | inr (accepts, admits, done) ↦
      let c = replacement-checked e.snapshot old new admits.0 in
      (
        ap (λ (s : EnvironmentSnapshot). s.current_runtime_id) (finalize-eq _ _ done),
        inr (admits.2, c.0, c.1, c.2, c.3, c.4),
      )
]

Repeats-ne-deleted :
    (c : EnvironmentCall) (s : EnvironmentSnapshot) → Repeats c s → s.lifecycle ≢ deleted
Repeats-ne-deleted (activate_call at) s r e = absurd r
Repeats-ne-deleted (update_health_call verdict at) s r e = r.1 e
Repeats-ne-deleted (attach_call runtime at) s r e = ground arith
Repeats-ne-deleted (detach_call runtime at) s r e = r.1 e
Repeats-ne-deleted (replace_call old new at) s r e = ground arith
Repeats-ne-deleted _ s r e = absurd r

-- No call succeeds on a deleted Environment.
pub deleted_is_final :
    (c : EnvironmentCall) (e e' : Environment)
    → e.snapshot.lifecycle ≡ deleted
    → call_environment c e ≢ ok e'
deleted_is_final c e e' d h = elim (call_environment-Outcome c e h) [
  | inl (same, repeats) ↦ Repeats-ne-deleted c e.snapshot repeats d
  | inr (accepts, admits, done) ↦ source-ne-deleted (change-edge c e.snapshot admits) d
]

pub Owns-ownership :
    (s : EnvironmentSnapshot) (r : RuntimeSnapshot)
    → Owns s r
    → validate_runtime_ownership s r ≡ ok tt
unfolding validate_runtime_ownership
Owns-ownership s r w = ground (
  arith,
  same_text_iff r.environment_id s.id,
  same_text_iff r.region s.region,
  same_text_iff r.availability_zone s.availability_zone,
  same_text_iff r.runtime_preset s.runtime_preset,
)
