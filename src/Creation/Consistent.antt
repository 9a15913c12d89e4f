-- ===== src/Creation/Consistent.antt =====
-- libs/domain/environment.go: what a creation is made of, and what completing it does.
use sshai.Base.{
  String, true, false, Option, none, some, List, [], ◌∷◌, ◌≡◌, ◌↔◌, inl, inr, refl, ap, ◌∙◌, sym,
  arith, Time, is_empty, same_text_iff, is_some, ok, bind_ok, ℤ,
}
use sshai.Runtime.Snapshot.{RuntimeReservation, Runtime, reserve_runtime}
use sshai.Operation.Model.{
  Operation, start, succeed, succeeded, start_call, succeed_call, call_operation,
}
use sshai.Operation.Lifecycle.{call_operation-Keeps}
use sshai.AutoStop.Policy.{AutoStopPolicy}
use sshai.Environment.Snapshot.{Environment, EnvironmentSnapshot, active, healthy}
use sshai.Environment.Operations.{activate, update_health, attach_runtime}
use sshai.Environment.Results.{activate-eq, update_health-kept}
use sshai.Environment.Runtimes.{Owns, Fresh, attach_runtime_current}
use sshai.Creation.Model.{
  EnvironmentCreation, contains, check_keys, no_keys, new_environment_creation,
  reserve_initial_runtime, complete,
}

-- Each ID is set and is none of those seen before or of those that follow.
abbrev pub Distinct : List String → List String → Type 0
Distinct seen [] = Unit {0}
Distinct seen (id ∷ rest) =
    (is_empty id ≡ false) × (contains seen id ≡ false) × Distinct (id ∷ seen) rest

check_keys_iff : (seen ids : List String) → (check_keys seen ids ≡ ok tt) ↔ Distinct seen ids
unfolding check_keys
check_keys_iff seen [] = (λ h. tt, λ h. refl)
check_keys_iff seen (id ∷ rest) = (
  λ h. ground (arith, check_keys_iff (id ∷ seen) rest),
  λ h. ground (arith, check_keys_iff (id ∷ seen) rest),
)

-- The parts belong together.
pub record IsConsistent (c : EnvironmentCreation) : Type 0 where
  pub environment_id : is_empty c.environment.snapshot.id ≡ false
  pub policy_id : is_empty c.policy.snapshot.id ≡ false
  pub operation_id : is_empty c.operation.snapshot.id ≡ false
  pub policy_of_environment : c.environment.snapshot.auto_stop_policy_id ≡ c.policy.snapshot.id
  pub environment_of_policy : c.policy.snapshot.environment_id ≡ c.environment.snapshot.id
  pub environment_of_operation : c.operation.snapshot.environment_id ≡ c.environment.snapshot.id
  pub owner : c.operation.snapshot.requested_by_user_id ≡ c.environment.snapshot.owner_user_id
  pub project_seed : is_empty c.project_seed_id ≡ false
  pub some_key : no_keys c.ssh_key_ids ≡ false
  pub keys : Distinct [] c.ssh_key_ids

module _ (e : Environment) (p : AutoStopPolicy) (o : Operation) (seed : String)
    (keys : List String) where
  abbrev made : EnvironmentCreation
  made = record {
    environment = e;
    policy = p;
    operation = o;
    project_seed_id = seed;
    ssh_key_ids = keys;
  }

  -- A creation is made exactly of parts that belong together, and holds them.
  pub new_environment_creation_iff :
      (c : EnvironmentCreation)
      → (new_environment_creation e p o seed keys ≡ ok c) ↔ ((c ≡ made) × IsConsistent made)
  unfolding new_environment_creation
  new_environment_creation_iff c = (
    λ h. ground (
      arith,
      same_text_iff e.snapshot.auto_stop_policy_id p.snapshot.id,
      same_text_iff p.snapshot.environment_id e.snapshot.id,
      same_text_iff o.snapshot.environment_id e.snapshot.id,
      same_text_iff o.snapshot.requested_by_user_id e.snapshot.owner_user_id,
      check_keys_iff [] keys,
    ),
    λ h. ground (
      arith,
      same_text_iff e.snapshot.auto_stop_policy_id p.snapshot.id,
      same_text_iff p.snapshot.environment_id e.snapshot.id,
      same_text_iff o.snapshot.environment_id e.snapshot.id,
      same_text_iff o.snapshot.requested_by_user_id e.snapshot.owner_user_id,
      check_keys_iff [] keys,
    ),
  )

-- What a step of a creation leaves as it was.
record Holds (c d : EnvironmentCreation) : Type 0 where
  environment_id : d.environment.snapshot.id ≡ c.environment.snapshot.id
  owner : d.environment.snapshot.owner_user_id ≡ c.environment.snapshot.owner_user_id
  policy_id :
      d.environment.snapshot.auto_stop_policy_id ≡ c.environment.snapshot.auto_stop_policy_id
  operation_id : d.operation.snapshot.id ≡ c.operation.snapshot.id
  operation_environment : d.operation.snapshot.environment_id ≡ c.operation.snapshot.environment_id
  operation_owner :
      d.operation.snapshot.requested_by_user_id ≡ c.operation.snapshot.requested_by_user_id
  policy : d.policy ≡ c.policy
  seed : d.project_seed_id ≡ c.project_seed_id
  keys : d.ssh_key_ids ≡ c.ssh_key_ids

Holds-IsConsistent : (c d : EnvironmentCreation) → Holds c d → IsConsistent c → IsConsistent d
Holds-IsConsistent c d h w = record {
  environment_id = rw h.environment_id w.environment_id;
  policy_id = rw h.policy w.policy_id;
  operation_id = rw h.operation_id w.operation_id;
  policy_of_environment = rw (h.policy_id, h.policy) w.policy_of_environment;
  environment_of_policy = rw (h.policy, h.environment_id) w.environment_of_policy;
  environment_of_operation =
      rw (h.operation_environment, h.environment_id) w.environment_of_operation;
  owner = rw (h.operation_owner, h.owner) w.owner;
  project_seed = rw h.seed w.project_seed;
  some_key = rw h.keys w.some_key;
  keys = rw h.keys w.keys;
}

-- What a completed creation is: the Environment is active and healthy with the Runtime that it had,
-- and the Operation has succeeded, at the time of the call. Nothing else changes but the time and
-- the version of the Environment.
pub record IsComplete (c d : EnvironmentCreation) (at : Time) : Type 0 where
  pub lifecycle : d.environment.snapshot.lifecycle ≡ active
  pub health : d.environment.snapshot.health ≡ healthy
  pub had_runtime : is_some c.environment.snapshot.current_runtime_id ≡ true
  pub same_runtime :
      d.environment.snapshot.current_runtime_id ≡ c.environment.snapshot.current_runtime_id
  pub environment_kept :
      record d.environment.snapshot {
        lifecycle = c.environment.snapshot.lifecycle;
        health = c.environment.snapshot.health;
        updated_at = c.environment.snapshot.updated_at;
        version = c.environment.snapshot.version;
      }
      ≡ c.environment.snapshot
  pub operation :
      d.operation.snapshot
      ≡ record c.operation.snapshot { status = succeeded; completed_at = some at }
  pub policy : d.policy ≡ c.policy
  pub project_seed : d.project_seed_id ≡ c.project_seed_id
  pub ssh_keys : d.ssh_key_ids ≡ c.ssh_key_ids

complete-parts :
    (c : EnvironmentCreation) (at : Time) (d : EnvironmentCreation)
    → complete c at ≡ ok d
    → (is_some c.environment.snapshot.current_runtime_id ≡ true)
      × (d ≡ record c { environment = d.environment; operation = d.operation })
      × ((started : Operation) × (start c.operation at ≡ ok started)
          × (succeed started at ≡ ok d.operation))
      × ((activated : Environment) × (activate c.environment at ≡ ok activated)
          × (update_health activated healthy at ≡ ok d.environment))
unfolding complete
complete-parts c at d h =
    let had : is_some c.environment.snapshot.current_runtime_id ≡ true = ground arith in
    let (started, began, h1) = bind_ok (start c.operation at) _ (rw had at h) in
    let (activated, act, h2) = bind_ok (activate c.environment at) _ h1 in
    let (environment, upd, h3) = bind_ok (update_health activated healthy at) _ h2 in
    let (operation, ended, h4) = bind_ok (succeed started at) _ h3 in
    (had, ground arith, (started, began, ground arith), (activated, act, ground arith))

started-succeed :
    (o : Operation) (at : Time) {started finished : Operation}
    → start o at ≡ ok started
    → succeed started at ≡ ok finished
    → finished.snapshot ≡ record o.snapshot { status = succeeded; completed_at = some at }
unfolding start succeed
started-succeed o at h k = ground arith

-- Completing a consistent creation with success activates its Environment, reports it healthy and
-- lets its Operation succeed at the time of the call. Beside these and the time and the version of
-- the Environment it keeps all fields of the Environment and of the Operation, the policy, the
-- Project Seed and the SSH keys, and it is consistent again.
pub complete_lem :
    (c : EnvironmentCreation) (at : Time) {d : EnvironmentCreation}
    → IsConsistent c
    → complete c at ≡ ok d
    → IsComplete c d at × IsConsistent d
unfolding call_operation
complete_lem c at {d} w h =
    let (had, eq, (started, began, ended), (activated, act, upd)) = complete-parts c at d h in
    let a = (activate-eq c.environment at act).1 in
    let u = update_health-kept activated healthy at upd in
    let k = call_operation-Keeps (start_call at) c.operation began in
    let l = call_operation-Keeps (succeed_call at) started ended in
    let restored : EnvironmentSnapshot → EnvironmentSnapshot = λ s. record s {
      lifecycle = c.environment.snapshot.lifecycle;
      health = c.environment.snapshot.health;
      updated_at = c.environment.snapshot.updated_at;
      version = c.environment.snapshot.version;
    } in
    (
      record {
        lifecycle =
            ap (λ (s : EnvironmentSnapshot). s.lifecycle) u.1
            ∙ ap (λ (s : EnvironmentSnapshot). s.lifecycle) a;
        health = u.0;
        had_runtime = had;
        same_runtime =
            ap (λ (s : EnvironmentSnapshot). s.current_runtime_id) u.1
            ∙ ap (λ (s : EnvironmentSnapshot). s.current_runtime_id) a;
        environment_kept = ap restored u.1 ∙ ap restored a;
        operation = started-succeed c.operation at began ended;
        policy = ap (λ (x : EnvironmentCreation). x.policy) eq;
        project_seed = ap (λ (x : EnvironmentCreation). x.project_seed_id) eq;
        ssh_keys = ap (λ (x : EnvironmentCreation). x.ssh_key_ids) eq;
      },
      Holds-IsConsistent c d
          (record {
            environment_id =
                ap (λ (s : EnvironmentSnapshot). s.id) u.1
                ∙ ap (λ (s : EnvironmentSnapshot). s.id) a;
            owner =
                ap (λ (s : EnvironmentSnapshot). s.owner_user_id) u.1
                ∙ ap (λ (s : EnvironmentSnapshot). s.owner_user_id) a;
            policy_id =
                ap (λ (s : EnvironmentSnapshot). s.auto_stop_policy_id) u.1
                ∙ ap (λ (s : EnvironmentSnapshot). s.auto_stop_policy_id) a;
            operation_id = l.id ∙ k.id;
            operation_environment = l.environment_id ∙ k.environment_id;
            operation_owner = l.requested_by_user_id ∙ k.requested_by_user_id;
            policy = ap (λ (x : EnvironmentCreation). x.policy) eq;
            seed = ap (λ (x : EnvironmentCreation). x.project_seed_id) eq;
            keys = ap (λ (x : EnvironmentCreation). x.ssh_key_ids) eq;
          })
          w,
    )

reserve-parts :
    (c : EnvironmentCreation) (v : RuntimeReservation) (d : EnvironmentCreation) (r : Runtime)
    → reserve_initial_runtime c v ≡ ok (d, r)
    → (c.environment.snapshot.current_runtime_id ≡ none)
      × (d ≡ record c { environment = d.environment })
      × (reserve_runtime v ≡ ok r)
      × (attach_runtime c.environment r v.created_at ≡ ok d.environment)
unfolding reserve_initial_runtime
reserve-parts c v d r h =
    let free : is_some c.environment.snapshot.current_runtime_id ≡ false = ground arith in
    let (runtime, made_now, h1) = bind_ok (reserve_runtime v) _ (rw free at h) in
    let (environment, attached, h2) =
      bind_ok (attach_runtime c.environment runtime v.created_at) _ h1 in
    (ground arith, ground arith, ground arith, ground arith)

some_ne_none : {t : String} → ◌≡◌ {A = Option String} (some t) none → ⊥
some_ne_none e = cc

-- When the reservation of the initial Runtime succeeds, the Environment had no Runtime and now has
-- the new one, which is fresh, its own, and the first of its sequence; the Operation and
-- the policy stay.
pub reserve_initial_runtime_lem :
    (c : EnvironmentCreation) (v : RuntimeReservation) {d : EnvironmentCreation} {r : Runtime}
    → reserve_initial_runtime c v ≡ ok (d, r)
    → (c.environment.snapshot.current_runtime_id ≡ none)
      × (d.environment.snapshot.current_runtime_id ≡ some r.snapshot.id)
      × Owns c.environment.snapshot r.snapshot
      × Fresh r.snapshot
      × (r.snapshot.sequence ≡ ℤ.pos 1)
      × (d.operation ≡ c.operation)
      × (d.policy ≡ c.policy)
reserve_initial_runtime_lem c v {d} {r} h =
    let p = reserve-parts c v d r h in
    let a = attach_runtime_current c.environment r v.created_at p.3 in
    let rest : Owns c.environment.snapshot r.snapshot
        × Fresh r.snapshot
        × (r.snapshot.sequence ≡ ℤ.pos 1) =
      elim a.1 [
        | inl same ↦ absurd (
            some_ne_none
              (sym a.0 ∙ ap (λ (x : Environment). x.snapshot.current_runtime_id) same ∙ p.0))
        | inr (free, owns, fresh, first) ↦ (owns, fresh, first)
      ] in
    (
      p.0,
      a.0,
      rest.0,
      rest.1,
      rest.2,
      ap (λ (x : EnvironmentCreation). x.operation) p.1,
      ap (λ (x : EnvironmentCreation). x.policy) p.1,
    )
