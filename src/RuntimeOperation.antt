-- ===== src/RuntimeOperation.antt =====
-- libs/domain/environment_runtime_operation.go: the commands on the Runtime of an Environment.
use sshai.Base.{
  Bool, true, false, not, ◌&&◌, ◌||◌, some, ◌≡◌, ◌↔◌, ◌⊎◌, arith, same_text, same_text_iff, Error,
  errors_new, wrap, Result, ok, err, ◌>>=◌, ◌>>◌, fail_if,
}
use sshai.Runtime.Status.{
  RuntimeStatus, starting, ready, stopping, stopped, replacing, error, same_status,
}
use sshai.Runtime.Snapshot.{Runtime, clone_runtime_snapshot}
use sshai.Runtime.Operations.{refers_to}
use sshai.Runtime.Cases.{refers-eq}
use sshai.Operation.Model.{
  OperationType, runtime_start, runtime_stop, runtime_replace, profile_apply, OperationStatus,
  running, is_running, Operation,
}
use sshai.Environment.Snapshot.{active, same_lifecycle, Environment}
use sshai.Environment.Operations.{validate_runtime_ownership}
use sshai.Environment.Runtimes.{Owns, ownership-Owns, Owns-ownership}

pub record EnvironmentRuntimeOperation : Type 0 where
  pub environment : Environment
  pub runtime : Runtime
  pub operation : Operation

abbrev pub err_runtime_command_state : Error
err_runtime_command_state = errors_new "Runtime command cannot be applied to current state"

-- OperationType.runtimeCommand
unfoldable pub is_runtime_command : OperationType → Bool
is_runtime_command runtime_start = true
is_runtime_command runtime_stop = true
is_runtime_command runtime_replace = true
is_runtime_command profile_apply = true
is_runtime_command _ = false

unfoldable pub accepts_runtime_state : OperationType → RuntimeStatus → OperationStatus → Bool
unfolding same_status
accepts_runtime_state runtime_start r o =
    same_status r ready || same_status r stopped || (same_status r starting && is_running o)
accepts_runtime_state runtime_stop r o =
    same_status r ready || same_status r stopped || (same_status r stopping && is_running o)
accepts_runtime_state runtime_replace r o =
    same_status r ready
    || same_status r stopped
    || same_status r error
    || (same_status r replacing && is_running o)
accepts_runtime_state profile_apply r o = same_status r ready
accepts_runtime_state _ r o = false

-- The error of the inner check is dropped.
abbrev instead {ℓ} : {A : Type ℓ} → Error → Result A → Result A
instead message (ok a) = ok a
instead message (err e) = err message

unfoldable pub restore_environment_runtime_operation :
    Environment → Runtime → Operation → Result EnvironmentRuntimeOperation
unfolding clone_runtime_snapshot
restore_environment_runtime_operation environment runtime operation =
    let e = environment.snapshot in
    let o = operation.snapshot in
    do
      instead (errors_new "restore Runtime Operation: Runtime does not belong to Environment")
          (validate_runtime_ownership e (clone_runtime_snapshot runtime.snapshot))
      fail_if
          (not (same_text o.environment_id e.id)
            || not (same_text o.requested_by_user_id e.owner_user_id))
          (errors_new "restore Runtime Operation: Operation does not belong to Environment owner")
      fail_if (not (is_runtime_command o.type))
          (errors_new "restore Runtime Operation: Operation type is not a Runtime command")
      ok (record { environment = environment; runtime = runtime; operation = operation })

unfoldable pub new_environment_runtime_operation :
    Environment → Runtime → Operation → Result EnvironmentRuntimeOperation
new_environment_runtime_operation environment runtime operation = do
  command ← restore_environment_runtime_operation environment runtime operation
  fail_if (not (same_lifecycle environment.snapshot.lifecycle active))
      (wrap "%w: Environment is not active" err_runtime_command_state)
  fail_if (not (refers_to environment.snapshot.current_runtime_id runtime.snapshot.id))
      (wrap "%w: Runtime is not current for Environment" err_runtime_command_state)
  fail_if
      (not (
        accepts_runtime_state operation.snapshot.type runtime.snapshot.status
          operation.snapshot.status))
      (wrap "%w: current Runtime status does not accept command" err_runtime_command_state)
  ok command

-- The Operation is a Runtime command of the Environment's owner, and the Runtime is its own.
pub record Belongs (e : Environment) (r : Runtime) (o : Operation) : Type 0 where
  pub runtime : Owns e.snapshot r.snapshot
  pub environment_id : o.snapshot.environment_id ≡ e.snapshot.id
  pub owner : o.snapshot.requested_by_user_id ≡ e.snapshot.owner_user_id
  pub command : is_runtime_command o.snapshot.type ≡ true

-- The statuses from which a command may start or go on.
abbrev pub Startable : OperationType → RuntimeStatus → OperationStatus → Type 0
Startable runtime_start r o = (r ≡ ready) ⊎ (r ≡ stopped) ⊎ ((r ≡ starting) × (o ≡ running))
Startable runtime_stop r o = (r ≡ ready) ⊎ (r ≡ stopped) ⊎ ((r ≡ stopping) × (o ≡ running))
Startable runtime_replace r o =
    (r ≡ ready) ⊎ (r ≡ stopped) ⊎ (r ≡ error) ⊎ ((r ≡ replacing) × (o ≡ running))
Startable profile_apply r o = r ≡ ready
Startable _ r o = ⊥

accepts_iff :
    (t : OperationType) (r : RuntimeStatus) (o : OperationStatus)
    → (accepts_runtime_state t r o ≡ true) ↔ Startable t r o
unfolding accepts_runtime_state
accepts_iff runtime_start r o = (λ h. ground arith, λ h. ground arith)
accepts_iff runtime_stop r o = (λ h. ground arith, λ h. ground arith)
accepts_iff runtime_replace r o = (λ h. ground arith, λ h. ground arith)
accepts_iff profile_apply r o = (λ h. ground arith, λ h. ground arith)
accepts_iff _ r o = (λ h. cc, λ h. absurd h)

Owns-clone :
    (e : Environment) (r : Runtime)
    → Owns e.snapshot r.snapshot
    → Owns e.snapshot (clone_runtime_snapshot r.snapshot)
unfolding clone_runtime_snapshot
Owns-clone e r w = record {
  environment_id = w.environment_id;
  region = w.region;
  availability_zone = w.availability_zone;
  runtime_preset = w.runtime_preset;
}

module _ (e : Environment) (r : Runtime) (o : Operation) where
  abbrev command_of : EnvironmentRuntimeOperation
  command_of = record { environment = e; runtime = r; operation = o }

  restore_iff :
      (c : EnvironmentRuntimeOperation)
      → (restore_environment_runtime_operation e r o ≡ ok c) ↔ ((c ≡ command_of) × Belongs e r o)
  unfolding restore_environment_runtime_operation clone_runtime_snapshot
  restore_iff c = (
    λ h. ground (
      arith,
      ownership-Owns e.snapshot (clone_runtime_snapshot r.snapshot),
      same_text_iff o.snapshot.environment_id e.snapshot.id,
      same_text_iff o.snapshot.requested_by_user_id e.snapshot.owner_user_id,
    ),
    λ h. ground (
      arith,
      Owns-ownership e.snapshot (clone_runtime_snapshot r.snapshot) (Owns-clone e r h.1.runtime),
      same_text_iff o.snapshot.environment_id e.snapshot.id,
      same_text_iff o.snapshot.requested_by_user_id e.snapshot.owner_user_id,
    ),
  )

  passed :
      (c : EnvironmentRuntimeOperation)
      → new_environment_runtime_operation e r o ≡ ok c
      → (restore_environment_runtime_operation e r o ≡ ok c)
        × (e.snapshot.lifecycle ≡ active)
        × (refers_to e.snapshot.current_runtime_id r.snapshot.id ≡ true)
        × (accepts_runtime_state o.snapshot.type r.snapshot.status o.snapshot.status ≡ true)
  unfolding new_environment_runtime_operation same_lifecycle
  passed c h = ground arith

  passes :
      (c : EnvironmentRuntimeOperation)
      → restore_environment_runtime_operation e r o ≡ ok c
      → e.snapshot.lifecycle ≡ active
      → refers_to e.snapshot.current_runtime_id r.snapshot.id ≡ true
      → accepts_runtime_state o.snapshot.type r.snapshot.status o.snapshot.status ≡ true
      → new_environment_runtime_operation e r o ≡ ok c
  unfolding new_environment_runtime_operation same_lifecycle
  passes c p l q a = rw (p, l, q, a)

  -- A new command is admitted exactly when its parts belong together, the Environment is active, the
  -- Runtime is its current one, and the Runtime's status is one from which the command may start.
  pub new_environment_runtime_operation_iff :
      (c : EnvironmentRuntimeOperation)
      → (new_environment_runtime_operation e r o ≡ ok c) ↔ (
          (c ≡ command_of)
          × Belongs e r o
          × (e.snapshot.lifecycle ≡ active)
          × (e.snapshot.current_runtime_id ≡ some r.snapshot.id)
          × Startable o.snapshot.type r.snapshot.status o.snapshot.status)
  new_environment_runtime_operation_iff c = (
    λ h.
        let p = passed c h in
        let q = (restore_iff c).0 p.0 in
        (
          q.0,
          q.1,
          p.1,
          (refers-eq e.snapshot.current_runtime_id r.snapshot.id).0 p.2,
          (accepts_iff o.snapshot.type r.snapshot.status o.snapshot.status).0 p.3,
        ),
    λ h.
        passes c ((restore_iff c).1 (h.0, h.1)) h.2
          ((refers-eq e.snapshot.current_runtime_id r.snapshot.id).1 h.3)
          ((accepts_iff o.snapshot.type r.snapshot.status o.snapshot.status).1 h.4),
  )
