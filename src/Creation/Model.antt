-- ===== src/Creation/Model.antt =====
-- libs/domain/environment.go: EnvironmentCreation, the Environment with its policy and its Operation.
use sshai.Base.{
  String, Bool, true, false, not, ◌||◌, List, [], ◌∷◌, Time, is_empty, same_text, is_some, Error,
  errors_new, Result, ok, err, ◌>>=◌, ◌>>◌, fail_if, if◌then◌else◌,
}
use sshai.Runtime.Snapshot.{RuntimeReservation, Runtime, reserve_runtime}
use sshai.Operation.Model.{Operation, record_restate_invocation, start, succeed}
use sshai.AutoStop.Policy.{AutoStopPolicy}
use sshai.Environment.Snapshot.{Environment, healthy}
use sshai.Environment.Operations.{activate, update_health, attach_runtime}

pub record EnvironmentCreation : Type 0 where
  pub environment : Environment
  pub policy : AutoStopPolicy
  pub operation : Operation
  pub project_seed_id : String
  pub ssh_key_ids : List String

abbrev pub err_initial_runtime_already_reserved : Error
err_initial_runtime_already_reserved = errors_new "initial Runtime is already reserved"

abbrev pub err_initial_runtime_required : Error
err_initial_runtime_required = errors_new "initial Runtime is required before activation"

-- _, duplicate := seen[id]
unfoldable pub contains : List String → String → Bool
contains [] id = false
contains (x ∷ rest) id = same_text x id || contains rest id

-- The loop over the SSH Key IDs with the IDs that it has seen.
unfoldable pub check_keys : List String → List String → Result (Unit {0})
check_keys seen [] = ok tt
check_keys seen (id ∷ rest) =
    fail_if (is_empty id) (errors_new "create Environment reservation: SSH Key ID is required")
    >> (fail_if (contains seen id)
          (errors_new "create Environment reservation: SSH Key IDs must be unique")
        >> check_keys (id ∷ seen) rest)

abbrev pub no_keys : List String → Bool
no_keys [] = true
no_keys (id ∷ rest) = false

unfoldable pub new_environment_creation :
    Environment → AutoStopPolicy → Operation → String → List String → Result EnvironmentCreation
new_environment_creation environment policy operation project_seed_id ssh_key_ids =
    let e = environment.snapshot in
    let p = policy.snapshot in
    let o = operation.snapshot in
    do
      fail_if (is_empty e.id || is_empty p.id || is_empty o.id) (
          errors_new
            "create Environment reservation: Environment, Policy, and Operation are required")
      fail_if (not (same_text e.auto_stop_policy_id p.id) || not (same_text p.environment_id e.id))
          (errors_new
            "create Environment reservation: Auto-stop Policy does not belong to Environment")
      fail_if
          (not (same_text o.environment_id e.id)
            || not (same_text o.requested_by_user_id e.owner_user_id))
          (errors_new
            "create Environment reservation: Operation does not belong to Environment owner")
      fail_if (is_empty project_seed_id)
          (errors_new "create Environment reservation: Project Seed is required")
      fail_if (no_keys ssh_key_ids)
          (errors_new "create Environment reservation: at least one SSH Key is required")
      check_keys [] ssh_key_ids
      ok (record {
        environment = environment;
        policy = policy;
        operation = operation;
        project_seed_id = project_seed_id;
        ssh_key_ids = ssh_key_ids;
      })

-- EnvironmentCreation.RecordRestateInvocation
unfoldable pub record_invocation : EnvironmentCreation → String → Result EnvironmentCreation
record_invocation creation invocation = do
  operation ← record_restate_invocation creation.operation invocation
  ok (record creation { operation = operation })

unfoldable pub reserve_initial_runtime :
    EnvironmentCreation → RuntimeReservation → Result (EnvironmentCreation × Runtime)
reserve_initial_runtime creation reservation =
    if is_some creation.environment.snapshot.current_runtime_id
    then err err_initial_runtime_already_reserved
    else (do
      runtime ← reserve_runtime reservation
      environment ← attach_runtime creation.environment runtime reservation.created_at
      ok (record creation { environment = environment }, runtime))

unfoldable pub complete : EnvironmentCreation → Time → Result EnvironmentCreation
complete creation at =
    if not (is_some creation.environment.snapshot.current_runtime_id)
    then err err_initial_runtime_required
    else (do
      started ← start creation.operation at
      activated ← activate creation.environment at
      environment ← update_health activated healthy at
      operation ← succeed started at
      ok (record creation { environment = environment; operation = operation }))
