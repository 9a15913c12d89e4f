-- ===== src/Creation/Tests.antt =====
-- A creation, and the theorems on the policies, the creation and the commands.
use sshai.Base.{
  true, false, ◌≡◌, ◌↔◌, refl, none, some, [], ◌∷◌, ℤ, Time, Result, ok, before, after,
  same_instant, to_canonical, is_zero, is_untrimmed, is_private_ipv4, trim_space, inc_int64,
}
use sshai.Runtime.Status.{is_valid_status, same_status}
use sshai.Runtime.Snapshot.{
  validate_lifecycle, validate_runtime_state, validate_runtime_snapshot, clone_runtime_snapshot,
  reserve_runtime,
}
use sshai.Environment.Snapshot.{
  active, same_lifecycle, same_health, is_valid_lifecycle, is_valid_health, is_valid_policy,
  validate_deletion, validate_environment_snapshot,
}
use sshai.Environment.Operations.{
  transition_snapshot, finalize_environment_transition, activate, update_health, attach_runtime,
  validate_runtime_ownership, validate_initial_runtime,
}
use sshai.Environment.Runtimes.{Owns, Fresh}
use sshai.Operation.Model.{record_restate_invocation, start, succeed}
use sshai.AutoStop.Policy.{
  when_fully_idle, AutoStopDecision, validate_auto_stop_activity, validate_conflicts, is_idle,
  evaluate,
}
use sshai.AutoStop.Qualifies.{Qualifies, qualified, evaluate_qualifies_iff}
use sshai.Creation.Model.{
  EnvironmentCreation, contains, check_keys, new_environment_creation, reserve_initial_runtime,
  complete,
}
use sshai.Creation.Consistent.{
  IsConsistent, IsComplete, new_environment_creation_iff, complete_lem, reserve_initial_runtime_lem,
}
use sshai.RuntimeOperation.{
  EnvironmentRuntimeOperation, Belongs, Startable, new_environment_runtime_operation,
  new_environment_runtime_operation_iff,
}
use sshai.Upgrade.{AutoSafePlan, AllClean, is_auto_safe_applyable, is_auto_safe_applyable_iff}
use sshai.Samples.{
  at, reservation, fresh_runtime, serving, empty_environment, attached, completed, queued_operation,
  stop_operation, finished_operation, stop_policy, quiet, stop_request, creation, reserved_creation,
}

new_test :
    new_environment_creation empty_environment stop_policy queued_operation "seed-1"
      ("ssh-1" ∷ "ssh-2" ∷ [])
    ≡ ok creation
unfolding new_environment_creation check_keys contains
new_test = refl

new_environment_creation_iff_example :
    (new_environment_creation empty_environment stop_policy queued_operation "seed-1"
        ("ssh-1" ∷ "ssh-2" ∷ [])
      ≡ ok creation)
    ↔ ((creation ≡ creation) × IsConsistent creation)
new_environment_creation_iff_example =
    new_environment_creation_iff empty_environment stop_policy queued_operation "seed-1"
      ("ssh-1" ∷ "ssh-2" ∷ []) creation

creation-IsConsistent : IsConsistent creation
creation-IsConsistent = (new_environment_creation_iff_example.0 new_test).1

-- What a run of the creation computes with.
run_creation : EnvironmentCreation → Time → Result EnvironmentCreation
unfolding complete reserve_initial_runtime reserve_runtime record_restate_invocation start succeed
    transition_snapshot finalize_environment_transition activate update_health attach_runtime
    validate_runtime_ownership validate_initial_runtime validate_environment_snapshot
    validate_deletion is_valid_lifecycle is_valid_health is_valid_policy same_lifecycle same_health
    validate_runtime_snapshot validate_runtime_state validate_lifecycle clone_runtime_snapshot
    same_status is_valid_status is_untrimmed is_private_ipv4 trim_space before after same_instant
    is_zero to_canonical inc_int64
run_creation = complete

reserve_test :
    reserve_initial_runtime creation reservation
    ≡ ok (record creation { environment = attached }, fresh_runtime)
unfolding run_creation
reserve_test = refl

complete_test :
    complete reserved_creation (at 40)
    ≡ ok (record reserved_creation { environment = completed; operation = finished_operation })
unfolding run_creation
complete_test = refl

reserve_initial_runtime_lem_example :
    (creation.environment.snapshot.current_runtime_id ≡ none)
    × (attached.snapshot.current_runtime_id ≡ some "rt-1")
    × Owns creation.environment.snapshot fresh_runtime.snapshot
    × Fresh fresh_runtime.snapshot
    × (fresh_runtime.snapshot.sequence ≡ ℤ.pos 1)
    × (creation.operation ≡ creation.operation)
    × (creation.policy ≡ creation.policy)
reserve_initial_runtime_lem_example =
    reserve_initial_runtime_lem creation reservation
      {d = record creation { environment = attached }} {r = fresh_runtime} reserve_test

reserved-IsConsistent : IsConsistent reserved_creation
reserved-IsConsistent = record {
  environment_id = refl;
  policy_id = refl;
  operation_id = refl;
  policy_of_environment = refl;
  environment_of_policy = refl;
  environment_of_operation = refl;
  owner = refl;
  project_seed = refl;
  some_key = refl;
  keys = creation-IsConsistent.keys;
}

complete_lem_example :
    IsComplete reserved_creation
      (record reserved_creation { environment = completed; operation = finished_operation })
      (at 40)
    × IsConsistent
        (record reserved_creation { environment = completed; operation = finished_operation })
complete_lem_example = complete_lem reserved_creation (at 40) reserved-IsConsistent complete_test

new_environment_runtime_operation_iff_example :
    (new_environment_runtime_operation completed serving stop_operation
      ≡ ok (record { environment = completed; runtime = serving; operation = stop_operation }))
    ↔ ((◌≡◌ {A = EnvironmentRuntimeOperation}
          (record { environment = completed; runtime = serving; operation = stop_operation })
          (record { environment = completed; runtime = serving; operation = stop_operation }))
        × Belongs completed serving stop_operation
        × (completed.snapshot.lifecycle ≡ active)
        × (completed.snapshot.current_runtime_id ≡ some serving.snapshot.id)
        × Startable stop_operation.snapshot.type serving.snapshot.status
            stop_operation.snapshot.status)
new_environment_runtime_operation_iff_example =
    new_environment_runtime_operation_iff completed serving stop_operation
      (record { environment = completed; runtime = serving; operation = stop_operation })

quiet_test : evaluate stop_policy stop_request ≡ ok (qualified 7)
unfolding evaluate validate_auto_stop_activity validate_conflicts is_idle before is_zero
quiet_test = refl

evaluate_qualifies_iff_example :
    ((d : AutoStopDecision) × (evaluate stop_policy stop_request ≡ ok d) × (d.qualifies ≡ true))
    ↔ Qualifies when_fully_idle stop_request quiet
evaluate_qualifies_iff_example = evaluate_qualifies_iff stop_policy stop_request quiet refl

quiet-Qualifies : Qualifies when_fully_idle stop_request quiet
quiet-Qualifies = evaluate_qualifies_iff_example.0 (qualified 7, quiet_test, refl)

abbrev calm_plan : AutoSafePlan
calm_plan = record {
  managed_targets =
      record {
        component_id = "skill:a";
        desired_digest = "d2";
        last_applied_digest = "d1";
        observed_digest = "d1";
      }
      ∷ [];
  managed_targets_clean = false;
  executable_digest_changed = false;
  permission_changed = false;
  integration_changed = false;
  credential_requirement_changed = false;
  has_conflicts = false;
}

is_auto_safe_applyable_iff_example : (is_auto_safe_applyable calm_plan ≡ true) ↔ (
    AllClean calm_plan.managed_targets
    × (false ≡ false)
    × (false ≡ false)
    × (false ≡ false)
    × (false ≡ false)
    × (false ≡ false))
is_auto_safe_applyable_iff_example = is_auto_safe_applyable_iff calm_plan
