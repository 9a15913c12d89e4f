-- ===== src/State/Reserve.antt =====
-- libs/domain/environment_state.go: ReserveEnvironmentState.
use sshai.Base.{
  ℕ, String, Bool, not, ◌&&◌, ◌||◌, none, List, [], ◌∷◌, before, is_zero, to_canonical, has_text,
  errors_new, Result, ok, ◌>>◌, fail_if,
}
use sshai.Environment.Snapshot.{EnvironmentSnapshot, Environment, creating, same_lifecycle}
use sshai.Operation.Model.{OperationSnapshot, Operation, is_queued, is_running}
use sshai.State.Model.{
  StateComponentSnapshot, DataVolumeResourceSnapshot, EnvironmentStateReservation, EnvironmentState,
  StateComponentPolicy, workspace_policy, home_policy, services_policy, cache_policy,
  new_state_component, is_noncanonical, is_foreign, restore_environment_state,
}

-- The loop over the identities of the components, with those that were seen.
check_identities : List String → List String → Result (Unit {0})
check_identities seen [] = ok tt
check_identities seen (value ∷ rest) = do
  fail_if (is_noncanonical value)
      (errors_new "reserve Environment State: canonical identities are required")
  fail_if (has_text value seen) (errors_new "reserve Environment State: identities must be unique")
  check_identities (value ∷ seen) rest

abbrev pub backend_of :
    EnvironmentSnapshot
    → OperationSnapshot
    → EnvironmentStateReservation
    → DataVolumeResourceSnapshot
backend_of e o r = record {
  id = r.backend_resource_id;
  environment_id = e.id;
  operation_id = o.id;
  provider = r.provider;
  region = e.region;
  provider_id = r.provider_id;
  metadata = r.metadata;
  created_at = to_canonical r.created_at;
  deleted_at = none;
}

abbrev pub component_of :
    EnvironmentSnapshot
    → EnvironmentStateReservation
    → String
    → StateComponentPolicy
    → StateComponentSnapshot
component_of e r id policy =
    new_state_component id e.id policy r.backend_resource_id (to_canonical r.created_at)

abbrev pub components_of :
    EnvironmentSnapshot → EnvironmentStateReservation → List StateComponentSnapshot
components_of e r =
    component_of e r r.workspace_id workspace_policy
    ∷ component_of e r r.home_id home_policy
    ∷ component_of e r r.services_id services_policy
    ∷ component_of e r r.cache_id cache_policy
    ∷ []

-- `json_valid` is json.Valid.
module _ (json_object json_valid : List ℕ → Bool) where
  unfoldable pub reserve_environment_state :
      Environment → Operation → EnvironmentStateReservation → Result EnvironmentState
  unfolding check_identities
  reserve_environment_state environment operation r = do
    let e = environment.snapshot
    let o = operation.snapshot
    fail_if (not (same_lifecycle e.lifecycle creating))
        (errors_new "reserve Environment State: Environment is not creating")
    fail_if (is_foreign e o) (
        errors_new
          "reserve Environment State: creation Operation does not belong to Environment owner")
    fail_if (not (is_queued o.status) && not (is_running o.status))
        (errors_new "reserve Environment State: creation Operation is terminal")
    check_identities (r.backend_resource_id ∷ [])
        (r.workspace_id ∷ r.home_id ∷ r.services_id ∷ r.cache_id ∷ [])
    fail_if (is_noncanonical r.backend_resource_id)
        (errors_new "reserve Environment State: canonical backend identity is required")
    fail_if (is_noncanonical r.provider || is_noncanonical r.provider_id)
        (errors_new "reserve Environment State: canonical provider ownership is required")
    fail_if
        (is_zero r.created_at || before r.created_at e.updated_at || not (json_valid r.metadata))
        (errors_new "reserve Environment State: creation time and metadata are invalid")
    restore_environment_state json_object environment operation (components_of e r)
        (backend_of e o r)
