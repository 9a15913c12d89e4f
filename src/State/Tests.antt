-- ===== src/State/Tests.antt =====
-- The state of a new Environment, and the theorems on it.
use sshai.Base.{
  ℕ, ◌==◌, false, Bool, List, [], ◌∷◌, ◌≡◌, refl, Result, ok, is_zero, before, to_canonical,
  trim_space, has_text,
}
use sshai.Environment.Snapshot.{Environment, same_lifecycle, is_valid_health}
use sshai.Operation.Model.{Operation}
use sshai.State.Model.{
  DataVolumeResourceSnapshot, StateComponentSnapshot, EnvironmentStateReservation, EnvironmentState,
  same_component_kind, same_durability, is_noncanonical, is_foreign, bad_component, by_kind,
  collect, required, ordered, bad_backend, restore_environment_state,
}
use sshai.State.Reserve.{reserve_environment_state, components_of, backend_of}
use sshai.State.Restore.{IsExact, restore-reserve}
use sshai.Samples.{at, empty_environment, queued_operation}

-- What stands for the JSON library: an object begins with a brace.
abbrev begins_object : List ℕ → Bool
begins_object [] = false
begins_object (c ∷ rest) = c == 123

abbrev reservation : EnvironmentStateReservation
reservation = record {
  workspace_id = "state-w";
  home_id = "state-h";
  services_id = "state-s";
  cache_id = "state-c";
  backend_resource_id = "volume-1";
  provider = "aws";
  provider_id = "vol-123";
  metadata = 123 ∷ 125 ∷ [];
  created_at = at 20;
}

abbrev components : List StateComponentSnapshot
components = components_of empty_environment.snapshot reservation

abbrev volume : DataVolumeResourceSnapshot
volume = record (backend_of empty_environment.snapshot queued_operation.snapshot reservation) {
  created_at = at 20;
}

abbrev state : EnvironmentState
state = record { environment = empty_environment; components = components; backend = volume }

run_reserve : Environment → Operation → EnvironmentStateReservation → Result EnvironmentState
unfolding reserve_environment_state restore_environment_state bad_backend bad_component collect
    by_kind ordered required same_component_kind same_durability is_noncanonical is_foreign
    same_lifecycle is_valid_health is_zero before to_canonical trim_space has_text
run_reserve = reserve_environment_state begins_object begins_object

run_restore :
    Environment
    → Operation
    → List StateComponentSnapshot
    → DataVolumeResourceSnapshot
    → Result EnvironmentState
unfolding run_reserve to_canonical
run_restore = restore_environment_state begins_object

reserve_test :
    reserve_environment_state begins_object begins_object empty_environment queued_operation
      reservation
    ≡ ok state
unfolding run_reserve to_canonical
reserve_test = refl

restore_test :
    restore_environment_state begins_object empty_environment queued_operation components volume
    ≡ ok state
unfolding run_restore to_canonical
restore_test = refl

restore-reserve_example :
    (restore_environment_state begins_object empty_environment queued_operation state.components
        state.backend
      ≡ ok state)
    × IsExact empty_environment.snapshot state.backend state.components
restore-reserve_example =
    restore-reserve begins_object begins_object empty_environment queued_operation reservation state
      reserve_test
