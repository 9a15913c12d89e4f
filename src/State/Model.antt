-- ===== src/State/Model.antt =====
-- libs/domain/environment_state.go: the volume of an Environment and the components of its state.
use sshai.Base.{
  ℕ, String, Bool, true, false, not, ◌||◌, Option, none, some, List, [], ◌∷◌, Time, before, is_zero,
  is_some, is_empty, is_content_digest, trim_space, same_text, has_text, errors_new, Result, ok,
  err, ◌>>=◌, ◌>>◌, fail_if, if◌then◌else◌,
}
use sshai.Environment.Snapshot.{
  EnvironmentHealth, EnvironmentSnapshot, Environment, deleted, unknown, same_lifecycle,
  is_valid_health,
}
use sshai.Operation.Model.{environment_create, OperationType, OperationSnapshot, Operation}

pub data StateComponentKind : Type 0 where
  workspace home services cache : StateComponentKind
  unknown_kind : String → StateComponentKind

pub data DurabilityClass : Type 0 where
  durable disposable : DurabilityClass
  unknown_durability : String → DurabilityClass

pub record StateComponentSnapshot : Type 0 where
  pub id : String
  pub environment_id : String
  pub kind : StateComponentKind
  pub durability : DurabilityClass
  pub mount_path : String
  pub backend_resource_id : String
  pub health : EnvironmentHealth
  pub observed_digest : Option String
  pub created_at : Time
  pub updated_at : Time

-- `metadata` is the bytes of a JSON text.
pub record DataVolumeResourceSnapshot : Type 0 where
  pub id : String
  pub environment_id : String
  pub operation_id : String
  pub provider : String
  pub region : String
  pub provider_id : String
  pub metadata : List ℕ
  pub created_at : Time
  pub deleted_at : Option Time

pub record EnvironmentStateReservation : Type 0 where
  pub workspace_id : String
  pub home_id : String
  pub services_id : String
  pub cache_id : String
  pub backend_resource_id : String
  pub provider : String
  pub provider_id : String
  pub metadata : List ℕ
  pub created_at : Time

pub record EnvironmentState : Type 0 where
  pub environment : Environment
  pub components : List StateComponentSnapshot
  pub backend : DataVolumeResourceSnapshot

pub record StateComponentPolicy : Type 0 where
  pub kind : StateComponentKind
  pub durability : DurabilityClass
  pub mount_path : String

unfoldable pub same_component_kind : StateComponentKind → StateComponentKind → Bool
same_component_kind workspace workspace = true
same_component_kind home home = true
same_component_kind services services = true
same_component_kind cache cache = true
same_component_kind (unknown_kind s) (unknown_kind t) = same_text s t
same_component_kind _ _ = false

unfoldable pub same_durability : DurabilityClass → DurabilityClass → Bool
same_durability durable durable = true
same_durability disposable disposable = true
same_durability (unknown_durability s) (unknown_durability t) = same_text s t
same_durability _ _ = false

-- The four entries of stateComponentPolicies.
abbrev pub workspace_policy : StateComponentPolicy
workspace_policy = record { kind = workspace; durability = durable; mount_path = "/workspace" }

abbrev pub home_policy : StateComponentPolicy
home_policy = record { kind = home; durability = durable; mount_path = "/home/dev" }

abbrev pub services_policy : StateComponentPolicy
services_policy = record { kind = services; durability = durable; mount_path = "/var/lib/docker" }

abbrev pub cache_policy : StateComponentPolicy
cache_policy = record { kind = cache; durability = disposable; mount_path = "/var/cache/devm" }

abbrev pub state_component_policy_for : StateComponentKind → Option StateComponentPolicy
state_component_policy_for workspace = some workspace_policy
state_component_policy_for home = some home_policy
state_component_policy_for services = some services_policy
state_component_policy_for cache = some cache_policy
state_component_policy_for (unknown_kind s) = none

abbrev pub new_state_component :
    String → String → StateComponentPolicy → String → Time → StateComponentSnapshot
new_state_component id environment_id policy backend_id created_at = record {
  id = id;
  environment_id = environment_id;
  kind = policy.kind;
  durability = policy.durability;
  mount_path = policy.mount_path;
  backend_resource_id = backend_id;
  health = unknown;
  observed_digest = none;
  created_at = created_at;
  updated_at = created_at;
}

-- value == "" || value != strings.TrimSpace(value)
unfoldable pub is_noncanonical : String → Bool
is_noncanonical s = is_empty s || not (same_text s (trim_space s))

abbrev is_environment_create : OperationType → Bool
is_environment_create environment_create = true
is_environment_create _ = false

-- The Operation is not the one that creates the Environment for its owner.
unfoldable pub is_foreign : EnvironmentSnapshot → OperationSnapshot → Bool
is_foreign e o =
    not (same_text o.environment_id e.id)
    || not (same_text o.requested_by_user_id e.owner_user_id)
    || not (is_environment_create o.type)

abbrev pub bad_digest : Option String → Bool
bad_digest none = false
bad_digest (some d) = not (is_content_digest d)

breaks_policy : Option StateComponentPolicy → StateComponentSnapshot → Bool
breaks_policy none c = true
breaks_policy (some policy) c =
    not (same_durability c.durability policy.durability)
    || not (same_text c.mount_path policy.mount_path)

unfoldable pub bad_component :
    EnvironmentSnapshot → DataVolumeResourceSnapshot → StateComponentSnapshot → Bool
unfolding breaks_policy
bad_component e b c =
    breaks_policy (state_component_policy_for c.kind) c
    || is_noncanonical c.id
    || not (same_text c.environment_id e.id)
    || not (same_text c.backend_resource_id b.id)
    || not (is_valid_health c.health)
    || is_zero c.created_at
    || before c.updated_at c.created_at
    || before c.created_at e.created_at
    || bad_digest c.observed_digest

-- byKind[kind]
unfoldable pub by_kind :
    StateComponentKind → List StateComponentSnapshot → Option StateComponentSnapshot
by_kind k [] = none
by_kind k (c ∷ rest) =
    let more = by_kind k rest in if same_component_kind c.kind k then some c else more

-- The loop over the components, with the identities and the components that were seen.
unfoldable pub collect :
    EnvironmentSnapshot
    → DataVolumeResourceSnapshot
    → List String
    → List StateComponentSnapshot
    → List StateComponentSnapshot
    → Result (List StateComponentSnapshot)
collect e b ids found [] = ok found
collect e b ids found (c ∷ rest) = do
  fail_if (bad_component e b c) (errors_new "restore Environment State: State Component is invalid")
  fail_if (has_text c.id ids)
      (errors_new "restore Environment State: State Component identity is duplicated")
  fail_if (is_some (by_kind c.kind found))
      (errors_new "restore Environment State: State Component kind is duplicated")
  collect e b (c.id ∷ ids) (c ∷ found) rest

unfoldable pub required :
    StateComponentKind → List StateComponentSnapshot → Result StateComponentSnapshot
required k found = go (by_kind k found)
  where
    go : Option StateComponentSnapshot → Result StateComponentSnapshot
    go none = err (errors_new "restore Environment State: exact State Component set is required")
    go (some c) = ok c

unfoldable pub ordered : List StateComponentSnapshot → Result (List StateComponentSnapshot)
ordered found = do
  w ← required workspace found
  h ← required home found
  s ← required services found
  c ← required cache found
  ok (w ∷ h ∷ s ∷ c ∷ [])

-- `json_object` tells whether json.Unmarshal reads a text as an object, that is not null.
module _ (json_object : List ℕ → Bool) where
  unfoldable pub bad_backend :
      EnvironmentSnapshot → OperationSnapshot → DataVolumeResourceSnapshot → Bool
  bad_backend e o b =
      is_noncanonical b.id
      || not (same_text b.environment_id e.id)
      || not (same_text b.region e.region)
      || is_noncanonical b.provider
      || is_noncanonical b.provider_id
      || not (same_text b.operation_id o.id)
      || is_zero b.created_at
      || before b.created_at e.created_at
      || is_some b.deleted_at
      || not (json_object b.metadata)

  unfoldable pub restore_environment_state :
      Environment
      → Operation
      → List StateComponentSnapshot
      → DataVolumeResourceSnapshot
      → Result EnvironmentState
  restore_environment_state environment operation components backend = do
    fail_if (same_lifecycle environment.snapshot.lifecycle deleted)
        (errors_new "restore Environment State: deleted Environment has no current State")
    fail_if (is_foreign environment.snapshot operation.snapshot) (
        errors_new
          "restore Environment State: creation Operation does not belong to Environment owner")
    fail_if (bad_backend environment.snapshot operation.snapshot backend)
        (errors_new "restore Environment State: data-volume Provider Resource is invalid")
    found ← collect environment.snapshot backend (backend.id ∷ []) [] components
    four ← ordered found
    ok (record { environment = environment; components = four; backend = backend })
