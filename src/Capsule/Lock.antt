-- ===== src/Capsule/Lock.antt =====
-- libs/domain/capsule_lock.go: the state of a Capsule Lock.
use sshai.Base.{String, List, Time}
use sshai.Component.Model.{ComponentType, ComponentScope, TrustClass, ComponentRequirements}

pub record LockedCapsule : Type 0 where
  pub ref : String
  pub digest : String

pub record ResolvedComponentSource : Type 0 where
  pub capsule_digest : String
  pub component_digest : String

pub record ResolvedComponent : Type 0 where
  pub id : String
  pub type : ComponentType
  pub capsule_digest : String
  pub component_digest : String
  pub scope : ComponentScope
  pub trust_class : TrustClass
  pub requirements : ComponentRequirements
  pub provenance : List (String × String)
  pub sources : List ResolvedComponentSource

-- A map is a list of its keys and values.
pub record CapsuleLockSnapshot : Type 0 where
  pub id : String
  pub environment_id : String
  pub profile_version_id : String
  pub project_capsule_digest : String
  pub capsules : List LockedCapsule
  pub resolved_components : List (String × ResolvedComponent)
  pub digest : String
  pub created_at : Time

pub record CapsuleLock : Type 0 where
  pub snapshot : CapsuleLockSnapshot
