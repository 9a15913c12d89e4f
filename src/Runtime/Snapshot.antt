-- ===== src/Runtime/Snapshot.antt =====
-- libs/domain/runtime.go: the state of a Runtime and its validation.
use sshai.Base.{
  String, Bool, false, not, ◌&&◌, ◌||◌, Option, none, some, [], ◌∷◌, ℤ, below_one, Time, before,
  after, is_zero, to_canonical, is_untrimmed, is_private_ipv4, present, is_some, errors_new, errorf,
  Result, ok, ◌>>◌, fail_if, wrapped, require_each, if◌then◌else◌,
}
use sshai.Runtime.Status.{
  RuntimeStatus, absent, provisioning, starting, ready, stopping, stopped, replacing, error,
  unknown, same_status, is_valid_status, status_text,
}

pub record RuntimeReservation : Type 0 where
  pub id : String
  pub environment_id : String
  pub sequence : ℤ
  pub runtime_preset : String
  pub region : String
  pub availability_zone : String
  pub image_version : String
  pub created_at : Time

pub record RuntimeSnapshot : Type 0 where
  pub id : String
  pub environment_id : String
  pub sequence : ℤ
  pub status : RuntimeStatus
  pub runtime_preset : String
  pub region : String
  pub availability_zone : String
  pub image_version : String
  pub provider_instance_ref : Option String
  pub private_address : Option String
  pub boot_id : Option String
  pub started_at : Option Time
  pub stopped_at : Option Time
  pub retired_at : Option Time
  pub created_at : Time
  pub updated_at : Time
  pub version : ℤ

pub record Runtime : Type 0 where
  pub snapshot : RuntimeSnapshot

-- *value is set and is empty or has spaces round it
abbrev pub bad_text : Option String → Bool
bad_text none = false
bad_text (some s) = is_untrimmed s

abbrev pub bad_address : Option String → Bool
bad_address none = false
bad_address (some s) = not (is_private_ipv4 s)

abbrev pub outside : Time → Time → Option Time → Bool
outside from until none = false
outside from until (some t) = before t from || after t until

-- The `switch` at the end of validateRuntimeState.
validate_allocated :
    RuntimeStatus → (route_half route_full started halted : Bool) → Result (Unit {0})
validate_allocated provisioning half full started halted =
    fail_if (started || halted || half)
      (errors_new "invalid Runtime: provisioning Runtime has boot observations")
validate_allocated starting half full started halted =
    fail_if (not started || halted || half)
      (errorf "invalid Runtime: %s Runtime has inconsistent boot observations" ("starting" ∷ []))
validate_allocated stopping half full started halted =
    fail_if (not started || halted || half)
      (errorf "invalid Runtime: %s Runtime has inconsistent boot observations" ("stopping" ∷ []))
validate_allocated ready half full started halted = fail_if (not started || halted || not full) (
    errors_new
      "invalid Runtime: ready Runtime requires started time, current boot ID, and private IPv4 address")
validate_allocated stopped half full started halted =
    fail_if (not started || not halted || half)
      (errors_new "invalid Runtime: stopped Runtime has inconsistent stop observations")
validate_allocated replacing half full started halted =
    fail_if half
      (errorf "invalid Runtime: %s Runtime cannot expose a writable route" ("replacing" ∷ []))
validate_allocated error half full started halted =
    fail_if half
      (errorf "invalid Runtime: %s Runtime cannot expose a writable route" ("error" ∷ []))
validate_allocated absent half full started halted = ok tt
validate_allocated (unknown s) half full started halted = ok tt

-- validateRuntimeState from the test of RuntimeAbsent on.
unfoldable pub validate_lifecycle :
    RuntimeStatus → (provider address boot started halted retired : Bool) → Result (Unit {0})
unfolding validate_allocated same_status
validate_lifecycle status provider address boot started halted retired =
    if same_status status absent
    then (do
      fail_if (not retired && (provider || address || boot || started || halted))
          (errors_new "invalid Runtime: unretired absent Runtime has lifecycle observations")
      fail_if (retired && (not provider || address || boot)) (
          errors_new
            "invalid Runtime: retired Runtime requires a provider instance and no writable route"))
    else (do
      fail_if retired (errors_new "invalid Runtime: only an absent Runtime may be retired")
      if same_status status error && not provider
          then fail_if (started || halted || address || boot)
              (errors_new "invalid Runtime: unallocated error Runtime has lifecycle observations")
          else (do
            fail_if (not provider)
                (errors_new "invalid Runtime: provider instance reference is required")
            validate_allocated status (address || boot) (address && boot) started halted))

unfoldable pub validate_runtime_state : RuntimeSnapshot → Result (Unit {0})
validate_runtime_state s = do
  fail_if (bad_text s.provider_instance_ref)
      (errors_new "invalid Runtime: provider instance reference cannot be empty")
  fail_if (bad_address s.private_address)
      (errors_new "invalid Runtime: private IPv4 address is required")
  fail_if (bad_text s.boot_id) (errors_new "invalid Runtime: boot ID cannot be empty")
  validate_lifecycle s.status (present s.provider_instance_ref) (present s.private_address)
      (present s.boot_id) (is_some s.started_at) (is_some s.stopped_at) (is_some s.retired_at)

unfoldable pub validate_runtime_snapshot : RuntimeSnapshot → Result (Unit {0})
validate_runtime_snapshot s = do
  require_each is_untrimmed (λ name. errorf "invalid Runtime: %s is required" (name ∷ []))
      (("ID", s.id)
        ∷ ("Environment ID", s.environment_id)
        ∷ ("Runtime Preset", s.runtime_preset)
        ∷ ("region", s.region)
        ∷ ("availability zone", s.availability_zone)
        ∷ ("image version", s.image_version)
        ∷ [])
  fail_if (below_one s.sequence || below_one s.version)
      (errors_new "invalid Runtime: sequence and version must be positive")
  fail_if (not (is_valid_status s.status))
      (errorf "invalid Runtime: unknown status %q" (status_text s.status ∷ []))
  fail_if (is_zero s.created_at) (errors_new "invalid Runtime: creation time is required")
  fail_if (is_zero s.updated_at || before s.updated_at s.created_at)
      (errors_new "invalid Runtime: update time is invalid")
  require_each (outside s.created_at s.updated_at)
      (λ name. errorf "invalid Runtime: %s is outside the Runtime lifetime" (name ∷ []))
      (("started time", s.started_at)
        ∷ ("stopped time", s.stopped_at)
        ∷ ("retired time", s.retired_at)
        ∷ [])
  validate_runtime_state s

-- cloneCanonicalTime of libs/domain/profile.go
abbrev pub clone_canonical_time : Option Time → Option Time
clone_canonical_time none = none
clone_canonical_time (some t) = some (to_canonical t)

-- The copies of the texts are equal to the texts.
unfoldable pub clone_runtime_snapshot : RuntimeSnapshot → RuntimeSnapshot
unfolding to_canonical
clone_runtime_snapshot s = record s {
  started_at = clone_canonical_time s.started_at;
  stopped_at = clone_canonical_time s.stopped_at;
  retired_at = clone_canonical_time s.retired_at;
}

unfoldable pub reserve_runtime : RuntimeReservation → Result Runtime
reserve_runtime r =
    let s : RuntimeSnapshot = record {
      id = r.id;
      environment_id = r.environment_id;
      sequence = r.sequence;
      status = absent;
      runtime_preset = r.runtime_preset;
      region = r.region;
      availability_zone = r.availability_zone;
      image_version = r.image_version;
      provider_instance_ref = none;
      private_address = none;
      boot_id = none;
      started_at = none;
      stopped_at = none;
      retired_at = none;
      created_at = r.created_at;
      updated_at = r.created_at;
      version = ℤ.pos 1;
    } in
    do wrapped "reserve Runtime: %w" (validate_runtime_snapshot s); ok (record { snapshot = s })

unfoldable pub restore_runtime : RuntimeSnapshot → Result Runtime
unfolding clone_runtime_snapshot
restore_runtime s = do
  wrapped "restore Runtime: %w" (validate_runtime_snapshot s)
  ok (record { snapshot = clone_runtime_snapshot s })
