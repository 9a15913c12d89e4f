-- ===== src/Runtime/Steps.antt =====
-- libs/domain/runtime.go: what a call that succeeds has checked, and the change that it makes.
use sshai.Base.{
  String, true, false, none, some, ◌≡◌, ◌≢◌, ◌↔◌, ◌⊎◌, arith, ℤ, Time, before, is_zero, is_blank,
  is_empty, is_private_ipv4, same_text_iff, is_some, ok,
}
use sshai.Runtime.Status.{
  absent, provisioning, starting, ready, stopping, stopped, replacing, error,
}
use sshai.Runtime.Snapshot.{
  RuntimeSnapshot, Runtime, clone_runtime_snapshot, validate_runtime_snapshot,
}
use sshai.Runtime.Operations.{
  validate_current_runtime_observation, finalize_runtime_transition, RuntimeCall, provision_call,
  mark_provision_error_call, begin_start_call, begin_stop_call, begin_replacement_call,
  mark_ready_call, mark_stopped_call, mark_error_call, retire_call,
}

-- The time of a call is set and is not before the last update, and the Runtime was valid.
pub record Accepts (s : RuntimeSnapshot) (at : Time) : Type 0 where
  pub valid : validate_runtime_snapshot (clone_runtime_snapshot s) ≡ ok tt
  pub set : is_zero at ≡ false
  pub later : before at s.updated_at ≡ false

-- The observation names the Runtime's provider instance and its current version.
abbrev pub Current : RuntimeSnapshot → String → ℤ → Type 0
Current s provider expected = (expected ≡ s.version) × (s.provider_instance_ref ≡ some provider)

pub validate_current_runtime_observation-Current :
    (s : RuntimeSnapshot) (provider : String) (expected : ℤ)
    → (validate_current_runtime_observation s provider expected ≡ ok tt)
      ↔ Current s provider expected
unfolding validate_current_runtime_observation
validate_current_runtime_observation-Current s provider expected = grind (arith, same_text_iff)

abbrev pub time_of : RuntimeCall → Time
time_of (provision_call provider at) = at
time_of (mark_provision_error_call at) = at
time_of (begin_start_call at) = at
time_of (begin_stop_call at) = at
time_of (begin_replacement_call at) = at
time_of (mark_ready_call o) = o.observed_at
time_of (mark_stopped_call o) = o.observed_at
time_of (mark_error_call o) = o.observed_at
time_of (retire_call o) = o.observed_at

-- When a call changes the Runtime: the status that it starts from and what else it asks for.
abbrev pub Admits : RuntimeCall → RuntimeSnapshot → Type 0
Admits (provision_call provider at) s =
    (is_empty provider ≡ false) × (s.status ≡ absent) × (s.retired_at ≡ none)
Admits (mark_provision_error_call at) s = (s.status ≡ absent) × (s.retired_at ≡ none)
Admits (begin_start_call at) s = (s.status ≡ provisioning) ⊎ (s.status ≡ stopped)
Admits (begin_stop_call at) s = s.status ≡ ready
Admits (begin_replacement_call at) s =
    (s.status ≡ ready) ⊎ (s.status ≡ stopped) ⊎ (s.status ≡ error)
Admits (mark_ready_call o) s =
    (s.status ≡ starting)
    × Current s o.provider_instance_ref o.expected_version
    × (is_blank o.boot_id ≡ false)
    × (is_private_ipv4 o.private_address ≡ true)
Admits (mark_stopped_call o) s =
    (s.status ≡ stopping) × Current s o.provider_instance_ref o.expected_version
Admits (mark_error_call o) s =
    (s.status ≢ absent)
    × (s.status ≢ replacing)
    × Current s o.provider_instance_ref o.expected_version
Admits (retire_call o) s =
    (s.status ≡ replacing) × Current s o.provider_instance_ref o.expected_version

-- The fields that a call sets.
abbrev pub change : RuntimeCall → RuntimeSnapshot → RuntimeSnapshot
change (provision_call provider at) s = record s {
  status = provisioning;
  provider_instance_ref = some provider;
}
change (mark_provision_error_call at) s = record s { status = error }
change (begin_start_call at) s = record s {
  status = starting;
  started_at = some at;
  stopped_at = none;
  private_address = none;
  boot_id = none;
}
change (begin_stop_call at) s = record s {
  status = stopping;
  private_address = none;
  boot_id = none;
}
change (begin_replacement_call at) s = record s {
  status = replacing;
  private_address = none;
  boot_id = none;
}
change (mark_ready_call o) s = record s {
  status = ready;
  boot_id = some o.boot_id;
  private_address = some o.private_address;
}
change (mark_stopped_call o) s = record s { status = stopped; stopped_at = some o.observed_at }
change (mark_error_call o) s = record s { status = error; private_address = none; boot_id = none }
change (retire_call o) s = record s { status = absent; retired_at = some o.observed_at }

-- The outcome that the call asks for is there already.
abbrev pub Repeats : RuntimeCall → RuntimeSnapshot → Type 0
Repeats (provision_call provider at) s =
    (s.status ≡ provisioning) × (s.provider_instance_ref ≡ some provider)
Repeats (mark_provision_error_call at) s = (s.status ≡ error) × (s.provider_instance_ref ≡ none)
Repeats (begin_start_call at) s = s.status ≡ starting
Repeats (begin_stop_call at) s = (s.status ≡ stopping) ⊎ (s.status ≡ stopped)
Repeats (begin_replacement_call at) s = s.status ≡ replacing
Repeats (mark_ready_call o) s =
    (s.status ≡ ready)
    × (s.provider_instance_ref ≡ some o.provider_instance_ref)
    × (s.boot_id ≡ some o.boot_id)
    × (s.private_address ≡ some o.private_address)
Repeats (mark_stopped_call o) s =
    (s.status ≡ stopped) × (s.provider_instance_ref ≡ some o.provider_instance_ref)
Repeats (mark_error_call o) s =
    (s.status ≡ error) × (s.provider_instance_ref ≡ some o.provider_instance_ref)
Repeats (retire_call o) s =
    (s.status ≡ absent)
    × (is_some s.retired_at ≡ true)
    × (s.provider_instance_ref ≡ some o.provider_instance_ref)

-- A call that succeeds found its outcome there and returns the same Runtime, or it was admitted.
abbrev pub Outcome : RuntimeCall → Runtime → Runtime → Type 0
Outcome c r r' =
    ((r' ≡ r) × Repeats c r.snapshot)
    ⊎ (Accepts r.snapshot (time_of c)
        × Admits c r.snapshot
        × (finalize_runtime_transition (change c (clone_runtime_snapshot r.snapshot)) (time_of c)
            ≡ ok r'))
