-- ===== src/Runtime/WellFormed.antt =====
-- What a valid Runtime is, stated apart from the checks of validateRuntimeSnapshot.
use sshai.Base.{
  ◌≤◌, ◌<◌, String, Bool, true, false, Option, none, some, ◌≡◌, refl, ◌↔◌, ◌⊎◌, arith, below_one,
  Time, before, after, is_zero, is_untrimmed, present, is_some, ok, not-is_blank_of_private,
  not-is_blank_of_trimmed,
}
use sshai.Runtime.Status.{
  RuntimeStatus, absent, provisioning, starting, ready, stopping, stopped, replacing, error,
  unknown, is_valid_status,
}
use sshai.Runtime.Snapshot.{
  RuntimeSnapshot, bad_text, bad_address, outside, validate_lifecycle, validate_runtime_state,
  validate_runtime_snapshot,
}

-- What each status says of the optional fields: which of the provider instance, the private
-- address, the boot ID and the three times are set.
abbrev pub Phase : RuntimeStatus → (provider address boot started halted retired : Bool) → Type 0
Phase absent p a b st h r =
    (p ≡ r) × (a ≡ false) × (b ≡ false) × ((r ≡ true) ⊎ ((st ≡ false) × (h ≡ false)))
Phase provisioning p a b st h r =
    (p ≡ true) × (a ≡ false) × (b ≡ false) × (st ≡ false) × (h ≡ false) × (r ≡ false)
Phase starting p a b st h r =
    (p ≡ true) × (a ≡ false) × (b ≡ false) × (st ≡ true) × (h ≡ false) × (r ≡ false)
Phase ready p a b st h r =
    (p ≡ true) × (a ≡ true) × (b ≡ true) × (st ≡ true) × (h ≡ false) × (r ≡ false)
Phase stopping p a b st h r =
    (p ≡ true) × (a ≡ false) × (b ≡ false) × (st ≡ true) × (h ≡ false) × (r ≡ false)
Phase stopped p a b st h r =
    (p ≡ true) × (a ≡ false) × (b ≡ false) × (st ≡ true) × (h ≡ true) × (r ≡ false)
Phase replacing p a b st h r = (p ≡ true) × (a ≡ false) × (b ≡ false) × (r ≡ false)
Phase error p a b st h r =
    (a ≡ false) × (b ≡ false) × (r ≡ false) × ((p ≡ true) ⊎ ((st ≡ false) × (h ≡ false)))
Phase (unknown s) p a b st h r = ⊥

-- A time that is set lies between the creation and the last update.
abbrev pub Within : Time → Time → Option Time → Type 0
Within from until none = Unit
Within from until (some t) = (from.instant ≤ t.instant) × (t.instant ≤ until.instant)

pub record IsWellFormed (s : RuntimeSnapshot) : Type 0 where
  pub id : is_untrimmed s.id ≡ false
  pub environment_id : is_untrimmed s.environment_id ≡ false
  pub runtime_preset : is_untrimmed s.runtime_preset ≡ false
  pub region : is_untrimmed s.region ≡ false
  pub availability_zone : is_untrimmed s.availability_zone ≡ false
  pub image_version : is_untrimmed s.image_version ≡ false
  pub sequence : below_one s.sequence ≡ false
  pub version : below_one s.version ≡ false
  pub created : 0 < s.created_at.instant
  pub updated : s.created_at.instant ≤ s.updated_at.instant
  pub started_within : Within s.created_at s.updated_at s.started_at
  pub stopped_within : Within s.created_at s.updated_at s.stopped_at
  pub retired_within : Within s.created_at s.updated_at s.retired_at
  pub provider : bad_text s.provider_instance_ref ≡ false
  pub address : bad_address s.private_address ≡ false
  pub boot : bad_text s.boot_id ≡ false
  pub phase :
      Phase s.status
        (is_some s.provider_instance_ref)
        (is_some s.private_address)
        (is_some s.boot_id)
        (is_some s.started_at)
        (is_some s.stopped_at)
        (is_some s.retired_at)

validate_lifecycle→Phase :
    (status : RuntimeStatus) (p a b st h r : Bool)
    → is_valid_status status ≡ true
    → validate_lifecycle status p a b st h r ≡ ok tt
    → Phase status p a b st h r
unfolding validate_lifecycle is_valid_status
validate_lifecycle→Phase absent p a b st h r v e = ground arith
validate_lifecycle→Phase _ p a b st h r v e = ground arith

Phase→validate_lifecycle :
    (status : RuntimeStatus) (p a b st h r : Bool)
    → Phase status p a b st h r
    → validate_lifecycle status p a b st h r ≡ ok tt
unfolding validate_lifecycle
Phase→validate_lifecycle absent p a b st h r e = ground arith
Phase→validate_lifecycle _ p a b st h r e = ground arith

present_of_text : (o : Option String) → bad_text o ≡ false → present o ≡ is_some o
present_of_text none h = refl
present_of_text (some s) h = rw (not-is_blank_of_trimmed s h)

present_of_address : (o : Option String) → bad_address o ≡ false → present o ≡ is_some o
present_of_address none h = refl
present_of_address (some s) h = rw (not-is_blank_of_private s (ground arith))

within→outside :
    (from until : Time) (o : Option Time) → Within from until o → outside from until o ≡ false
unfolding before after
within→outside from until none h = refl
within→outside from until (some t) h = ground arith

outside→within :
    (from until : Time) (o : Option Time) → outside from until o ≡ false → Within from until o
unfolding before after
outside→within from until none h = tt
outside→within from until (some t) h = (ground arith, ground arith)

-- The presence of each optional field, in the order of `Phase`.
abbrev PhaseOf : RuntimeSnapshot → Type 0
PhaseOf s =
    Phase s.status (is_some s.provider_instance_ref) (is_some s.private_address) (is_some s.boot_id)
      (is_some s.started_at) (is_some s.stopped_at) (is_some s.retired_at)

module _ (s : RuntimeSnapshot) where
  state_checks :
      validate_runtime_state s ≡ ok tt
      → (bad_text s.provider_instance_ref ≡ false)
        × (bad_address s.private_address ≡ false)
        × (bad_text s.boot_id ≡ false)
        × (validate_lifecycle s.status
              (present s.provider_instance_ref)
              (present s.private_address)
              (present s.boot_id)
              (is_some s.started_at)
              (is_some s.stopped_at)
              (is_some s.retired_at)
            ≡ ok tt)
  unfolding validate_runtime_state
  state_checks h = ground arith

  state_phase : is_valid_status s.status ≡ true → validate_runtime_state s ≡ ok tt → PhaseOf s
  state_phase v h =
      let c = state_checks h in
      validate_lifecycle→Phase _ _ _ _ _ _ _ v (
        rw
          (
            ← present_of_text s.provider_instance_ref c.0,
            ← present_of_address s.private_address c.1,
            ← present_of_text s.boot_id c.2,
          )
          c.3)

  phase_state :
      bad_text s.provider_instance_ref ≡ false
      → bad_address s.private_address ≡ false
      → bad_text s.boot_id ≡ false
      → PhaseOf s
      → validate_runtime_state s ≡ ok tt
  unfolding validate_runtime_state
  phase_state p a b h =
      rw
        (
          p,
          a,
          b,
          present_of_text s.provider_instance_ref p,
          present_of_address s.private_address a,
          present_of_text s.boot_id b,
        )
        (Phase→validate_lifecycle _ _ _ _ _ _ _ h)

  -- Every check passed.
  record Checked : Type 0 where
    texts :
        (is_untrimmed s.id ≡ false)
        × (is_untrimmed s.environment_id ≡ false)
        × (is_untrimmed s.runtime_preset ≡ false)
        × (is_untrimmed s.region ≡ false)
        × (is_untrimmed s.availability_zone ≡ false)
        × (is_untrimmed s.image_version ≡ false)
    numbers : (below_one s.sequence ≡ false) × (below_one s.version ≡ false)
    status : is_valid_status s.status ≡ true
    times :
        (is_zero s.created_at ≡ false)
        × (is_zero s.updated_at ≡ false)
        × (before s.updated_at s.created_at ≡ false)
    within :
        (outside s.created_at s.updated_at s.started_at ≡ false)
        × (outside s.created_at s.updated_at s.stopped_at ≡ false)
        × (outside s.created_at s.updated_at s.retired_at ≡ false)
    state : validate_runtime_state s ≡ ok tt

  checked : validate_runtime_snapshot s ≡ ok tt → Checked
  unfolding validate_runtime_snapshot
  checked h = ground arith

  checked_back : Checked → validate_runtime_snapshot s ≡ ok tt
  unfolding validate_runtime_snapshot
  checked_back h = ground arith

Phase-status :
    (status : RuntimeStatus) (p a b st h r : Bool)
    → Phase status p a b st h r
    → is_valid_status status ≡ true
unfolding is_valid_status
Phase-status absent p a b st h r e = refl
Phase-status (unknown s) p a b st h r e = absurd e
Phase-status _ p a b st h r e = refl

module _ (s : RuntimeSnapshot) where
  pub wellformed_of_valid : validate_runtime_snapshot s ≡ ok tt → IsWellFormed s
  unfolding before is_zero
  wellformed_of_valid h =
      let c = checked s h in
      record {
        id = c.texts.0;
        environment_id = c.texts.1;
        runtime_preset = c.texts.2;
        region = c.texts.3;
        availability_zone = c.texts.4;
        image_version = c.texts.5;
        sequence = c.numbers.0;
        version = c.numbers.1;
        created = ground (arith, c.times.0);
        updated = ground (arith, c.times.2);
        started_within = outside→within s.created_at s.updated_at s.started_at c.within.0;
        stopped_within = outside→within s.created_at s.updated_at s.stopped_at c.within.1;
        retired_within = outside→within s.created_at s.updated_at s.retired_at c.within.2;
        provider = (state_checks s c.state).0;
        address = (state_checks s c.state).1;
        boot = (state_checks s c.state).2;
        phase = state_phase s c.status c.state;
      }

  pub valid_of_wellformed : IsWellFormed s → validate_runtime_snapshot s ≡ ok tt
  unfolding before is_zero
  valid_of_wellformed w = checked_back s (record {
    texts =
        (w.id, w.environment_id, w.runtime_preset, w.region, w.availability_zone, w.image_version);
    numbers = (w.sequence, w.version);
    status = Phase-status s.status _ _ _ _ _ _ w.phase;
    times = (ground arith, ground arith, ground arith);
    within = (
      within→outside s.created_at s.updated_at s.started_at w.started_within,
      within→outside s.created_at s.updated_at s.stopped_at w.stopped_within,
      within→outside s.created_at s.updated_at s.retired_at w.retired_within,
    );
    state = phase_state s w.provider w.address w.boot w.phase;
  })

  -- The checks of validateRuntimeSnapshot pass for exactly the well-formed Runtimes.
  pub validate_runtime-iff-IsWellFormed : (validate_runtime_snapshot s ≡ ok tt) ↔ IsWellFormed s
  validate_runtime-iff-IsWellFormed = (wellformed_of_valid, valid_of_wellformed)
