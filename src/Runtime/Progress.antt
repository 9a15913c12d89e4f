-- ===== src/Runtime/Progress.antt =====
-- libs/domain/runtime.go: when a call must succeed, and what a repeated or a late call does.
use sshai.Base.{
  ◌≤◌, String, false, Option, none, some, ◌≡◌, ◌≢◌, refl, inl, inr, arith, ap, ◌∙◌, ℤ, is_nat,
  max_int64, inc_int64, below_one, Time, before, is_zero, is_empty, is_untrimmed, to_canonical, ok,
}
use sshai.Runtime.Snapshot.{RuntimeSnapshot, Runtime, clone_runtime_snapshot}
use sshai.Runtime.Operations.{
  finalize_runtime_transition, RuntimeCall, provision_call, mark_provision_error_call,
  begin_start_call, begin_stop_call, begin_replacement_call, mark_ready_call, mark_stopped_call,
  mark_error_call, retire_call, call_runtime,
}
use sshai.Runtime.WellFormed.{IsWellFormed, Within, wellformed_of_valid, valid_of_wellformed}
use sshai.Runtime.Steps.{Accepts, change, Admits, Repeats, time_of}
use sshai.Runtime.Cases.{call_runtime-Outcome, call_runtime_admitted, call_runtime_repeated, Named}
use sshai.Runtime.Invariant.{clone-IsWellFormed, change-kept, finalize-eq, finalize-IsWellFormed}

-- What the new texts of a call must be, and that only an allocated Runtime is replaced.
abbrev pub Usable : RuntimeCall → RuntimeSnapshot → Type 0
Usable (provision_call p at) s = is_untrimmed p ≡ false
Usable (mark_ready_call o) s = is_untrimmed o.boot_id ≡ false
Usable (begin_replacement_call at) s = s.provider_instance_ref ≢ none
Usable c s = Unit {0}

Within-later :
    (from until later : Time) (o : Option Time)
    → until.instant ≤ later.instant
    → Within from until o
    → Within from later o
Within-later from until later none h w = tt
Within-later from until later (some t) h w = (w.0, omega arith)

inc_int64_positive :
    (v : ℤ) → below_one v ≡ false → is_nat v max_int64 ≡ false → below_one (inc_int64 v) ≡ false
unfolding inc_int64
inc_int64_positive v p r = ground arith

abbrev finalized : RuntimeSnapshot → Time → RuntimeSnapshot
finalized n at = record n { updated_at = to_canonical at; version = inc_int64 n.version }

finalize_succeeds :
    (n : RuntimeSnapshot) (at : Time)
    → is_nat n.version max_int64 ≡ false
    → IsWellFormed (finalized n at)
    → finalize_runtime_transition n at
      ≡ ok (record { snapshot = clone_runtime_snapshot (finalized n at) })
unfolding finalize_runtime_transition
finalize_succeeds n at room w = ground (arith, valid_of_wellformed (finalized n at) w)

module _ (s : RuntimeSnapshot) (w : IsWellFormed s) (at : Time)
    (later : s.updated_at.instant ≤ at.instant) (room : is_nat s.version max_int64 ≡ false) where
  -- A change of the times and of the version alone.
  moved : IsWellFormed (finalized s at)
  unfolding to_canonical
  moved = record {
    id = w.id;
    environment_id = w.environment_id;
    runtime_preset = w.runtime_preset;
    region = w.region;
    availability_zone = w.availability_zone;
    image_version = w.image_version;
    sequence = w.sequence;
    version = inc_int64_positive s.version w.version room;
    created = w.created;
    updated = omega (arith, w.updated);
    started_within =
        Within-later s.created_at s.updated_at (to_canonical at) s.started_at later
          w.started_within;
    stopped_within =
        Within-later s.created_at s.updated_at (to_canonical at) s.stopped_at later
          w.stopped_within;
    retired_within =
        Within-later s.created_at s.updated_at (to_canonical at) s.retired_at later
          w.retired_within;
    provider = w.provider;
    address = w.address;
    boot = w.boot;
    phase = w.phase;
  }

change-IsWellFormed :
    (c : RuntimeCall) (s : RuntimeSnapshot)
    → IsWellFormed s
    → s.updated_at.instant ≤ (time_of c).instant
    → is_nat s.version max_int64 ≡ false
    → Admits c s
    → Usable c s
    → IsWellFormed (finalized (change c s) (time_of c))
unfolding to_canonical
change-IsWellFormed (provision_call p at) s w l room a u =
    let m = moved s w (at) l room in ground arith
change-IsWellFormed (mark_provision_error_call at) s w l room a u =
    let m = moved s w (at) l room in ground arith
change-IsWellFormed (begin_start_call at) s w l room a u =
    let m = moved s w (at) l room in ground arith
change-IsWellFormed (begin_stop_call at) s w l room a u =
    let m = moved s w (at) l room in ground arith
change-IsWellFormed (begin_replacement_call at) s w l room a u =
    let m = moved s w (at) l room in ground arith
change-IsWellFormed (mark_ready_call o) s w l room a u =
    let m = moved s w (o.observed_at) l room in ground arith
change-IsWellFormed (mark_stopped_call o) s w l room a u =
    let m = moved s w (o.observed_at) l room in ground arith
change-IsWellFormed (mark_error_call o) s w l room a u =
    let m = moved s w (o.observed_at) l room in ground arith
change-IsWellFormed (retire_call o) s w l room a u =
    let m = moved s w (o.observed_at) l room in ground arith

clone-Admits :
    (c : RuntimeCall) (s : RuntimeSnapshot) → Admits c s → Admits c (clone_runtime_snapshot s)
unfolding clone_runtime_snapshot
clone-Admits (begin_stop_call at) s a = ground arith
clone-Admits _ s a = ground arith

clone-Usable :
    (c : RuntimeCall) (s : RuntimeSnapshot) → Usable c s → Usable c (clone_runtime_snapshot s)
unfolding clone_runtime_snapshot
clone-Usable (begin_stop_call at) s a = ground arith
clone-Usable _ s a = ground arith

Accepts-of_IsWellFormed :
    (s : RuntimeSnapshot) (at : Time)
    → IsWellFormed s
    → s.updated_at.instant ≤ at.instant
    → Accepts s at
unfolding is_zero before
Accepts-of_IsWellFormed s at w l =
    let v = valid_of_wellformed _ (clone-IsWellFormed w) in
    record { valid = v; set = ground (arith, w.created, w.updated); later = ground arith }

is_empty_of_trimmed : (p : String) → is_untrimmed p ≡ false → is_empty p ≡ false
unfolding is_untrimmed
is_empty_of_trimmed String.[] h = cc
is_empty_of_trimmed (String.◌∷◌ c p) h = refl

Repeats-Named : (c : RuntimeCall) (s : RuntimeSnapshot) → IsWellFormed s → Repeats c s → Named c
Repeats-Named (provision_call p at) s w e = is_empty_of_trimmed p (ground (arith, w.provider))
Repeats-Named _ s w e = tt

module _ (c : RuntimeCall) (r : Runtime) (w : IsWellFormed r.snapshot)
    (later : r.snapshot.updated_at.instant ≤ (time_of c).instant) where
  -- From a well-formed Runtime whose version is not the last one, an admitted call with usable
  -- arguments, at a time not before the last update, succeeds with the status that it asks for.
  pub call_runtime_succeeds :
      is_nat r.snapshot.version max_int64 ≡ false
      → Admits c r.snapshot
      → ¬ Repeats c r.snapshot
      → Usable c r.snapshot
      → (r' : Runtime) × (call_runtime c r ≡ ok r')
        × (r'.snapshot.status ≡ (change c r.snapshot).status)
  unfolding clone_runtime_snapshot
  call_runtime_succeeds room a n u =
      let cloned = clone_runtime_snapshot r.snapshot in
      let k = change-kept c r.snapshot in
      (
        record { snapshot = clone_runtime_snapshot (finalized (change c cloned) (time_of c)) },
        call_runtime_admitted c r (Accepts-of_IsWellFormed r.snapshot (time_of c) w later) a n
            ∙ finalize_succeeds (change c cloned) (time_of c)
                (ap (λ (v : ℤ). is_nat v max_int64) k.8 ∙ room)
                (change-IsWellFormed c cloned (clone-IsWellFormed w) later room (clone-Admits c _ a)
                  (clone-Usable c _ u)),
        k.9,
      )

  -- A call whose outcome is there already returns the Runtime as it was.
  pub call_runtime-Repeats : Repeats c r.snapshot → call_runtime c r ≡ ok r
  call_runtime-Repeats e =
      call_runtime_repeated c r (Accepts-of_IsWellFormed r.snapshot (time_of c) w later) e
        (Repeats-Named c r.snapshot w e)

-- The outcome of a change is there after it.
change-Repeats :
    (c : RuntimeCall) (s : RuntimeSnapshot)
    → IsWellFormed (clone_runtime_snapshot s)
    → Admits c s
    → Repeats c
        (clone_runtime_snapshot (finalized (change c (clone_runtime_snapshot s)) (time_of c)))
unfolding clone_runtime_snapshot
change-Repeats (provision_call p at) s w a = ground arith
change-Repeats (mark_provision_error_call at) s w a = ground (arith, w.phase)
change-Repeats (begin_start_call at) s w a = ground arith
change-Repeats (begin_stop_call at) s w a = ground arith
change-Repeats (begin_replacement_call at) s w a = ground arith
change-Repeats (mark_ready_call o) s w a = ground arith
change-Repeats (mark_stopped_call o) s w a = ground arith
change-Repeats (mark_error_call o) s w a = ground arith
change-Repeats (retire_call o) s w a = ground arith

-- A call that succeeded, delivered again to the Runtime that it returned, returns that Runtime
-- again.
pub call_runtime_idem :
    (c : RuntimeCall) (r : Runtime) {r' : Runtime}
    → call_runtime c r ≡ ok r'
    → call_runtime c r' ≡ ok r'
unfolding clone_runtime_snapshot to_canonical
call_runtime_idem c r {r'} h = elim (call_runtime-Outcome c r h) [
  | inl (same, repeats) ↦ rw same (h ∙ ap ok same)
  | inr (accepts, admits, done) ↦
      let e = finalize-eq _ _ done in
      call_runtime-Repeats c r' (finalize-IsWellFormed _ _ done) (rw e (omega arith))
        (rw e (change-Repeats c r.snapshot (wellformed_of_valid _ accepts.valid) admits))
]
