-- ===== src/Runtime/Late.antt =====
-- libs/domain/runtime.go: calls that must change nothing: late observations, and any call on a
-- Runtime whose allocation failed.
use sshai.Base.{Option, none, some, ◌≡◌, ◌≢◌, refl, inl, inr, arith, ap, sym, ◌∙◌, ℤ, inc_int64, ok}
use sshai.Runtime.Status.{error}
use sshai.Runtime.Snapshot.{RuntimeSnapshot, Runtime, clone_runtime_snapshot}
use sshai.Runtime.Operations.{
  RuntimeCall, provision_call, mark_provision_error_call, begin_start_call, begin_stop_call,
  begin_replacement_call, mark_ready_call, mark_stopped_call, mark_error_call, retire_call,
  call_runtime,
}
use sshai.Runtime.WellFormed.{IsWellFormed}
use sshai.Runtime.Steps.{change, Admits}
use sshai.Runtime.Cases.{call_runtime-Outcome}
use sshai.Runtime.Invariant.{Follows, finalize-IsWellFormed, finalize-eq}

-- No call is admitted on an unallocated Runtime in error with a well-formed result.
no_way_on :
    (c : RuntimeCall) (s t : RuntimeSnapshot)
    → s.status ≡ error
    → s.provider_instance_ref ≡ none
    → Admits c s
    → t.status ≡ (change c s).status
    → t.provider_instance_ref ≡ (change c s).provider_instance_ref
    → IsWellFormed t
    → ⊥
no_way_on (provision_call p at) s t e n a es ep w = ground (arith, w.phase)
no_way_on (mark_provision_error_call at) s t e n a es ep w = ground (arith, w.phase)
no_way_on (begin_start_call at) s t e n a es ep w = ground (arith, w.phase)
no_way_on (begin_stop_call at) s t e n a es ep w = ground (arith, w.phase)
no_way_on (begin_replacement_call at) s t e n a es ep w = ground (arith, w.phase)
no_way_on (mark_ready_call o) s t e n a es ep w = ground (arith, w.phase)
no_way_on (mark_stopped_call o) s t e n a es ep w = ground (arith, w.phase)
no_way_on (mark_error_call o) s t e n a es ep w = ground (arith, w.phase)
no_way_on (retire_call o) s t e n a es ep w = ground (arith, w.phase)

change-shown :
    (c : RuntimeCall) (s : RuntimeSnapshot)
    → let t = change c (clone_runtime_snapshot s) in
      (t.status ≡ (change c s).status)
      × (t.provider_instance_ref ≡ (change c s).provider_instance_ref)
unfolding clone_runtime_snapshot
change-shown (begin_stop_call at) s = (refl, refl)
change-shown _ s = (refl, refl)

-- On a Runtime in error with no provider instance, a call that succeeds returns the Runtime as it
-- was.
pub unallocated_error_is_final :
    (c : RuntimeCall) (r : Runtime) {r' : Runtime}
    → r.snapshot.status ≡ error
    → r.snapshot.provider_instance_ref ≡ none
    → call_runtime c r ≡ ok r'
    → r' ≡ r
unfolding clone_runtime_snapshot
unallocated_error_is_final c r {r'} st none_yet h = elim (call_runtime-Outcome c r h) [
  | inl (same, repeats) ↦ same
  | inr (accepts, admits, done) ↦
      let e = finalize-eq _ _ done in
      let k = change-shown c r.snapshot in
      absurd (
        no_way_on c r.snapshot r'.snapshot st none_yet admits
          (ap (λ (s : RuntimeSnapshot). s.status) e ∙ k.0)
          (ap (λ (s : RuntimeSnapshot). s.provider_instance_ref) e ∙ k.1)
          (finalize-IsWellFormed _ _ done))
]

-- The version that an observation was made at.
abbrev pub expected_by : RuntimeCall → Option ℤ
expected_by (mark_ready_call o) = some o.expected_version
expected_by (mark_stopped_call o) = some o.expected_version
expected_by (mark_error_call o) = some o.expected_version
expected_by (retire_call o) = some o.expected_version
expected_by _ = none

inc_int64-ne : (v : ℤ) → inc_int64 v ≢ v
unfolding inc_int64
inc_int64-ne v e = ground arith

admitted_current :
    (c : RuntimeCall) (s : RuntimeSnapshot) (v : ℤ)
    → expected_by c ≡ some v
    → Admits c s
    → v ≡ s.version
admitted_current (mark_ready_call o) s v e a = ground arith
admitted_current (begin_stop_call at) s v e a = cc
admitted_current _ s v e a = ground arith

-- A Runtime that one change led to from a state, given an observation that expects the version of
-- that state: when the call succeeds it returns the Runtime as it was.
pub late_observation_unchanged :
    (c : RuntimeCall) (s : RuntimeSnapshot) (r : Runtime) {r' : Runtime}
    → Follows s r.snapshot
    → expected_by c ≡ some s.version
    → call_runtime c r ≡ ok r'
    → r' ≡ r
late_observation_unchanged c s r f e h = elim (call_runtime-Outcome c r h) [
  | inl (same, repeats) ↦ same
  | inr (accepts, admits, done) ↦
      absurd (
        inc_int64-ne s.version (sym (admitted_current c r.snapshot s.version e admits ∙ f.version)))
]
