-- ===== src/AutoStop/Runs.antt =====
-- apps/workflows/auto_stop.go: the stops that a run of messages requests.
use sshai.Base.{
  ℕ, ◌+◌, ◌<◌, String, ◌<>◌, true, false, some, ◌≡◌, ◌≢◌, refl, ap, sym, ◌∙◌, arith, ok, max_uint64,
  show_injective, append_cancel_left,
}
use sshai.AutoStop.Coordinator.{
  AutoStopCoordinationState, AutoStopTransition, RuntimeStopRequest, seen, stop_request, stop_key,
}
use sshai.AutoStop.Object.{Message, handle}
use sshai.AutoStop.Stops.{handle-Stops}
use sshai.AutoStop.Once.{Later, Later-refl, Later-trans, handle-Later}

-- The messages that lead from one state to another, while the generations are far from the end of
-- the uint64.
pub data Run : AutoStopCoordinationState → AutoStopCoordinationState → Type 0 where
  here : {s : AutoStopCoordinationState} → Run s s
  next :
      (m : Message) {s s' : AutoStopCoordinationState} (t : AutoStopTransition)
      → s.timer_generation + 1 < max_uint64
      → handle m s ≡ ok t
      → Run t.state s'
      → Run s s'

Run-Later : {s s' : AutoStopCoordinationState} → Run s s' → Later s s'
Run-Later (here {s}) = Later-refl s
Run-Later (next m {s} {s'} t room h rest) =
    Later-trans s t.state s' (handle-Later s room m t h) (Run-Later rest)

stop_key_injective : (env rt : String) (m n : ℕ) → stop_key env rt m ≡ stop_key env rt n → m ≡ n
unfolding stop_key
stop_key_injective env rt m n h = show_injective m n (
    strip ":" _ _ (
      strip rt _ _ (
        strip ":" _ _ (
          strip env _ _ (
            strip ":" _ _
              (strip "auto_stop" _ _ (strip "runtime.stop:" _ _ (strip "system:" _ _ h))))))))
  where
    strip : (p s t : String) → p <> s ≡ p <> t → s ≡ t
    strip = append_cancel_left

-- What a requested stop tells of the state before it and of the one after it.
requested :
    (s : AutoStopCoordinationState) (m : Message) (t : AutoStopTransition) (r : RuntimeStopRequest)
    → handle m s ≡ ok t
    → t.stop ≡ some r
    → (s.timer_pending ≡ true)
      × (r.idempotency_key ≡ stop_key s.environment_id s.runtime_id s.timer_generation)
      × (r.runtime_id ≡ s.runtime_id)
      × (t.state.timer_pending ≡ false)
      × (t.state.timer_generation ≡ s.timer_generation)
      × (t.state.environment_id ≡ s.environment_id)
unfolding stop_request seen
requested s m t r h stop =
    let (e, (d, began, finished, pending, current, _, _, _, state, asked, _)) =
      handle-Stops s t stop m h in
    let f : r ≡ stop_request s e began finished = ground (arith, asked, stop) in
    (pending, rw (f, current) refl, rw f refl, rw state refl, rw state refl, rw state refl)

-- Along a run of messages, with generations far from the end of the uint64 between them, two
-- requested stops of one Runtime never have the same idempotency key.
pub stops-distinct :
    (s s' : AutoStopCoordinationState) (m m' : Message) (t t' : AutoStopTransition)
    (r r' : RuntimeStopRequest)
    → handle m s ≡ ok t
    → t.stop ≡ some r
    → Run t.state s'
    → handle m' s' ≡ ok t'
    → t'.stop ≡ some r'
    → r.runtime_id ≡ r'.runtime_id
    → r.idempotency_key ≢ r'.idempotency_key
stops-distinct s s' m m' t t' r r' h stop run h' stop' same key =
    let (_, k, o, idle, g, env) = requested s m t r h stop in
    let (pending, k', o', _, _, _) = requested s' m' t' r' h' stop' in
    let (_, env', newer) = Run-Later run in
    let f : stop_key s.environment_id s.runtime_id s.timer_generation
        ≡ stop_key s.environment_id s.runtime_id s'.timer_generation =
      sym k
      ∙ key
      ∙ k'
      ∙ ap (λ e. stop_key e s'.runtime_id s'.timer_generation) (sym env' ∙ env)
      ∙ ap (λ rt. stop_key s.environment_id rt s'.timer_generation) (sym o' ∙ sym same ∙ o) in
    ground (
      arith,
      newer idle pending,
      g,
      stop_key_injective s.environment_id s.runtime_id s.timer_generation s'.timer_generation f,
    )
