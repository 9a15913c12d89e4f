-- ===== src/State/Restore.antt =====
-- libs/domain/environment_state.go: a restored state has the four components and restores to itself.
use sshai.Base.{ℕ, Bool, false, some, List, [], ◌∷◌, ◌≡◌, refl, ap, arith, has_text, ok, bind_ok}
use sshai.Environment.Snapshot.{deleted, same_lifecycle, EnvironmentSnapshot, Environment}
use sshai.Operation.Model.{Operation}
use sshai.State.Model.{
  StateComponentKind, workspace, home, services, cache, StateComponentSnapshot,
  DataVolumeResourceSnapshot, EnvironmentState, EnvironmentStateReservation, is_foreign,
  same_component_kind, by_kind, collect, required, ordered, bad_backend, restore_environment_state,
}
use sshai.State.Reserve.{reserve_environment_state, components_of, backend_of}
use sshai.State.Exact.{AllValid, collect-AllValid, by_kind-valid, by_kind-apart, by_kind-backend}

-- A workspace, a home, the services and a cache, in this order, each valid for the Environment and
-- the volume, with identities that differ from each other and from the volume's.
pub record IsExact (e : EnvironmentSnapshot) (b : DataVolumeResourceSnapshot)
    (found : List StateComponentSnapshot) : Type 0 where
  pub w : StateComponentSnapshot
  pub h : StateComponentSnapshot
  pub s : StateComponentSnapshot
  pub c : StateComponentSnapshot
  pub four : found ≡ w ∷ h ∷ s ∷ c ∷ []
  pub kinds : (w.kind ≡ workspace) × (h.kind ≡ home) × (s.kind ≡ services) × (c.kind ≡ cache)
  pub valid : AllValid e b (c ∷ s ∷ h ∷ w ∷ [])

required-some :
    (k : StateComponentKind) (found : List StateComponentSnapshot) (x : StateComponentSnapshot)
    → required k found ≡ ok x
    → by_kind k found ≡ some x
unfolding required
required-some k found x h = ground (arith, h)

module _ (e : EnvironmentSnapshot) (b : DataVolumeResourceSnapshot) where
  module _ (found : List StateComponentSnapshot) (v : AllValid e b found) where
    four-IsExact :
        (w h s c : StateComponentSnapshot)
        → by_kind workspace found ≡ some w
        → by_kind home found ≡ some h
        → by_kind services found ≡ some s
        → by_kind cache found ≡ some c
        → IsExact e b (w ∷ h ∷ s ∷ c ∷ [])
    unfolding has_text same_component_kind
    four-IsExact w h s c w' h' s' c' =
        let vw = by_kind-valid e b workspace found w v w' in
        let vh = by_kind-valid e b home found h v h' in
        let vs = by_kind-valid e b services found s v s' in
        let vc = by_kind-valid e b cache found c v c' in
        record {
          w = w;
          h = h;
          s = s;
          c = c;
          four = refl;
          kinds = (
            ground (arith, vw.1),
            ground (arith, vh.1),
            ground (arith, vs.1),
            ground (arith, vc.1),
          );
          valid = (
            vc.0,
            ground (
              arith,
              by_kind-apart e b cache services found c s (λ m p. ground (arith, p)) v c' s',
              by_kind-apart e b cache home found c h (λ m p. ground (arith, p)) v c' h',
              by_kind-apart e b cache workspace found c w (λ m p. ground (arith, p)) v c' w',
              by_kind-backend e b cache found c v c',
            ),
            (
              vs.0,
              ground (
                arith,
                by_kind-apart e b services home found s h (λ m p. ground (arith, p)) v s' h',
                by_kind-apart e b services workspace found s w (λ m p. ground (arith, p)) v s' w',
                by_kind-backend e b services found s v s',
              ),
              (
                vh.0,
                ground (
                  arith,
                  by_kind-apart e b home workspace found h w (λ m p. ground (arith, p)) v h' w',
                  by_kind-backend e b home found h v h',
                ),
                (vw.0, ground (arith, by_kind-backend e b workspace found w v w'), tt),
              ),
            ),
          );
        }

    ordered-IsExact : (out : List StateComponentSnapshot) → ordered found ≡ ok out → IsExact e b out
    unfolding ordered
    ordered-IsExact out g =
        let (w, e0, g0) = bind_ok (required workspace found) _ g in
        let (h, e1, g1) = bind_ok (required home found) _ g0 in
        let (s, e2, g2) = bind_ok (required services found) _ g1 in
        let (c, e3, g3) = bind_ok (required cache found) _ g2 in
        let f : out ≡ w ∷ h ∷ s ∷ c ∷ [] = ground (arith, g3) in
        rw f (
          four-IsExact w h s c (required-some workspace found w e0) (required-some home found h e1)
            (required-some services found s e2) (required-some cache found c e3))

  -- The four components in their order are collected, and put in that order again.
  module _ (w h s c : StateComponentSnapshot) (kw : w.kind ≡ workspace) (kh : h.kind ≡ home)
      (ks : s.kind ≡ services) (kc : c.kind ≡ cache) where
    collect_again :
        AllValid e b (c ∷ s ∷ h ∷ w ∷ [])
        → collect e b (b.id ∷ []) [] (w ∷ h ∷ s ∷ c ∷ []) ≡ ok (c ∷ s ∷ h ∷ w ∷ [])
    unfolding collect by_kind same_component_kind
    collect_again (vc, ic, (vs, is, (vh, ih, (vw, iw, _)))) =
        ground (arith, kw, kh, ks, kc, vc, ic, vs, is, vh, ih, vw, iw)

    ordered_again : ordered (c ∷ s ∷ h ∷ w ∷ []) ≡ ok (w ∷ h ∷ s ∷ c ∷ [])
    unfolding ordered required by_kind same_component_kind
    ordered_again = ground (arith, kw, kh, ks, kc)

module _ (json_object : List ℕ → Bool) (environment : Environment) (operation : Operation)
    (components : List StateComponentSnapshot) (b : DataVolumeResourceSnapshot)
    (state : EnvironmentState) where
  restored :
      restore_environment_state json_object environment operation components b ≡ ok state
      → (same_lifecycle environment.snapshot.lifecycle deleted ≡ false)
        × (is_foreign environment.snapshot operation.snapshot ≡ false)
        × (bad_backend json_object environment.snapshot operation.snapshot b ≡ false)
        × (state.environment ≡ environment)
        × (state.backend ≡ b)
        × IsExact environment.snapshot b state.components
  unfolding restore_environment_state
  restored r =
      let e = environment.snapshot in
      let alive : same_lifecycle e.lifecycle deleted ≡ false = ground (arith, r) in
      let own : is_foreign e operation.snapshot ≡ false = ground (arith, r) in
      let good : bad_backend json_object e operation.snapshot b ≡ false = ground (arith, r) in
      let (found, f, r0) =
        bind_ok (collect e b (b.id ∷ []) [] components) _ (rw (alive, own, good) at r) in
      let (four, g, r1) = bind_ok (ordered found) _ r0 in
      let q : state ≡ record { environment = environment; components = four; backend = b } =
        ground (arith, r1) in
      (
        alive,
        own,
        good,
        ap (λ (x : EnvironmentState). x.environment) q,
        ap (λ (x : EnvironmentState). x.backend) q,
        rw q (ordered-IsExact e b found (collect-AllValid e b [] components found tt f) four g),
      )

  -- A restored state is of the Environment and the volume that it was restored from, and has exactly
  -- one valid component of each of the four kinds, in order, with distinct identities.
  pub restore-IsExact :
      restore_environment_state json_object environment operation components b ≡ ok state
      → (state.environment ≡ environment)
        × (state.backend ≡ b)
        × IsExact environment.snapshot b state.components
  restore-IsExact r = let (_, _, _, e, f, x) = restored r in (e, f, x)

  -- A restored state is restored from its own components and volume as it is.
  pub restore-restore :
      restore_environment_state json_object environment operation components b ≡ ok state
      → restore_environment_state json_object environment operation state.components state.backend
        ≡ ok state
  unfolding restore_environment_state
  restore-restore r =
      let (alive, own, good, same, volume, x) = restored r in
      let e = environment.snapshot in
      let first =
        collect_again e b x.w x.h x.s x.c x.kinds.0 x.kinds.1 x.kinds.2 x.kinds.3 x.valid in
      let second = ordered_again e b x.w x.h x.s x.c x.kinds.0 x.kinds.1 x.kinds.2 x.kinds.3 in
      rw (volume, x.four) (ground (arith, alive, own, good, first, second, same, volume, x.four))

-- A state that is reserved is restored from its components and volume as it is, and has exactly the
-- four components.
pub restore-reserve :
    (json_object json_valid : List ℕ → Bool) (environment : Environment) (operation : Operation)
    (r : EnvironmentStateReservation) (state : EnvironmentState)
    → reserve_environment_state json_object json_valid environment operation r ≡ ok state
    → (restore_environment_state json_object environment operation state.components state.backend
        ≡ ok state)
      × IsExact environment.snapshot state.backend state.components
unfolding reserve_environment_state
restore-reserve json_object json_valid environment operation r state h =
    let g : restore_environment_state json_object environment operation
          (components_of environment.snapshot r)
          (backend_of environment.snapshot operation.snapshot r)
        ≡ ok state =
      ground (arith, h) in
    let (_, volume, x) = restore-IsExact json_object environment operation _ _ state g in
    (restore-restore json_object environment operation _ _ state g, rw volume x)
