-- ===== src/State/Exact.antt =====
-- libs/domain/environment_state.go: what a restored state consists of.
use sshai.Base.{
  String, true, false, some, List, [], ◌∷◌, ◌≡◌, inl, inr, refl, ap, sym, arith, Bool-cases,
  same_text, same_text_iff, has_text, ok,
}
use sshai.Environment.Snapshot.{EnvironmentSnapshot}
use sshai.State.Model.{
  StateComponentKind, StateComponentSnapshot, DataVolumeResourceSnapshot, same_component_kind,
  bad_component, by_kind, collect,
}

-- The identities that were seen, the last one first.
abbrev pub ids_of : DataVolumeResourceSnapshot → List StateComponentSnapshot → List String
ids_of b [] = b.id ∷ []
ids_of b (c ∷ rest) = c.id ∷ ids_of b rest

-- Components that are valid, with distinct identities.
abbrev pub AllValid :
    EnvironmentSnapshot → DataVolumeResourceSnapshot → List StateComponentSnapshot → Type 0
AllValid e b [] = Unit {0}
AllValid e b (c ∷ rest) =
    (bad_component e b c ≡ false) × (has_text c.id (ids_of b rest) ≡ false) × AllValid e b rest

has_text-other :
    (s t : String) (texts : List String)
    → has_text s texts ≡ false
    → has_text t texts ≡ true
    → same_text s t ≡ false
has_text-other s t texts a b = elim (Bool-cases (same_text s t)) [
  | inl same ↦
      absurd
        (ground (arith, a, b, ap (λ (x : String). has_text x texts) ((same_text_iff s t).0 same)))
  | inr other ↦ other
]

apart_both :
    (s t : String) → same_text s t ≡ false → (same_text s t ≡ false) × (same_text t s ≡ false)
apart_both s t h = elim (Bool-cases (same_text t s)) [
  | inl same ↦ absurd (ground (arith, h, (same_text_iff s t).1 (sym ((same_text_iff t s).0 same))))
  | inr other ↦ (h, other)
]

module _ (e : EnvironmentSnapshot) (b : DataVolumeResourceSnapshot) where
  pub collect-AllValid :
      (found components out : List StateComponentSnapshot)
      → AllValid e b found
      → collect e b (ids_of b found) found components ≡ ok out
      → AllValid e b out
  unfolding collect
  collect-AllValid found [] out v h = let f : out ≡ found = ground (arith, h) in rw f v
  collect-AllValid found (c ∷ rest) out v h =
      collect-AllValid (c ∷ found) rest out (ground (arith, h), ground (arith, h), v)
        (ground (arith, h))

  pub by_kind-valid :
      (k : StateComponentKind) (found : List StateComponentSnapshot) (x : StateComponentSnapshot)
      → AllValid e b found
      → by_kind k found ≡ some x
      → (bad_component e b x ≡ false)
        × (same_component_kind x.kind k ≡ true)
        × (has_text x.id (ids_of b found) ≡ true)
  unfolding by_kind has_text
  by_kind-valid k [] x v h = absurd (ground (arith, h))
  by_kind-valid k (c ∷ rest) x v h = elim (Bool-cases (same_component_kind c.kind k)) [
    | inl same ↦
        let f : x ≡ c = ground (arith, h, same) in
        rw f (v.0, same, ground (arith, (same_text_iff c.id c.id).1 refl))
    | inr other ↦
        let (good, kind, seen) = by_kind-valid k rest x v.2 (ground (arith, h, other)) in
        (good, kind, ground (arith, seen))
  ]

  -- Components of different kinds have different identities.
  pub by_kind-apart :
      (k l : StateComponentKind) (found : List StateComponentSnapshot)
      (x y : StateComponentSnapshot)
      → ((m : StateComponentKind)
          → same_component_kind m k ≡ true
          → same_component_kind m l ≡ false)
      → AllValid e b found
      → by_kind k found ≡ some x
      → by_kind l found ≡ some y
      → (same_text x.id y.id ≡ false) × (same_text y.id x.id ≡ false)
  unfolding by_kind
  by_kind-apart k l [] x y d v g h = absurd (ground (arith, g))
  by_kind-apart k l (c ∷ rest) x y d v g h = elim (Bool-cases (same_component_kind c.kind k)) [
    | inl first ↦
        let f : x ≡ c = ground (arith, g, first) in
        let seen = (by_kind-valid l rest y v.2 (ground (arith, h, d c.kind first))).2 in
        rw f (apart_both c.id y.id (has_text-other c.id y.id (ids_of b rest) v.1 seen))
    | inr other ↦ elim (Bool-cases (same_component_kind c.kind l)) [
      | inl second ↦
          let f : y ≡ c = ground (arith, h, second) in
          let seen = (by_kind-valid k rest x v.2 (ground (arith, g, other))).2 in
          let (p, q) = apart_both c.id x.id (has_text-other c.id x.id (ids_of b rest) v.1 seen) in
          rw f (q, p)
      | inr neither ↦
          by_kind-apart k l rest x y d v.2 (ground (arith, g, other)) (ground (arith, h, neither))
    ]
  ]

  backend_seen : (found : List StateComponentSnapshot) → has_text b.id (ids_of b found) ≡ true
  unfolding has_text
  backend_seen [] = ground (arith, (same_text_iff b.id b.id).1 refl)
  backend_seen (c ∷ rest) = ground (arith, backend_seen rest)

  pub by_kind-backend :
      (k : StateComponentKind) (found : List StateComponentSnapshot) (x : StateComponentSnapshot)
      → AllValid e b found
      → by_kind k found ≡ some x
      → same_text x.id b.id ≡ false
  unfolding by_kind
  by_kind-backend k [] x v h = absurd (ground (arith, h))
  by_kind-backend k (c ∷ rest) x v h = elim (Bool-cases (same_component_kind c.kind k)) [
    | inl same ↦
        let f : x ≡ c = ground (arith, h, same) in
        rw f (has_text-other c.id b.id (ids_of b rest) v.1 (backend_seen rest))
    | inr other ↦ by_kind-backend k rest x v.2 (ground (arith, h, other))
  ]
