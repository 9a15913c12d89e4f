-- ===== src/Reconcile/Steady.antt =====
-- libs/domain/reconciliation.go: when nothing diverges.
use sshai.Base.{
  String, true, false, ◌||◌, Option, none, some, List, [], ◌∷◌, ◌++◌, ◌≡◌, ◌↔◌, ◌⊎◌, inl, inr, refl,
  ap, sym, ◌∙◌, arith, Bool-cases, is_empty, is_some, same_text, same_text_iff, has_text,
  if◌then◌else◌,
}
use sshai.Capsule.Lock.{ResolvedComponent, CapsuleLockSnapshot}
use sshai.Reconcile.Model.{
  InstalledComponentState, ComponentDivergence, at_key, put, keys, by_id, without, sort_strings,
  divergence, divergences, reconcile_capsule_lock_components,
}
use sshai.Reconcile.Keys.{
  at_key-put, has_text-keys, has_text-append, has_text-sort, has_text-without, without-has_text,
}

-- The last state that is installed under an identity.
abbrev pub latest :
    String
    → List InstalledComponentState
    → Option InstalledComponentState
    → Option InstalledComponentState
latest id [] before = before
latest id (c ∷ rest) before =
    latest id rest (if same_text id c.component_id then some c else before)

-- Expected and observed are both absent, or both there with the same digests, none of them empty.
abbrev pub InStep :
    CapsuleLockSnapshot → Option ResolvedComponent → Option InstalledComponentState → Type 0
InStep lock none none = Unit {0}
InStep lock none (some o) = ⊥
InStep lock (some e) none = ⊥
InStep lock (some e) (some o) =
    ((o.lock_digest ≡ lock.digest)
      × (o.capsule_digest ≡ e.capsule_digest)
      × (o.component_digest ≡ e.component_digest))
    × ((is_empty o.lock_digest ≡ false)
        × (is_empty o.capsule_digest ≡ false)
        × (is_empty o.component_digest ≡ false))

at_key-by_id :
    (id : String) (installed : List InstalledComponentState)
    (found : List (String × InstalledComponentState))
    → at_key id (by_id installed found) ≡ latest id installed (at_key id found)
unfolding by_id
at_key-by_id id [] found = refl
at_key-by_id id (c ∷ rest) found =
    at_key-by_id id rest (put c.component_id c found)
    ∙ ap (latest id rest) (at_key-put id c.component_id c found)

module _ (lock : CapsuleLockSnapshot) where
  divergence-InStep :
      (id : String) (e : Option ResolvedComponent) (o : Option InstalledComponentState)
      → divergence lock id e o ≡ none
      → InStep lock e o
  unfolding divergence
  divergence-InStep id none none h = tt
  divergence-InStep id none (some o) h = absurd (ground (arith, h))
  divergence-InStep id (some e) none h = absurd (ground (arith, h))
  divergence-InStep id (some e) (some o) h = (
    (
      (same_text_iff o.lock_digest lock.digest).0 (ground (arith, h)),
      (same_text_iff o.capsule_digest e.capsule_digest).0 (ground (arith, h)),
      (same_text_iff o.component_digest e.component_digest).0 (ground (arith, h)),
    ),
    (ground (arith, h), ground (arith, h), ground (arith, h)),
  )

  InStep-divergence :
      (id : String) (e : Option ResolvedComponent) (o : Option InstalledComponentState)
      → (is_some e || is_some o) ≡ true
      → InStep lock e o
      → divergence lock id e o ≡ none
  unfolding divergence
  InStep-divergence id none none there w = absurd (ground (arith, there))
  InStep-divergence id none (some o) there w = absurd w
  InStep-divergence id (some e) none there w = absurd w
  InStep-divergence id (some e) (some o) there ((a, b, c), (x, y, z)) = ground (
    arith,
    x,
    y,
    z,
    (same_text_iff o.lock_digest lock.digest).1 a,
    (same_text_iff o.capsule_digest e.capsule_digest).1 b,
    (same_text_iff o.component_digest e.component_digest).1 c,
  )

  module _ (found : List (String × InstalledComponentState)) where
    abbrev of_id : String → Option ComponentDivergence
    of_id id = divergence lock id (at_key id lock.resolved_components) (at_key id found)

    steady :
        (seen ids : List String)
        → ((id : String) → has_text id ids ≡ true → of_id id ≡ none)
        → divergences lock found seen ids ≡ []
    unfolding divergences has_text
    steady seen [] w = refl
    steady seen (id ∷ rest) w =
        let rest_fine : (x : String) → has_text x rest ≡ true → of_id x ≡ none =
          λ x h. w x (ground (arith, h)) in
        ground (
          arith,
          steady seen rest rest_fine,
          steady (id ∷ seen) rest rest_fine,
          w id (ground (arith, (same_text_iff id id).1 refl)),
        )

    steady_each :
        (seen ids : List String) (id : String)
        → divergences lock found seen ids ≡ []
        → has_text id ids ≡ true
        → (has_text id seen ≡ true) ⊎ (of_id id ≡ none)
    unfolding divergences has_text
    steady_each seen [] id h m = absurd (ground (arith, m))
    steady_each seen (x ∷ rest) id h m = elim (Bool-cases (has_text x seen)) [
      | inl done ↦ elim (Bool-cases (same_text id x)) [
        | inl same ↦ inl (
            ground
              (arith, done, ap (λ (y : String). has_text y seen) ((same_text_iff id x).0 same)))
        | inr other ↦ steady_each seen rest id (ground (arith, h, done)) (ground (arith, m, other))
      ]
      | inr fresh ↦ elim (Bool-cases (same_text id x)) [
        | inl same ↦
            let f = (same_text_iff id x).0 same in
            let g : of_id x ≡ none = ground (arith, h, fresh) in inr (ap of_id f ∙ g)
        | inr other ↦
            elim (steady_each (x ∷ seen) rest id (ground (arith, h, fresh))
              (ground (arith, m, other))) [
                | inl there ↦ inl (ground (arith, there, other))
                | inr fine ↦ inr fine
              ]
      ]
    ]

    -- The identities of the loop.
    abbrev listed : List String
    listed =
        sort_strings
          (keys lock.resolved_components ++ without (keys found) (keys lock.resolved_components))

    known :
        (id : String)
        → has_text id listed ≡ true
        → (is_some (at_key id lock.resolved_components) || is_some (at_key id found)) ≡ true
    known id m =
        let desired = keys lock.resolved_components in
        let others = without (keys found) desired in
        ground (
          arith,
          m,
          has_text-sort id (desired ++ others),
          has_text-append id desired others,
          has_text-keys id lock.resolved_components,
          has_text-keys id found,
          without-has_text id (keys found) desired,
        )

    reached :
        (id : String)
        → (is_some (at_key id lock.resolved_components) || is_some (at_key id found)) ≡ true
        → has_text id listed ≡ true
    reached id m =
        let desired = keys lock.resolved_components in
        let others = without (keys found) desired in
        ground (
          arith,
          m,
          has_text-sort id (desired ++ others),
          has_text-append id desired others,
          has_text-keys id lock.resolved_components,
          has_text-keys id found,
          has_text-without id (keys found) desired,
        )

    neither :
        (e : Option ResolvedComponent) (o : Option InstalledComponentState)
        → (is_some e || is_some o) ≡ false
        → InStep lock e o
    neither none none h = tt
    neither none (some o) h = absurd (ground (arith, h))
    neither (some e) o h = absurd (ground (arith, h))

    each :
        divergences lock found [] listed ≡ []
        → (id : String) → InStep lock (at_key id lock.resolved_components) (at_key id found)
    unfolding has_text
    each h id =
        elim (Bool-cases
          (is_some (at_key id lock.resolved_components) || is_some (at_key id found))) [
            | inr absent ↦ neither (at_key id lock.resolved_components) (at_key id found) absent
            | inl there ↦ elim (steady_each [] listed id h (reached id there)) [
              | inl done ↦ absurd (ground (arith, done))
              | inr fine ↦
                  divergence-InStep id (at_key id lock.resolved_components) (at_key id found) fine
            ]
          ]

  -- Nothing diverges exactly when every component is in step: it is neither desired nor installed, or
  -- it is both, and its last installed state has the lock's digest and the expected digests of the
  -- Capsule and of the component, none of which is empty.
  pub reconcile_nothing_iff :
      (installed : List InstalledComponentState)
      → (reconcile_capsule_lock_components lock installed ≡ []) ↔ (
          (id : String)
          → InStep lock (at_key id lock.resolved_components) (latest id installed none))
  unfolding reconcile_capsule_lock_components at_key
  reconcile_nothing_iff installed =
      let found = by_id installed [] in
      let ids = listed found in
      (
        λ h id. rw (sym (at_key-by_id id installed [])) (each found h id),
        λ w. steady found [] ids (λ id m.
            InStep-divergence id (at_key id lock.resolved_components) (at_key id found)
              (known found id m) (rw (at_key-by_id id installed []) (w id))),
      )
