-- ===== src/Reconcile/Model.antt =====
-- libs/domain/reconciliation.go: the divergence of what is installed from a Capsule Lock.
use Prim.Native.String.{compare}
use Prim.Native.Nat.{Ordering}
use sshai.Base.{
  String, Bool, true, false, not, ◌&&◌, ◌||◌, Option, none, some, List, [], ◌∷◌, ◌++◌, is_empty,
  same_text, has_text, if◌then◌else◌,
}
use sshai.Capsule.Lock.{ResolvedComponent, CapsuleLockSnapshot}

pub record InstalledComponentState : Type 0 where
  pub component_id : String
  pub lock_digest : String
  pub capsule_digest : String
  pub component_digest : String

pub data ComponentDivergenceClass : Type 0 where
  missing extra changed conflicting : ComponentDivergenceClass

pub record ComponentDivergence : Type 0 where
  pub component_id : String
  pub class : ComponentDivergenceClass
  pub expected_digest : String
  pub observed_digest : String
  pub expected_lock : String
  pub observed_lock : String

module _ {ℓ} {A : Type ℓ} where
  -- m[key] and m[key] = value on the entries of a map, and its keys.
  unfoldable pub at_key : String → List (String × A) → Option A
  at_key key [] = none
  at_key key ((k, a) ∷ rest) =
      let more = at_key key rest in if same_text key k then some a else more

  unfoldable pub put : String → A → List (String × A) → List (String × A)
  put key value [] = (key, value) ∷ []
  put key value ((k, a) ∷ rest) =
      let more = put key value rest in if same_text key k then (k, value) ∷ rest else (k, a) ∷ more

  unfoldable pub keys : List (String × A) → List String
  keys [] = []
  keys ((k, a) ∷ rest) = k ∷ keys rest

unfoldable pub by_id :
    List InstalledComponentState
    → List (String × InstalledComponentState)
    → List (String × InstalledComponentState)
by_id [] found = found
by_id (c ∷ rest) found = by_id rest (put c.component_id c found)

-- The texts that are not among others.
unfoldable pub without : List String → List String → List String
without [] others = []
without (s ∷ rest) others =
    let more = without rest others in if has_text s others then more else s ∷ more

abbrev pub is_after : Ordering → Bool
is_after Ordering.gt = true
is_after _ = false

unfoldable pub insert : String → List String → List String
insert s [] = s ∷ []
insert s (t ∷ rest) =
    let more = insert s rest in if is_after (compare s t) then t ∷ more else s ∷ t ∷ rest

-- sort.Strings
unfoldable pub sort_strings : List String → List String
unfolding insert
sort_strings [] = []
sort_strings (s ∷ rest) = insert s (sort_strings rest)

abbrev diverges :
    CapsuleLockSnapshot
    → String
    → ComponentDivergenceClass
    → ResolvedComponent
    → InstalledComponentState
    → ComponentDivergence
diverges lock id class e o = record {
  component_id = id;
  class = class;
  expected_digest = e.component_digest;
  observed_digest = o.component_digest;
  expected_lock = lock.digest;
  observed_lock = o.lock_digest;
}

-- The switch on what is expected and what is observed.
unfoldable pub divergence :
    CapsuleLockSnapshot
    → String
    → Option ResolvedComponent
    → Option InstalledComponentState
    → Option ComponentDivergence
divergence lock id none none = some (record {
  component_id = id;
  class = extra;
  expected_digest = "";
  observed_digest = "";
  expected_lock = "";
  observed_lock = "";
})
divergence lock id none (some o) = some (record {
  component_id = id;
  class = extra;
  expected_digest = "";
  observed_digest = o.component_digest;
  expected_lock = "";
  observed_lock = o.lock_digest;
})
divergence lock id (some e) none = some (record {
  component_id = id;
  class = missing;
  expected_digest = e.component_digest;
  observed_digest = "";
  expected_lock = lock.digest;
  observed_lock = "";
})
divergence lock id (some e) (some o) =
    if is_empty o.lock_digest || is_empty o.capsule_digest || is_empty o.component_digest
    then some (diverges lock id missing e o)
    else if not (is_empty o.lock_digest) && not (same_text o.lock_digest lock.digest)
    then some (diverges lock id conflicting e o)
    else if not (is_empty o.capsule_digest) && not (same_text o.capsule_digest e.capsule_digest)
    then some (diverges lock id changed e o)
    else if not (same_text o.component_digest e.component_digest)
    then some (diverges lock id changed e o)
    else none

abbrev pub add : Option ComponentDivergence → List ComponentDivergence → List ComponentDivergence
add none rest = rest
add (some d) rest = d ∷ rest

-- The loop over the identities, with those that are done.
unfoldable pub divergences :
    CapsuleLockSnapshot
    → List (String × InstalledComponentState)
    → List String
    → List String
    → List ComponentDivergence
divergences lock installed seen [] = []
divergences lock installed seen (id ∷ rest) =
    let skipped = divergences lock installed seen rest in
    let more = divergences lock installed (id ∷ seen) rest in
    if has_text id seen
    then skipped
    else add (divergence lock id (at_key id lock.resolved_components) (at_key id installed)) more

unfoldable pub reconcile_capsule_lock_components :
    CapsuleLockSnapshot → List InstalledComponentState → List ComponentDivergence
unfolding divergences without
reconcile_capsule_lock_components lock installed =
    let found = by_id installed [] in
    let desired = keys lock.resolved_components in
    divergences lock found [] (sort_strings (desired ++ without (keys found) desired))
