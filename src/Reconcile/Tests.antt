-- ===== src/Reconcile/Tests.antt =====
-- A Capsule Lock with one component, and what is installed of it.
use sshai.Base.{String, none, List, [], ◌∷◌, ◌≡◌, ◌↔◌, refl, has_text}
use sshai.Component.Model.{skill, user, declarative}
use sshai.Capsule.Lock.{ResolvedComponent, CapsuleLockSnapshot}
use sshai.Reconcile.Model.{
  extra, InstalledComponentState, ComponentDivergence, at_key, put, keys, by_id, without, insert,
  sort_strings, divergence, divergences, reconcile_capsule_lock_components,
}
use sshai.Reconcile.Steady.{InStep, latest, reconcile_nothing_iff}
use sshai.Samples.{at}

abbrev component : ResolvedComponent
component = record {
  id = "skill:a";
  type = skill;
  capsule_digest = "c1";
  component_digest = "d1";
  scope = user;
  trust_class = declarative;
  requirements = record { commands = []; secrets = [] };
  provenance = [];
  sources = [];
}

abbrev lock : CapsuleLockSnapshot
lock = record {
  id = "lock-1";
  environment_id = "env-1";
  profile_version_id = "version-1";
  project_capsule_digest = "";
  capsules = [];
  resolved_components = ("skill:a", component) ∷ [];
  digest = "l1";
  created_at = at 10;
}

abbrev installed : String → String → InstalledComponentState
installed id digest = record {
  component_id = id;
  lock_digest = "l1";
  capsule_digest = "c1";
  component_digest = digest;
}

abbrev diverged : String → ComponentDivergence
diverged id = record {
  component_id = id;
  class = extra;
  expected_digest = "";
  observed_digest = "d2";
  expected_lock = "";
  observed_lock = "l1";
}

run_reconcile : CapsuleLockSnapshot → List InstalledComponentState → List ComponentDivergence
unfolding reconcile_capsule_lock_components divergences divergence by_id put keys at_key without
    sort_strings insert has_text
run_reconcile = reconcile_capsule_lock_components

steady_test :
    reconcile_capsule_lock_components lock
      (installed "skill:a" "d0" ∷ installed "skill:a" "d1" ∷ [])
    ≡ []
unfolding run_reconcile
steady_test = refl

extra_test :
    reconcile_capsule_lock_components lock
      (installed "skill:z" "d2" ∷ installed "skill:a" "d1" ∷ installed "skill:b" "d2" ∷ [])
    ≡ diverged "skill:b" ∷ diverged "skill:z" ∷ []
unfolding run_reconcile
extra_test = refl

reconcile_nothing_iff_example :
    (reconcile_capsule_lock_components lock (installed "skill:a" "d1" ∷ []) ≡ []) ↔ (
      (id : String)
      → InStep lock
          (at_key id lock.resolved_components)
          (latest id (installed "skill:a" "d1" ∷ []) none))
reconcile_nothing_iff_example = reconcile_nothing_iff lock (installed "skill:a" "d1" ∷ [])
