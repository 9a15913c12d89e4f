-- ===== src/Upgrade.antt =====
-- libs/domain/upgrade_policy.go: whether an upgrade may be applied without a user's action.
use sshai.Base.{
  String, Bool, true, false, not, ◌||◌, List, [], ◌∷◌, ◌≡◌, ◌↔◌, refl, arith, is_blank, same_text,
  same_text_iff, if◌then◌else◌,
}

pub record ManagedTargetState : Type 0 where
  pub component_id : String
  pub desired_digest : String
  pub last_applied_digest : String
  pub observed_digest : String

pub record AutoSafePlan : Type 0 where
  pub managed_targets : List ManagedTargetState
  pub managed_targets_clean : Bool
  pub executable_digest_changed : Bool
  pub permission_changed : Bool
  pub integration_changed : Bool
  pub credential_requirement_changed : Bool
  pub has_conflicts : Bool

pub record AutoSafeDecision : Type 0 where
  pub applyable : Bool
  pub reason : String

unfoldable pub managed_targets_are_clean : List ManagedTargetState → Bool
managed_targets_are_clean [] = true
managed_targets_are_clean (s ∷ rest) =
    let others = managed_targets_are_clean rest in
    if is_blank s.component_id
      || is_blank s.desired_digest
      || is_blank s.last_applied_digest
      || is_blank s.observed_digest
    then false
    else if not (same_text s.observed_digest s.last_applied_digest)
    then false
    else others

abbrev refused : String → AutoSafeDecision
refused reason = record { applyable = false; reason = reason }

unfoldable pub evaluate_auto_safe : AutoSafePlan → AutoSafeDecision
evaluate_auto_safe plan =
    if not (managed_targets_are_clean plan.managed_targets)
    then refused "managed_targets_not_clean"
    else if plan.executable_digest_changed
    then refused "executable_digest_changed"
    else if plan.permission_changed
    then refused "permission_changed"
    else if plan.integration_changed
    then refused "integration_changed"
    else if plan.credential_requirement_changed
    then refused "credential_requirement_changed"
    else if plan.has_conflicts
    then refused "composition_conflict"
    else record { applyable = true; reason = "" }

unfoldable pub is_auto_safe_applyable : AutoSafePlan → Bool
unfolding evaluate_auto_safe
is_auto_safe_applyable plan = (evaluate_auto_safe plan).applyable

-- Every target has its four identities, and was last seen as it was last applied.
abbrev pub AllClean : List ManagedTargetState → Type 0
AllClean [] = Unit {0}
AllClean (s ∷ rest) =
    (is_blank s.component_id ≡ false)
    × (is_blank s.desired_digest ≡ false)
    × (is_blank s.last_applied_digest ≡ false)
    × (is_blank s.observed_digest ≡ false)
    × (s.observed_digest ≡ s.last_applied_digest)
    × AllClean rest

clean_iff :
    (states : List ManagedTargetState) → (managed_targets_are_clean states ≡ true) ↔ AllClean states
unfolding managed_targets_are_clean
clean_iff [] = (λ h. tt, λ h. refl)
clean_iff (s ∷ rest) = (
  λ h. ground (arith, clean_iff rest, same_text_iff s.observed_digest s.last_applied_digest),
  λ h. ground (arith, clean_iff rest, same_text_iff s.observed_digest s.last_applied_digest),
)

-- A plan is applied automatically exactly when its managed targets are clean and nothing that needs
-- a review changed. What the caller says of its targets in `managed_targets_clean` plays no part.
pub is_auto_safe_applyable_iff :
    (plan : AutoSafePlan)
    → (is_auto_safe_applyable plan ≡ true) ↔ (
        AllClean plan.managed_targets
        × (plan.executable_digest_changed ≡ false)
        × (plan.permission_changed ≡ false)
        × (plan.integration_changed ≡ false)
        × (plan.credential_requirement_changed ≡ false)
        × (plan.has_conflicts ≡ false))
unfolding is_auto_safe_applyable
is_auto_safe_applyable_iff plan = (
  λ h. ground (arith, clean_iff plan.managed_targets),
  λ h. ground (arith, clean_iff plan.managed_targets),
)
