-- ===== src/Component/Accepts.antt =====
-- libs/domain/component.go: what a valid Component is.
use Prim.Native.Char.{code}
use sshai.Base.{
  String, Bool, true, false, ◌==◌, Option, none, some, List, [], ◌∷◌, ◌≡◌, ◌↔◌, refl, arith, ap,
  sym, ◌∙◌, is_negative, is_blank, is_content_digest, same_text_iff, ok,
}
use sshai.Component.Model.{
  ComponentType, hook, extension, permission_policy, TrustClass, executable, permission, Component,
  type_text, is_valid_type, is_valid_scope, is_valid_trust, cut_before, cut_colon, contains_space,
  is_unqualified, required_trust_class, require_all, breaks_trust, validate_component,
}

-- What a Component of the type must be trusted with.
abbrev pub Trusted : ComponentType → TrustClass → Type 0
Trusted hook t = t ≡ executable
Trusted extension t = t ≡ executable
Trusted permission_policy t = t ≡ permission
Trusted _ t = Unit {0}

abbrev pub NoneBlank : List String → Type 0
NoneBlank [] = Unit {0}
NoneBlank (s ∷ rest) = (is_blank s ≡ false) × NoneBlank rest

-- The text is the prefix, a colon and the suffix.
abbrev pub Qualified : String → String → String → Type 0
Qualified String.[] suffix String.[] = ⊥
Qualified String.[] suffix (String.◌∷◌ ch s) = (code ch ≡ 58) × (s ≡ suffix)
Qualified (String.◌∷◌ c prefix) suffix String.[] = ⊥
Qualified (String.◌∷◌ c prefix) suffix (String.◌∷◌ ch s) = (ch ≡ c) × Qualified prefix suffix s

pub record IsValid (c : Component) : Type 0 where
  pub type : is_valid_type c.type ≡ true
  pub id :
      (name : String) × Qualified (type_text c.type) name c.id
      × (is_blank name ≡ false)
      × (contains_space c.id ≡ false)
  pub media_type : is_blank c.media_type ≡ false
  pub digest : is_content_digest c.digest ≡ true
  pub size : is_negative c.size_bytes ≡ false
  pub scope : is_valid_scope c.scope ≡ true
  pub trust : is_valid_trust c.trust_class ≡ true
  pub trusted : Trusted c.type c.trust_class
  pub commands : NoneBlank c.requirements.commands
  pub secrets : NoneBlank c.requirements.secrets

require_all-iff-NoneBlank : (m : String) (l : List String) → (require_all m l ≡ ok tt) ↔ NoneBlank l
unfolding require_all
require_all-iff-NoneBlank m [] = (λ h. tt, λ h. refl)
require_all-iff-NoneBlank m (s ∷ rest) =
    let ih = require_all-iff-NoneBlank m rest in ground (arith, ih)

cut_colon-Qualified :
    (s prefix suffix : String) → cut_colon s ≡ some (prefix, suffix) → Qualified prefix suffix s
unfolding cut_colon
cut_colon-Qualified String.[] prefix suffix h = absurd (ground arith)
cut_colon-Qualified (String.◌∷◌ ch s) prefix suffix h =
    go (code ch == 58) refl (cut_colon s) refl h (cut_colon-Qualified s)
  where
    go :
        (here : Bool)
        → (code ch == 58) ≡ here
        → (rest : Option (String × String)) → cut_colon s ≡ rest
        → cut_before ch s here rest ≡ some (prefix, suffix)
        → ((a b : String) → cut_colon s ≡ some (a, b) → Qualified a b s)
        → Qualified prefix suffix (String.◌∷◌ ch s)
    go true colon rest e h ih =
        let p : prefix ≡ String.[] = ground arith in
        let q : s ≡ suffix = ground arith in rw p (ground arith, q)
    go false colon none e h ih = absurd (ground arith)
    go false colon (some (a, b)) e h ih =
        let p : prefix ≡ String.◌∷◌ ch a = ground arith in
        let q : b ≡ suffix = ground arith in rw p (refl, rw (sym q) (ih a b e))

is_unqualified-Qualified :
    (t : ComponentType) (id : String)
    → is_unqualified t id ≡ false
    → (name : String) × Qualified (type_text t) name id
      × (is_blank name ≡ false)
      × (contains_space id ≡ false)
unfolding is_unqualified
is_unqualified-Qualified t id h = go (cut_colon id) refl
  where
    go :
        (q : Option (String × String))
        → cut_colon id ≡ q
        → (name : String) × Qualified (type_text t) name id
          × (is_blank name ≡ false)
          × (contains_space id ≡ false)
    go none e = absurd (ground (arith, e))
    go (some (a, b)) e =
        let same : a ≡ type_text t = ground (arith, e, same_text_iff a (type_text t)) in
        (
          b,
          cut_colon-Qualified id (type_text t) b (e ∙ ap (λ x. some (x, b)) same),
          ground (arith, e),
          ground (arith, e),
        )

required-Trusted :
    (t : ComponentType) (c : TrustClass)
    → breaks_trust (required_trust_class t) c ≡ false
    → Trusted t c
unfolding required_trust_class
required-Trusted t c h = ground arith

-- A Component passes validation only when its type, scope and trust class are known, its ID is its
-- type and a name with a colon between and no spaces, it has a media type, its digest is a SHA-256
-- digest, its size is not negative, no requirement is blank, and a hook, an extension or a
-- permission policy has the trust class that it requires.
pub validate_component-IsValid : (c : Component) → validate_component c ≡ ok tt → IsValid c
unfolding validate_component
validate_component-IsValid c h = record {
  type = ground arith;
  id = is_unqualified-Qualified c.type c.id (ground arith);
  media_type = ground arith;
  digest = ground arith;
  size = ground arith;
  scope = ground arith;
  trust = ground arith;
  trusted = required-Trusted c.type c.trust_class (ground arith);
  commands =
      (require_all-iff-NoneBlank "Component command requirements must be non-empty"
          c.requirements.commands).0
        (ground arith);
  secrets =
      (require_all-iff-NoneBlank "Component secret requirements must be non-empty"
          c.requirements.secrets).0
        (ground arith);
}
