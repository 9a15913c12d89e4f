-- ===== src/Component/Model.antt =====
-- libs/domain/component.go: Components and their validation.
use sshai.Base.{
  ℕ, String, Bool, true, false, not, ◌||◌, Option, none, some, List, [], ◌∷◌, ℤ, is_negative,
  is_blank, same_text, is_content_digest, errors_new, errorf, Result, ok, ◌>>◌, fail_if, ◌==◌,
}
use Prim.Native.Char.{Char, code}

pub data ComponentType : Type 0 where
  config skill command subagent hook integration permission_policy template extension :
      ComponentType
  unknown_type : String → ComponentType

pub data ComponentScope : Type 0 where
  user project : ComponentScope
  unknown_scope : String → ComponentScope

pub data TrustClass : Type 0 where
  declarative executable permission : TrustClass
  unknown_trust : String → TrustClass

pub record ComponentRequirements : Type 0 where
  pub commands : List String
  pub secrets : List String

pub record Component : Type 0 where
  pub id : String
  pub type : ComponentType
  pub media_type : String
  pub digest : String
  pub size_bytes : ℤ
  pub scope : ComponentScope
  pub trust_class : TrustClass
  pub requirements : ComponentRequirements
  pub content : List ℕ
  pub provenance : List (String × String)

abbrev pub type_text : ComponentType → String
type_text config = "config"
type_text skill = "skill"
type_text command = "command"
type_text subagent = "subagent"
type_text hook = "hook"
type_text integration = "integration"
type_text permission_policy = "permission-policy"
type_text template = "template"
type_text extension = "extension"
type_text (unknown_type s) = s

abbrev scope_text : ComponentScope → String
scope_text user = "user"
scope_text project = "project"
scope_text (unknown_scope s) = s

abbrev trust_text : TrustClass → String
trust_text declarative = "declarative"
trust_text executable = "executable"
trust_text permission = "permission"
trust_text (unknown_trust s) = s

-- ComponentType.Valid, ComponentScope.Valid, TrustClass.Valid
abbrev pub is_valid_type : ComponentType → Bool
is_valid_type (unknown_type s) = false
is_valid_type _ = true

abbrev pub is_valid_scope : ComponentScope → Bool
is_valid_scope (unknown_scope s) = false
is_valid_scope _ = true

abbrev pub is_valid_trust : TrustClass → Bool
is_valid_trust (unknown_trust s) = false
is_valid_trust _ = true

unfoldable pub required_trust_class : ComponentType → Option TrustClass
required_trust_class hook = some executable
required_trust_class extension = some executable
required_trust_class permission_policy = some permission
required_trust_class _ = none

abbrev pub same_trust : TrustClass → TrustClass → Bool
same_trust declarative declarative = true
same_trust executable executable = true
same_trust permission permission = true
same_trust (unknown_trust s) (unknown_trust t) = same_text s t
same_trust _ _ = false

-- required, constrained := requiredTrustClass(…); constrained && trust != required
abbrev pub breaks_trust : Option TrustClass → TrustClass → Bool
breaks_trust none t = false
breaks_trust (some required) t = not (same_trust t required)

abbrev required_text : Option TrustClass → String
required_text none = ""
required_text (some t) = trust_text t

abbrev pub cut_before : Char → String → Bool → Option (String × String) → Option (String × String)
cut_before ch s true rest = some (String.[], s)
cut_before ch s false none = none
cut_before ch s false (some (a, b)) = some (String.◌∷◌ ch a, b)

-- before, after, found := strings.Cut(s, ":")
unfoldable pub cut_colon : String → Option (String × String)
cut_colon String.[] = none
cut_colon (String.◌∷◌ ch s) = cut_before ch s (code ch == 58) (cut_colon s)

-- strings.ContainsAny(s, " \t\r\n")
unfoldable pub contains_space : String → Bool
contains_space String.[] = false
contains_space (String.◌∷◌ ch s) =
    let c = code ch in c == 32 || c == 9 || c == 13 || c == 10 || contains_space s

-- The ID is not of the form `type:name`.
abbrev unqualified : ComponentType → Option (String × String) → Bool
unqualified type none = true
unqualified type (some (prefix, suffix)) =
    not (same_text prefix (type_text type)) || is_blank suffix

unfoldable pub is_unqualified : ComponentType → String → Bool
unfolding cut_colon contains_space
is_unqualified type id = unqualified type (cut_colon id) || contains_space id

-- The loops over the requirements.
unfoldable pub require_all : String → List String → Result (Unit {0})
require_all message [] = ok tt
require_all message (r ∷ rest) =
    fail_if (is_blank r) (errors_new message) >> require_all message rest

-- Component.Validate
unfoldable pub validate_component : Component → Result (Unit {0})
unfolding require_all required_trust_class
validate_component c = do
  fail_if (is_blank c.id) (errors_new "Component ID is required")
  fail_if (not (is_valid_type c.type))
      (errorf "Component type %q is invalid" (type_text c.type ∷ []))
  fail_if (is_unqualified c.type c.id) (errors_new "Component ID must be type-qualified")
  fail_if (is_blank c.media_type) (errors_new "Component media type is required")
  fail_if (not (is_content_digest c.digest))
      (errors_new "Component digest must be a SHA-256 digest")
  fail_if (is_negative c.size_bytes) (errors_new "Component size cannot be negative")
  fail_if (not (is_valid_scope c.scope))
      (errorf "Component scope %q is invalid" (scope_text c.scope ∷ []))
  fail_if (not (is_valid_trust c.trust_class))
      (errorf "Component trust class %q is invalid" (trust_text c.trust_class ∷ []))
  fail_if (breaks_trust (required_trust_class c.type) c.trust_class) (
      errorf "Component type %q requires trust class %q, got %q" (
        type_text c.type
        ∷ required_text (required_trust_class c.type)
        ∷ trust_text c.trust_class
        ∷ []))
  require_all "Component command requirements must be non-empty" c.requirements.commands
  require_all "Component secret requirements must be non-empty" c.requirements.secrets
