-- ===== src/Component/Tests.antt =====
-- A hook, and what its validation shows.
use sshai.Base.{◌≡◌, refl, [], ◌∷◌, ℤ, trim_space, is_blank, is_content_digest, ok}
use sshai.Component.Model.{
  hook, project, executable, Component, cut_colon, contains_space, is_unqualified,
  required_trust_class, require_all, validate_component,
}
use sshai.Component.Accepts.{IsValid, validate_component-IsValid}

abbrev lint : Component
lint = record {
  id = "hook:lint";
  type = hook;
  media_type = "application/json";
  digest = "sha256:0123456789abcdef0123456789abcdef0123456789abcdef0123456789abcdef";
  size_bytes = ℤ.pos 10;
  scope = project;
  trust_class = executable;
  requirements = record { commands = "node" ∷ []; secrets = [] };
  content = [];
  provenance = [];
}

valid_test : validate_component lint ≡ ok tt
unfolding validate_component is_blank trim_space is_content_digest is_unqualified cut_colon
    contains_space required_trust_class require_all
valid_test = refl

validate_component-IsValid_example : IsValid lint
validate_component-IsValid_example = validate_component-IsValid lint valid_test
