-- ===== src/Config/Sources/Trust.antt =====
-- crates/rshome-config/src/stages/s4_external_components.rs: which sources pass the stage.
use zt_edge.Common.{
  ℕ, suc, true, false, ◌≡◌, refl, ◌↔◌, ◌⊎◌, Option, none, some, String, List, [], ◌∷◌, All,
  append-eq-nil, arith,
}
use zt_edge.Config.Raw.{RawConfig, ComponentConfig, IdfComponentRef}
use zt_edge.Config.Sources.{
  AllowList, looks_local, contains, from_url, is_trusted_by_default, is_allowed, check_url,
  check_reference, check_framework, text_field, field_path, check_components, framework_components,
  stage_4_resolve_external_components,
}

-- A source is trusted by default exactly when it is empty or begins like a path, or names none of
-- the three code hosts and either names the Espressif registry or holds no `://`.
pub is_trusted_by_default-from_url :
    (url : String)
    → (is_trusted_by_default (from_url url) ≡ true) ↔ (
        (looks_local url ≡ true)
        ⊎ ((contains url "github.com" ≡ false)
            × (contains url "gitlab.com" ≡ false)
            × (contains url "gitee.com" ≡ false)
            × ((contains url "components.espressif.com" ≡ true) ⊎ (contains url "://" ≡ false))))
unfolding from_url is_trusted_by_default
is_trusted_by_default-from_url url = (λ h. ground arith, λ h. ground arith)

-- Trusted by default, or allowed.
abbrev pub IsAllowed : AllowList → Option String → Type 0
IsAllowed allow_list reference =
    (url : String)
    → reference ≡ some url
    → (is_trusted_by_default (from_url url) ≡ true) ⊎ (is_allowed allow_list url ≡ true)

check_reference-eq-nil :
    (reference : Option String) (path : String) (allow_list : AllowList)
    → (check_reference reference path allow_list ≡ []) ↔ IsAllowed allow_list reference
unfolding check_reference check_url
check_reference-eq-nil none path allow_list = (λ e. λ url g. absurd (cc g), λ h. refl)
check_reference-eq-nil (some url) path allow_list =
    (λ e. λ url' g. ground arith, λ h. ground (arith, h url refl))

-- The references of the framework's components and those of the components, in the order of the
-- checks.
unfoldable pub framework_references : List IdfComponentRef → List (Option String)
framework_references [] = []
framework_references (c ∷ cs) = c.git ∷ framework_references cs

unfoldable pub component_references : List ComponentConfig → List (Option String)
component_references [] = []
component_references (c ∷ cs) = text_field "git" c ∷ text_field "url" c ∷ component_references cs

check_framework-eq-nil :
    (cs : List IdfComponentRef) (i : ℕ) (allow_list : AllowList)
    → (check_framework cs i allow_list ≡ []) ↔ All (IsAllowed allow_list) (framework_references cs)
unfolding check_framework framework_references
check_framework-eq-nil [] i allow_list = (λ e. tt, λ h. refl)
check_framework-eq-nil (c ∷ cs) i allow_list =
    let own = check_reference-eq-nil c.git _ allow_list in
    let rest = check_framework-eq-nil cs (suc i) allow_list in
    (
      λ e. let (first, second) = append-eq-nil _ _ e in (own.0 first, rest.0 second),
      λ h. rw (own.1 h.0) (rest.1 h.1),
    )

check_components-eq-nil :
    (cs : List ComponentConfig) (i : ℕ) (allow_list : AllowList)
    → (check_components cs i allow_list ≡ []) ↔ All (IsAllowed allow_list) (component_references cs)
unfolding check_components component_references
check_components-eq-nil [] i allow_list = (λ e. tt, λ h. refl)
check_components-eq-nil (c ∷ cs) i allow_list =
    let git = check_reference-eq-nil (text_field "git" c) (field_path i "git") allow_list in
    let url = check_reference-eq-nil (text_field "url" c) (field_path i "url") allow_list in
    let rest = check_components-eq-nil cs (suc i) allow_list in
    (
      λ e.
          let (two, third) = append-eq-nil _ _ e in
          let (first, second) = append-eq-nil _ _ two in
          (git.0 first, (url.0 second, rest.0 third)),
      λ h. rw (git.1 h.0, url.1 h.1.0) (rest.1 h.1.1),
    )

-- The stage has no diagnostic exactly when each `git` reference of a framework component, and each
-- text in a `git` or `url` field of a component, is trusted by default or begins with an allowed
-- prefix.
pub stage_4_resolve_external_components-eq-nil :
    (config : RawConfig) (allow_list : AllowList)
    → (stage_4_resolve_external_components config allow_list ≡ []) ↔ (
        All (IsAllowed allow_list) (framework_references (framework_components config))
        × All (IsAllowed allow_list) (component_references config.components))
unfolding stage_4_resolve_external_components
stage_4_resolve_external_components-eq-nil config allow_list =
    let framework = check_framework-eq-nil (framework_components config) 0 allow_list in
    let components = check_components-eq-nil config.components 0 allow_list in
    (
      λ e. let (first, second) = append-eq-nil _ _ e in (framework.0 first, components.0 second),
      λ h. rw (framework.1 h.0) (components.1 h.1),
    )
