-- ===== src/Config/Sources.antt =====
-- crates/rshome-config/src/stages/s4_external_components.rs: where components may come from.
pub mod Trust
use text.Mathlib.Text.{starts_with}
use zt_edge.Common.{
  ◌<>◌, ℕ, zero, suc, Bool, true, false, not, ◌||◌, Option, none, some, String, List, [], ◌∷◌, ◌++◌,
  text_discrete, is_some, ite, if◌then◌else◌,
}
use zt_edge.Common.Cut.{cut}
use zt_edge.Common.Decimal.{decimal}
use zt_edge.Config.Diagnostic.{ValidationStage, ValidationError, error, with_suggestion}
use zt_edge.Config.Value.{Value, get, as_str}
use zt_edge.Config.Raw.{RawConfig, ComponentConfig, FrameworkConfig, IdfComponentRef}

abbrev pub contains : String → String → Bool
contains s pattern = is_some (cut pattern s)

pub data DependencySource : Type 0 where
  espressif_registry : DependencySource
  git_hub git_lab gitee local : String → DependencySource

abbrev pub looks_local : String → Bool
looks_local url = ite (text_discrete url "") true (starts_with url "." || starts_with url "/")

unfoldable pub from_url : String → DependencySource
from_url url =
    if looks_local url
    then local url
    else if contains url "github.com"
    then git_hub url
    else if contains url "gitlab.com"
    then git_lab url
    else if contains url "gitee.com"
    then gitee url
    else if contains url "components.espressif.com" || not (contains url "://")
    then espressif_registry
    else git_hub url

unfoldable pub is_trusted_by_default : DependencySource → Bool
is_trusted_by_default espressif_registry = true
is_trusted_by_default (local _) = true
is_trusted_by_default _ = false

unfoldable pub label : DependencySource → String
label espressif_registry = "espressif_registry"
label (git_hub _) = "github"
label (git_lab _) = "gitlab"
label (gitee _) = "gitee"
label (local _) = "local"

-- The allowed prefixes.
abbrev pub AllowList : Type 0
AllowList = List String

unfoldable pub allow_prefix : AllowList → String → AllowList
allow_prefix allow_list prefix = allow_list ++ (prefix ∷ [])

unfoldable pub is_allowed : AllowList → String → Bool
is_allowed [] url = false
is_allowed (p ∷ ps) url = starts_with url p || is_allowed ps url

unfoldable pub check_url : String → String → AllowList → List ValidationError
check_url url path allow_list =
    if is_trusted_by_default (from_url url) || is_allowed allow_list url
    then []
    else with_suggestion
        (error ValidationStage.external_components path (
          "untrusted external source '"
          <> url
          <> "' ("
          <> label (from_url url)
          <> ") requires explicit allow-list entry"))
        "Add the URL prefix to AllowList::allow_prefix() to permit it"
      ∷ []

unfoldable pub check_reference : Option String → String → AllowList → List ValidationError
check_reference none path allow_list = []
check_reference (some url) path allow_list = check_url url path allow_list

unfoldable pub check_framework : List IdfComponentRef → ℕ → AllowList → List ValidationError
check_framework [] idx allow_list = []
check_framework (idf_comp ∷ rest) idx allow_list =
    check_reference idf_comp.git ("esphome.framework.components[" <> decimal idx <> "]") allow_list
    ++ check_framework rest (suc idx) allow_list

abbrev pub text_field : String → ComponentConfig → Option String
text_field key comp = elim (get key comp.config) [ none ↦ none | some v ↦ as_str v ]

abbrev pub field_path : ℕ → String → String
field_path i key = "components[" <> decimal i <> "]" <> "." <> key

unfoldable pub check_components : List ComponentConfig → ℕ → AllowList → List ValidationError
check_components [] i allow_list = []
check_components (comp ∷ rest) i allow_list =
    check_reference (text_field "git" comp) (field_path i "git") allow_list
    ++ check_reference (text_field "url" comp) (field_path i "url") allow_list
    ++ check_components rest (suc i) allow_list

unfoldable pub framework_components : RawConfig → List IdfComponentRef
framework_components config = elim config.esphome.framework [ none ↦ [] | some fw ↦ fw.components ]

unfoldable pub stage_4_resolve_external_components : RawConfig → AllowList → List ValidationError
stage_4_resolve_external_components config allow_list =
    check_framework (framework_components config) 0 allow_list
    ++ check_components config.components 0 allow_list
