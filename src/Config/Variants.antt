-- ===== src/Config/Variants.antt =====
-- crates/rshome-config/src/stages/s3_5_variant_resolution.rs: the variant of a solution, and the
-- components that it adds and removes.
pub mod Overlay
use zt_edge.Common.{
  ◌<>◌, join, Bool, true, false, Option, none, some, String, List, [], ◌∷◌, ◌++◌, map,
  text_discrete, ite, if◌then◌else◌,
}
use zt_edge.Config.Diagnostic.{ValidationStage, ValidationError, error, warning, with_suggestion}
use zt_edge.Config.Raw.{RawConfig, ComponentConfig}
use zt_edge.Config.Value.{object, end}
use zt_edge.Schema.Solution.{SolutionRegistry, SolutionDefinition, SolutionVariantDefinition}
use zt_edge.Schema.Solution as Solution

pub record VariantResolution : Type 0 where
  pub solution_id : Option String
  pub variant_id : Option String
  pub active_flag_add : List String
  pub active_flag_remove : List String

-- `Default::default`, but for the solution.
abbrev pub unresolved : Option String → VariantResolution
unresolved id = record {
  solution_id = id;
  variant_id = none;
  active_flag_add = [];
  active_flag_remove = [];
}

unfoldable pub find_variant :
    String → List SolutionVariantDefinition → Option SolutionVariantDefinition
find_variant id [] = none
find_variant id (v ∷ vs) = ite (text_discrete v.id id) (some v) (find_variant id vs)

unfoldable pub has_type : String → List ComponentConfig → Bool
has_type t [] = false
has_type t (c ∷ cs) = ite (text_discrete c.component_type t) true (has_type t cs)

abbrev pub fresh : String → ComponentConfig
fresh t = record { component_type = t; platform = none; config = object end }

-- The loop over `add_components`.
unfoldable pub add_components : List String → List ComponentConfig → List ComponentConfig
add_components [] cs = cs
add_components (t ∷ ts) cs = add_components ts (if has_type t cs then cs else cs ++ (fresh t ∷ []))

-- `position` and `remove`.
unfoldable pub remove_first : String → List ComponentConfig → List ComponentConfig
remove_first t [] = []
remove_first t (c ∷ cs) = ite (text_discrete c.component_type t) cs (c ∷ remove_first t cs)

-- The loop over `remove_components`.
unfoldable pub remove_components : List String → List ComponentConfig → List ComponentConfig
remove_components [] cs = cs
remove_components (t ∷ ts) cs = remove_components ts (remove_first t cs)

unfoldable pub apply_variant : SolutionVariantDefinition → RawConfig → RawConfig
apply_variant v config = record config {
  components =
      remove_components v.remove_components (add_components v.add_components config.components);
}

abbrev variant_error : String → List SolutionVariantDefinition → ValidationError
variant_error message variants =
    with_suggestion (error ValidationStage.variant_resolution "esphome.solution_variant" message)
      ("available variants: " <> join (map (λ v. v.id) variants))

-- The choice among the variants of a solution that has some.
unfoldable pub choose_variant :
    String → SolutionDefinition → RawConfig → RawConfig × VariantResolution × List ValidationError
choose_variant solution_id sol config = elim config.esphome.solution_variant [
  | none ↦ (
    config,
    unresolved (some solution_id),
    variant_error
          ("solution '" <> solution_id
            <> "' requires a variant selection but `solution_variant` is not set")
          sol.variants
        ∷ [],
  )
  | some variant_id ↦ elim (find_variant variant_id sol.variants) [
    | none ↦ (
      config,
      unresolved (some solution_id),
      variant_error
            ("solution '" <> solution_id <> "' does not declare a variant '" <> variant_id <> "'")
            sol.variants
          ∷ [],
    )
    | some variant ↦ (
      apply_variant variant config,
      record {
        solution_id = some solution_id;
        variant_id = some variant.id;
        active_flag_add = variant.active_flag_add;
        active_flag_remove = variant.active_flag_remove;
      },
      [],
    )
  ]
]

abbrev no_variants : String → Option String → List ValidationError
no_variants solution_id none = []
no_variants solution_id (some vid) =
    warning ValidationStage.variant_resolution "esphome.solution_variant" (
      "solution '" <> solution_id <> "' declares no variants — ignoring variant id '" <> vid <> "'")
    ∷ []

-- The configuration afterwards, what is passed on, and the diagnostics.
unfoldable pub stage_3_5_resolve_variant :
    RawConfig → SolutionRegistry → RawConfig × VariantResolution × List ValidationError
stage_3_5_resolve_variant config solution_registry = elim config.esphome.solution [
  | none ↦ (config, unresolved none, [])
  | some solution_id ↦ elim (Solution.get solution_registry solution_id) [
    | none ↦ (config, unresolved (some solution_id), [])
    | some sol ↦ elim sol.variants [
      | [] ↦ (
        config,
        unresolved (some solution_id),
        no_variants solution_id config.esphome.solution_variant,
      )
      | v ∷ vs ↦ choose_variant solution_id sol config
    ]
  ]
]
