-- ===== src/Config/Assembly.antt =====
-- crates/rshome-config/src/validated.rs and the end of crates/rshome-config/src/pipeline.rs: the
-- validated configuration, its flags and its components. The dependency graph, which stands on
-- petgraph, is left out.
pub mod Members
use Prim.Native.Char.{Char}
use zt_edge.Common.{
  ◌<>◌, ℕ, Bool, true, false, not, ◌&&◌, Option, none, some, String, List, [], ◌∷◌, ◌++◌, map, has,
  Dict, is_some, text_discrete, if◌then◌else◌, Result, ok, err,
}
use zt_edge.Common.Sort.{sort_texts}
use zt_edge.Common.Dedup.{dedup}
use zt_edge.Config.Diagnostic.{ValidationError, has_errors}
use zt_edge.Config.Value.{Value, object, end, get}
use zt_edge.Config.Raw.{
  RawConfig, ComponentConfig, EsphomeBlock, FrameworkConfig, ProjectConfig, PackageStore,
  effective_id,
}
use zt_edge.Config.Sources.{AllowList, text_field, stage_4_resolve_external_components}
use zt_edge.Config.Packages.{stage_1_merge_packages}
use zt_edge.Config.Substitutions.{stage_2_apply_substitutions}
use zt_edge.Config.Directives.{stage_3_process_extend_remove}
use zt_edge.Config.Variants.{VariantResolution, stage_3_5_resolve_variant}
use zt_edge.Config.Preload.{FrameworkType, PreloadContext, stage_5_preload_esphome_block}
use zt_edge.Config.Loading.{stage_6_load_components}
use zt_edge.Config.Schemas.{Floats, stage_7_validate_schemas}
use zt_edge.Config.Ids.{stage_8_resolve_ids}
use zt_edge.Config.FinalChecks.{stage_9_final_validation}
use zt_edge.Config.FinalChecks.Sigrok.{SigrokConfig}
use zt_edge.Config.PinConflicts.{index_of, count_up, stage_10_check_pin_conflicts}
use zt_edge.Config.ExclusiveGroups.{stage_11_check_exclusive_groups}
use zt_edge.Config.Profiles.{stage_12_validate_profile}
use zt_edge.Config.SecretFields.{stage_13_check_secret_fields}
use zt_edge.Schema.Chip.{ChipTarget}
use zt_edge.Schema.Pin.{PinAllocation, ResourceTracker}
use zt_edge.Schema.Registry.{ComponentRegistry}
use zt_edge.Schema.Solution.{SolutionRegistry}
use zt_edge.Schema.Flags.{FeatureFlagSet, from_components, contains}

pub record ValidatedEsphomeBlock : Type 0 where
  pub name : String
  pub chip_target : ChipTarget
  pub board : String
  pub friendly_name : Option String
  pub framework_type : FrameworkType
  pub project : Option ProjectConfig
  pub solution_id : Option String
  pub solution_variant_id : Option String

pub record ValidatedComponent : Type 0 where
  pub component_id : String
  pub platform_type : Option String
  pub index : ℕ
  pub entity_id : Option String
  pub config : Value
  pub auto_loaded : Bool

pub record ValidatedConfig : Type 0 where
  pub esphome : ValidatedEsphomeBlock
  pub components : List ValidatedComponent
  pub active_flags : List String
  pub pin_allocations : List PinAllocation

-- The flags of entities and of the known components.
unfoldable pub flag_candidates : List String
flag_candidates =
    "USE_SENSOR" ∷ "USE_BINARY_SENSOR" ∷ "USE_SWITCH" ∷ "USE_LIGHT" ∷ "USE_CLIMATE" ∷ "USE_FAN"
    ∷ "USE_COVER" ∷ "USE_LOCK" ∷ "USE_MEDIA_PLAYER" ∷ "USE_NUMBER" ∷ "USE_SELECT" ∷ "USE_TEXT"
    ∷ "USE_BUTTON" ∷ "USE_EVENT" ∷ "USE_TEXT_SENSOR" ∷ "USE_ALARM_CONTROL_PANEL" ∷ "USE_WIFI"
    ∷ "USE_API" ∷ "USE_MQTT" ∷ "USE_OTA" ∷ "USE_LOGGER" ∷ "USE_I2C" ∷ "USE_SPI" ∷ "USE_UART"
    ∷ "USE_DHT" ∷ []

abbrev pub flag_name : (String → String) → String → String
flag_name to_uppercase id = "USE_" <> to_uppercase id

-- The `filter_map` over the resolved ids.
unfoldable pub own_flags : (String → String) → FeatureFlagSet → List String → List String
own_flags to_uppercase flags [] = []
own_flags to_uppercase flags (id ∷ ids) =
    let rest = own_flags to_uppercase flags ids in
    if contains flags (flag_name to_uppercase id) then flag_name to_uppercase id ∷ rest else rest

-- The loop over the candidates.
unfoldable pub add_candidates : FeatureFlagSet → List String → List String → List String
add_candidates flags [] active = active
add_candidates flags (c ∷ cs) active =
    add_candidates flags cs
      (if contains flags c && not (has active c) then active ++ (c ∷ []) else active)

-- The loop over the flags that the variant adds.
unfoldable pub add_missing : List String → List String → List String
add_missing [] active = active
add_missing (f ∷ fs) active = add_missing fs (if has active f then active else active ++ (f ∷ []))

-- `retain`.
unfoldable pub drop_flags : List String → List String → List String
drop_flags removed [] = []
drop_flags removed (f ∷ fs) =
    let rest = drop_flags removed fs in if has removed f then rest else f ∷ rest

unfoldable pub active_flags_of :
    (String → String) → FeatureFlagSet → List String → VariantResolution → List String
active_flags_of to_uppercase flags resolved_ids resolution =
    let known = dedup (
      sort_texts
        (add_candidates flags flag_candidates (own_flags to_uppercase flags resolved_ids))) in
    dedup (
      sort_texts
        (drop_flags resolution.active_flag_remove (add_missing resolution.active_flag_add known)))

abbrev platform_type_of : ComponentConfig → Option String
platform_type_of comp = elim comp.platform [ none ↦ none | some p ↦ some comp.component_type ]

unfoldable pub explicit_components : List ComponentConfig → Dict String ℕ → List ValidatedComponent
explicit_components [] counters = []
explicit_components (comp ∷ rest) counters =
    record {
      component_id = effective_id comp;
      platform_type = platform_type_of comp;
      index = index_of comp.component_type counters;
      entity_id = text_field "id" comp;
      config = comp.config;
      auto_loaded = false;
    }
    ∷ explicit_components rest (count_up comp counters)

-- The components that AUTO_LOAD brought in.
unfoldable pub auto_components : List String → List String → List ValidatedComponent
auto_components explicit_ids [] = []
auto_components explicit_ids (id ∷ ids) =
    let rest = auto_components explicit_ids ids in
    if has explicit_ids id
    then rest
    else record {
      component_id = id;
      platform_type = none;
      index = 0;
      entity_id = none;
      config = object end;
      auto_loaded = true;
    }
      ∷ rest

unfoldable pub components_of : List ComponentConfig → List String → List ValidatedComponent
components_of components resolved_ids =
    explicit_components components [] ++ auto_components (map effective_id components) resolved_ids

unfoldable pub validated_block :
    EsphomeBlock → PreloadContext → VariantResolution → ValidatedEsphomeBlock
validated_block esphome ctx resolution = record {
  name = esphome.name;
  chip_target = ctx.chip_target;
  board = ctx.board;
  friendly_name = esphome.friendly_name;
  framework_type = ctx.framework_type;
  project = esphome.project;
  solution_id = esphome.solution;
  solution_variant_id = resolution.variant_id;
}
