-- ===== src/Config/Pipeline.antt =====
-- crates/rshome-config/src/pipeline.rs: the stages in their order, each on what the stage before
-- left.
pub mod Kept
pub mod Runs
pub mod Resolved
pub mod Loaded
pub mod Valid
pub mod Outcome
use Prim.Native.Char.{Char}
use zt_edge.Common.{
  ℕ, Bool, true, false, not, ◌&&◌, Option, none, some, String, List, [], ◌∷◌, ◌++◌, map, has, Dict,
  is_some, text_discrete, if◌then◌else◌, Result, ok, err,
}
use zt_edge.Common.Sort.{sort_texts}
use zt_edge.Common.Dedup.{dedup}
use zt_edge.Config.Diagnostic.{ValidationError, has_errors}
use zt_edge.Config.Value.{Value, object, end, get}
use zt_edge.Config.Raw.{
  RawConfig, ComponentConfig, EsphomeBlock, FrameworkConfig, ProjectConfig, PackageStore,
  effective_id,
}
use zt_edge.Config.Sources.{AllowList, text_field, stage_4_resolve_external_components}
use zt_edge.Config.Packages.{stage_1_merge_packages}
use zt_edge.Config.Substitutions.{stage_2_apply_substitutions}
use zt_edge.Config.Directives.{stage_3_process_extend_remove}
use zt_edge.Config.Variants.{VariantResolution, stage_3_5_resolve_variant}
use zt_edge.Config.Preload.{FrameworkType, PreloadContext, stage_5_preload_esphome_block}
use zt_edge.Config.Loading.{stage_6_load_components}
use zt_edge.Config.Schemas.{Floats, stage_7_validate_schemas}
use zt_edge.Config.Ids.{stage_8_resolve_ids}
use zt_edge.Config.FinalChecks.{stage_9_final_validation}
use zt_edge.Config.FinalChecks.Sigrok.{SigrokConfig}
use zt_edge.Config.PinConflicts.{index_of, count_up, stage_10_check_pin_conflicts}
use zt_edge.Config.ExclusiveGroups.{stage_11_check_exclusive_groups}
use zt_edge.Config.Profiles.{stage_12_validate_profile}
use zt_edge.Config.SecretFields.{stage_13_check_secret_fields}
use zt_edge.Schema.Chip.{ChipTarget}
use zt_edge.Schema.Pin.{PinAllocation, ResourceTracker}
use zt_edge.Schema.Registry.{ComponentRegistry}
use zt_edge.Schema.Solution.{SolutionRegistry}
use zt_edge.Schema.Flags.{FeatureFlagSet, from_components, contains}
use zt_edge.Config.Assembly.{ValidatedConfig, active_flags_of, components_of, validated_block}

pub data ValidationResult : Type 0 where
  valid : ValidatedConfig → ValidationResult
  invalid : List ValidationError → ValidationResult

pub record ValidationPipeline : Type 0 where
  pub registry : ComponentRegistry
  pub allow_list : AllowList

unfoldable pub new : ComponentRegistry → ValidationPipeline
new registry = record { registry = registry; allow_list = [] }

-- What the pipeline takes from the standard library and from serde.
pub record Host : Type 0 where
  pub to_lowercase : String → String
  pub to_uppercase : String → String
  pub is_whitespace : Char → Bool
  pub is_alphanumeric : Char → Bool
  pub floats : Floats
  pub from_value : Value → Result String SigrokConfig

-- A stage's diagnostics join the others; a fatal one among them ends the run.
unfoldable pub checkpoint :
    List ValidationError
    → List ValidationError
    → (List ValidationError → Option ValidationResult)
    → Option ValidationResult
checkpoint all_errors errs next =
    if has_errors errs then some (invalid (all_errors ++ errs)) else next (all_errors ++ errs)

-- The same for a stage whose expansion could run out of rounds, which it never does.
unfoldable pub bounded :
    List ValidationError
    → Option (List ValidationError)
    → (List ValidationError → Option ValidationResult)
    → Option ValidationResult
bounded all_errors none next = none
bounded all_errors (some errs) next = checkpoint all_errors errs next

module _ (host : Host) (solutions : SolutionRegistry) (pipeline : ValidationPipeline) where
  -- What is built when all stages have passed.
  unfoldable pub build :
      RawConfig
      → PreloadContext
      → VariantResolution
      → List String
      → ResourceTracker
      → FeatureFlagSet
      → ValidatedConfig
  build config ctx resolution resolved_ids tracker flags = record {
    esphome = validated_block config.esphome ctx resolution;
    components = components_of config.components resolved_ids;
    active_flags = active_flags_of host.to_uppercase flags resolved_ids resolution;
    pin_allocations = tracker.pin_allocations;
  }

  unfoldable pub finish :
      RawConfig
      → PreloadContext
      → VariantResolution
      → List String
      → ResourceTracker
      → List ValidationError
      → Option ValidationResult
  finish config ctx resolution resolved_ids tracker all_errors =
      elim (from_components resolved_ids pipeline.registry) [
        | none ↦ none
        | some flags ↦ some (
            if has_errors all_errors
            then invalid all_errors
            else valid (build config ctx resolution resolved_ids tracker flags))
      ]

  -- Stages 8 to 13.
  unfoldable pub check_resolved :
      RawConfig
      → PreloadContext
      → VariantResolution
      → List String
      → List ValidationError
      → Option ValidationResult
  check_resolved varied ctx resolution resolved_ids errors =
      let (config, id_table, s8_errs) =
        stage_8_resolve_ids host.to_lowercase host.is_alphanumeric varied in
      checkpoint errors s8_errs λ errors8.
        checkpoint errors8 (stage_9_final_validation host.floats host.from_value solutions config)
          λ errors9.
            let (tracker, s10_errs) = stage_10_check_pin_conflicts config ctx.chip_target in
            checkpoint errors9 s10_errs λ errors10.
              bounded errors10 (stage_11_check_exclusive_groups config pipeline.registry)
                λ errors11.
                  bounded errors11 (stage_12_validate_profile config pipeline.registry) λ errors12.
                    checkpoint errors12 (stage_13_check_secret_fields config pipeline.registry)
                      λ errors13. finish config ctx resolution resolved_ids tracker errors13

  -- Stages 6 and 7.
  unfoldable pub check_loaded :
      RawConfig
      → PreloadContext
      → VariantResolution
      → List ValidationError
      → Option ValidationResult
  check_loaded config ctx resolution errors =
      elim (stage_6_load_components config pipeline.registry) [
        | none ↦ none
        | some (resolved_ids, s6_errs) ↦ checkpoint errors s6_errs λ errors6.
            checkpoint errors6 (stage_7_validate_schemas host.floats config)
              λ errors7. check_resolved config ctx resolution resolved_ids errors7
      ]

  -- Stages 4 and 5.
  unfoldable pub check_sources :
      RawConfig → VariantResolution → List ValidationError → Option ValidationResult
  check_sources config resolution errors =
      checkpoint errors (stage_4_resolve_external_components config pipeline.allow_list) λ errors4.
        elim (stage_5_preload_esphome_block host.to_lowercase host.is_whitespace config) [
          | none ↦ none
          | some (err errs) ↦ some (invalid (errors4 ++ errs))
          | some (ok ctx) ↦ check_loaded config ctx resolution errors4
        ]

  unfoldable pub validate : RawConfig → PackageStore → Option ValidationResult
  validate given package_store =
      let (merged, s1_errs) = stage_1_merge_packages given package_store in
      checkpoint [] s1_errs λ errors1.
        let (substituted, s2_errs) = stage_2_apply_substitutions merged in
        let (directed, s3_errs) = stage_3_process_extend_remove substituted in
        checkpoint (errors1 ++ s2_errs) s3_errs λ errors3.
          let (varied, resolution, s3_5_errs) = stage_3_5_resolve_variant directed solutions in
          checkpoint errors3 s3_5_errs λ errors3_5. check_sources varied resolution errors3_5

pub record PartialConfig : Type 0 where
  pub esphome : Option EsphomeBlock
  pub components : List ComponentConfig
  pub substitutions : Dict String String

-- The device block that stands in for a missing one.
unfoldable pub partial_block : EsphomeBlock
partial_block = record {
  name = "partial";
  platform = "esp32";
  board = "esp32dev";
  friendly_name = none;
  framework = none;
  includes = [];
  libraries = [];
  project = none;
  area = none;
  min_version = none;
  profile = none;
  solution = none;
  solution_variant = none;
}

abbrev preload_errors :
    Option (Result (List ValidationError) PreloadContext) → Option (List ValidationError)
preload_errors none = none
preload_errors (some (ok ctx)) = some []
preload_errors (some (err errs)) = some errs

unfoldable pub validate_partial : Host → PartialConfig → Option (List ValidationError)
validate_partial host partial =
    let esphome : EsphomeBlock = elim partial.esphome [ none ↦ partial_block | some b ↦ b ] in
    let (config, s2_errs) = stage_2_apply_substitutions (record {
      esphome = esphome;
      packages = [];
      substitutions = partial.substitutions;
      components = partial.components;
    }) in
    elim (preload_errors
      (stage_5_preload_esphome_block host.to_lowercase host.is_whitespace config)) [
        | none ↦ none
        | some s5_errs ↦ some (s2_errs ++ s5_errs ++ stage_7_validate_schemas host.floats config)
      ]
