-- ===== src/Examples/Runs.antt =====
-- The validation of one configuration, stage by stage.
use zt_edge.Common.{
  ℕ, ◌≡◌, ◌↔◌, refl, Bool, true, false, none, some, String, List, [], ◌∷◌, All, map, has, ltb, leb,
  ◌-◌, ◌==◌, not, ◌&&◌, ◌||◌, lookup, text_discrete, if◌then◌else◌, Result, ok, err, arith,
}
use zt_edge.Common.Sort.{Unique, IsSorted}
use zt_edge.Config.Value.{Value, pos_int, number, string, object, Fields, end, field}
use zt_edge.Config.Raw.{RawConfig, EsphomeBlock, ComponentConfig, PackageStore, effective_id}
use zt_edge.Config.Schemas.{Floats, stage_7_validate_schemas}
use zt_edge.Config.FinalChecks.{stage_9_final_validation}
use zt_edge.Config.Diagnostic.{has_errors}
use zt_edge.Config.Variants.{VariantResolution, find_variant, stage_3_5_resolve_variant}
use zt_edge.Config.Pipeline.{
  valid, validate, check_sources, check_loaded, check_resolved, checkpoint, bounded, finish, build,
}
use zt_edge.Config.Assembly.{
  flag_name, flag_candidates, ValidatedComponent, ValidatedConfig, validated_block, active_flags_of,
  components_of,
}
use zt_edge.Schema.Solution as Solution
use zt_edge.Config.Preload.{PreloadContext, esp_idf, stage_5_preload_esphome_block}
use zt_edge.Config.Packages.{stage_1_merge_packages}
use zt_edge.Config.Substitutions.{stage_2_apply_substitutions}
use zt_edge.Config.Directives.{stage_3_process_extend_remove}
use zt_edge.Config.Sources.{stage_4_resolve_external_components}
use zt_edge.Config.Loading.{stage_6_load_components}
use zt_edge.Config.Ids.{IdTable, stage_8_resolve_ids}
use zt_edge.Config.PinConflicts.{allocation_of, stage_10_check_pin_conflicts}
use zt_edge.Config.ExclusiveGroups.{stage_11_check_exclusive_groups}
use zt_edge.Config.Profiles.{stage_12_validate_profile}
use zt_edge.Config.SecretFields.{stage_13_check_secret_fields}
use zt_edge.Schema.Flags.{FeatureFlagSet, contains, from_components}
use zt_edge.Schema.Chip.{esp32_s3}
use zt_edge.Schema.Pin.{ResourceTracker, new, input_output}
use zt_edge.Schema.Registry.{
  ComponentDefinition, ComponentRegistry, multi_instance, runtime_mutable,
}
use zt_edge.Schema.Solution.{SolutionRegistry, SolutionDefinition, SolutionVariantDefinition}
use zt_edge.Examples.Device.{
  given, solutions, registry, pipeline, floats, read_sigrok, host, no_packages, final, overlaid,
  resolution, context, resolved, last, table, tracker, flags,
}

stage_1_run : stage_1_merge_packages given no_packages ≡ (given, [])
unfolding stage_1_merge_packages zt_edge.Config.Packages.merge_loop
stage_1_run = refl

stage_2_run : stage_2_apply_substitutions given ≡ (given, [])
unfolding stage_2_apply_substitutions zt_edge.Config.Substitutions.apply_to_components
    zt_edge.Config.Substitutions.apply_to_platform zt_edge.Config.Substitutions.apply_to_value
    zt_edge.Config.Substitutions.resolve_string zt_edge.Config.Substitutions.resolve_loop
    zt_edge.Common.Cut.cut zt_edge.Common.Cut.strip
stage_2_run = refl

stage_3_run : stage_3_process_extend_remove given ≡ (given, [])
unfolding stage_3_process_extend_remove zt_edge.Config.Directives.process_loop
    zt_edge.Config.Directives.process_entry zt_edge.Config.Raw.is_extend
    zt_edge.Config.Raw.is_remove
stage_3_run = refl

stage_3_5_run : stage_3_5_resolve_variant given solutions ≡ (overlaid, resolution, [])
unfolding stage_3_5_resolve_variant zt_edge.Schema.Solution.get zt_edge.Common.lookup
    zt_edge.Common.text_discrete zt_edge.Config.Variants.choose_variant
    zt_edge.Config.Variants.find_variant zt_edge.Config.Variants.apply_variant
    zt_edge.Config.Variants.remove_components zt_edge.Config.Variants.add_components
    zt_edge.Config.Variants.has_type
stage_3_5_run = refl

stage_4_run : stage_4_resolve_external_components overlaid [] ≡ []
unfolding stage_4_resolve_external_components zt_edge.Config.Sources.check_framework
    zt_edge.Config.Sources.framework_components zt_edge.Config.Sources.check_components
    zt_edge.Config.Sources.check_reference zt_edge.Config.Value.get zt_edge.Config.Value.find
    zt_edge.Common.text_discrete
stage_4_run = refl

stage_5_run :
    stage_5_preload_esphome_block host.to_lowercase host.is_whitespace overlaid ≡ some (ok context)
unfolding stage_5_preload_esphome_block zt_edge.Config.Preload.finish
    zt_edge.Config.Preload.check_name zt_edge.Config.Preload.is_blank
    zt_edge.Config.Preload.chip_target_of zt_edge.Config.Preload.choose zt_edge.Common.text_discrete
    zt_edge.Config.Preload.without_dashes zt_edge.Config.Preload.check_board
    zt_edge.Config.Preload.framework_of
stage_5_run = refl

stage_6_run : stage_6_load_components overlaid registry ≡ some (resolved, [])
unfolding stage_6_load_components has_errors zt_edge.Config.Loading.look_up
    zt_edge.Schema.Registry.get zt_edge.Common.lookup zt_edge.Common.text_discrete effective_id
    zt_edge.Config.Loading.check_platform zt_edge.Schema.Registry.resolve_auto_load
    zt_edge.Schema.Registry.expand_loop zt_edge.Schema.Registry.stack_of has
    zt_edge.Schema.Registry.auto_loads zt_edge.Schema.Registry.push_new
    zt_edge.Schema.Registry.collect_set zt_edge.Common.Sort.sort_texts
    zt_edge.Config.Loading.all_dependency_errors zt_edge.Common.Sort.text_lt
    zt_edge.Config.Loading.each_known zt_edge.Config.Loading.dependency_errors
    zt_edge.Config.Loading.all_conflict_errors zt_edge.Config.Loading.conflict_errors
stage_6_run = refl

stage_7_run : stage_7_validate_schemas floats overlaid ≡ []
unfolding stage_7_validate_schemas zt_edge.Config.Schemas.validate_components
    zt_edge.Config.Schemas.validate_component zt_edge.Config.Schemas.Fields.fields_for
    zt_edge.Common.lookup zt_edge.Config.Schemas.Fields.schemas zt_edge.Common.text_discrete
    effective_id zt_edge.Config.Schemas.validate_fields zt_edge.Config.Schemas.check_fields
    zt_edge.Config.Schemas.Fields.wifi_fields zt_edge.Config.Schemas.check_field
    zt_edge.Config.Value.find zt_edge.Config.Schemas.Fields.with_enum
    zt_edge.Config.Schemas.Fields.opt zt_edge.Config.Schemas.check_present
    zt_edge.Config.Schemas.check_field_type zt_edge.Config.Schemas.check_enum
    zt_edge.Config.Schemas.check_range zt_edge.Config.Schemas.Fields.dht_fields
    zt_edge.Config.Schemas.Fields.with_range zt_edge.Config.Schemas.Fields.req
    zt_edge.Config.Schemas.as_f64 zt_edge.Config.Schemas.Fields.logger_fields
stage_7_run = refl

stage_8_run :
    stage_8_resolve_ids host.to_lowercase host.is_alphanumeric overlaid ≡ (last, table, [])
unfolding stage_8_resolve_ids zt_edge.Config.Ids.generate_ids zt_edge.Config.Ids.collect_ids
    zt_edge.Config.Ids.generate_id zt_edge.Config.Ids.collect_id zt_edge.Config.Value.get
    zt_edge.Config.Value.find zt_edge.Common.text_discrete zt_edge.Config.Ids.set_id
    zt_edge.Common.insert zt_edge.Config.Ids.check_components zt_edge.Config.Value.put
    zt_edge.Config.Ids.make_unique zt_edge.Config.Ids.check_cross_refs zt_edge.Common.Sort.text_lt
    zt_edge.Common.lookup zt_edge.Config.Ids.check_reference zt_edge.Config.Ids.slugify
    zt_edge.Config.Ids.ends_with zt_edge.Config.Ids.trim_end zt_edge.Config.Ids.trim_front
    zt_edge.Config.Ids.underscored
stage_8_run = refl

stage_9_run : stage_9_final_validation floats read_sigrok solutions last ≡ []
unfolding stage_9_final_validation zt_edge.Config.FinalChecks.require_network has
    zt_edge.Config.FinalChecks.types_of zt_edge.Common.text_discrete
    zt_edge.Config.FinalChecks.warn_both zt_edge.Config.FinalChecks.check_solution
    zt_edge.Config.FinalChecks.validate_solution zt_edge.Schema.Solution.get zt_edge.Common.lookup
    zt_edge.Config.FinalChecks.require_bundle zt_edge.Config.FinalChecks.warn_unknown
    zt_edge.Config.FinalChecks.validate_orchestration_budget zt_edge.Config.FinalChecks.watchdog_of
stage_9_run = refl

stage_10_run : stage_10_check_pin_conflicts last esp32_s3 ≡ (tracker, [])
unfolding stage_10_check_pin_conflicts zt_edge.Config.PinConflicts.claim_components
    zt_edge.Config.PinConflicts.claim_usages zt_edge.Config.PinConflicts.usages_of
    zt_edge.Config.PinConflicts.extract_pins zt_edge.Config.PinConflicts.extract_fields
    zt_edge.Config.Value.find zt_edge.Common.text_discrete zt_edge.Config.PinConflicts.read_pin
    zt_edge.Config.PinConflicts.as_u8 zt_edge.Schema.Pin.allocate_pin
    zt_edge.Config.PinConflicts.refusal zt_edge.Schema.Pin.find_pin new
    zt_edge.Config.PinConflicts.allocation_of zt_edge.Schema.Pin.validate_pin_capabilities
    zt_edge.Schema.Pin.check_allocation zt_edge.Schema.Chip.capabilities_for
stage_10_run = refl

stage_11_run : stage_11_check_exclusive_groups last registry ≡ some []
unfolding stage_11_check_exclusive_groups zt_edge.Schema.Registry.resolve_auto_load
    zt_edge.Schema.Registry.expand_loop zt_edge.Schema.Registry.stack_of
    zt_edge.Schema.Registry.auto_loads zt_edge.Schema.Registry.get zt_edge.Common.lookup
    zt_edge.Common.text_discrete effective_id zt_edge.Schema.Registry.push_new has
    zt_edge.Schema.Registry.collect_set zt_edge.Config.ExclusiveGroups.group_errors
    zt_edge.Config.ExclusiveGroups.collect_groups zt_edge.Common.Sort.sort_texts
    zt_edge.Common.Sort.text_lt zt_edge.Config.ExclusiveGroups.group_of
stage_11_run = refl

stage_12_run : stage_12_validate_profile last registry ≡ some []
unfolding stage_12_validate_profile zt_edge.Config.Profiles.validate_profile
stage_12_run = refl

stage_13_run : stage_13_check_secret_fields last registry ≡ []
unfolding stage_13_check_secret_fields zt_edge.Config.SecretFields.check_components
    zt_edge.Schema.Registry.get zt_edge.Common.lookup zt_edge.Common.text_discrete effective_id
    zt_edge.Config.SecretFields.check_fields
stage_13_run = refl

from_components_run : from_components resolved registry ≡ some flags
unfolding from_components zt_edge.Schema.Registry.resolve_auto_load
    zt_edge.Schema.Registry.expand_loop zt_edge.Schema.Registry.stack_of
    zt_edge.Schema.Registry.auto_loads zt_edge.Schema.Registry.get zt_edge.Common.lookup
    zt_edge.Common.text_discrete zt_edge.Schema.Registry.push_new has
    zt_edge.Schema.Registry.collect_set zt_edge.Schema.Flags.add_flags
    zt_edge.Schema.Flags.count_entities zt_edge.Common.Sort.sort_texts zt_edge.Common.Sort.text_lt
    zt_edge.Schema.Flags.flags_for zt_edge.Schema.Flags.count_entity
    zt_edge.Schema.Flags.component_to_flags
from_components_run = refl

active_flags_run : active_flags_of host.to_uppercase flags resolved resolution ≡ final.active_flags
unfolding active_flags_of zt_edge.Common.Dedup.dedup zt_edge.Common.Sort.sort_texts
    zt_edge.Config.Assembly.drop_flags zt_edge.Config.Assembly.add_missing has
    zt_edge.Config.Assembly.add_candidates zt_edge.Config.Assembly.flag_candidates
    zt_edge.Schema.Flags.contains zt_edge.Common.text_discrete zt_edge.Config.Assembly.own_flags
    zt_edge.Common.Sort.text_lt
active_flags_run = refl

components_run : components_of last.components resolved ≡ final.components
unfolding components_of zt_edge.Config.Assembly.explicit_components effective_id
    zt_edge.Config.PinConflicts.index_of zt_edge.Config.Value.get
    zt_edge.Config.Assembly.auto_components zt_edge.Common.lookup zt_edge.Config.Value.find has
    zt_edge.Common.text_discrete zt_edge.Config.PinConflicts.count_up zt_edge.Common.insert
components_run = refl

finish_run :
    finish host solutions pipeline last context resolution resolved tracker [] ≡ some (valid final)
unfolding finish build validated_block has_errors
finish_run = simp (from_components_run, active_flags_run, components_run, finish, build)

resolved_run :
    check_resolved host solutions pipeline overlaid context resolution resolved []
    ≡ some (valid final)
unfolding check_resolved checkpoint bounded has_errors
resolved_run = simp (
  stage_8_run, stage_9_run, stage_10_run, stage_11_run, stage_12_run, stage_13_run, finish_run,
  check_resolved, checkpoint, bounded, has_errors,
)

loaded_run :
    check_loaded host solutions pipeline overlaid context resolution [] ≡ some (valid final)
unfolding check_loaded checkpoint has_errors
loaded_run = simp (stage_6_run, stage_7_run, resolved_run, check_loaded, checkpoint, has_errors)

sources_run : check_sources host solutions pipeline overlaid resolution [] ≡ some (valid final)
unfolding check_sources checkpoint has_errors
sources_run = simp (stage_4_run, stage_5_run, loaded_run, check_sources, checkpoint, has_errors)

pub run : validate host solutions pipeline given no_packages ≡ some (valid final)
unfolding validate checkpoint has_errors
run = simp (
  stage_1_run, stage_2_run, stage_3_run, stage_3_5_run, sources_run, validate, checkpoint,
  has_errors,
)
