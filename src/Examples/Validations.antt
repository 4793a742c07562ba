-- ===== src/Examples/Validations.antt =====
-- The validation of one configuration, from its text to its flags.
use zt_edge.Common.{
  ◌≡◌, ◌↔◌, refl, true, false, some, String, All, map, has, ◌-◌, ◌==◌, not, ◌&&◌, ◌||◌, lookup,
  text_discrete, if◌then◌else◌,
}
use zt_edge.Common.Sort.{Unique, IsSorted}
use zt_edge.Config.Raw.{effective_id}
use zt_edge.Config.Schemas.{stage_7_validate_schemas}
use zt_edge.Config.Schemas.Accepted.{Conforms, stage_7_validate_schemas-Conforms}
use zt_edge.Config.FinalChecks.{stage_9_final_validation}
use zt_edge.Config.FinalChecks.Sound.{IsSound, stage_9_final_validation-IsSound}
use zt_edge.Config.Diagnostic.{has_errors}
use zt_edge.Config.Variants.{find_variant, stage_3_5_resolve_variant}
use zt_edge.Config.Variants.Overlay.{
  Chosen, chosen, count_type, occurrences, stage_3_5_resolve_variant_lem,
}
use zt_edge.Config.Pipeline.{ValidationResult, valid, validate}
use zt_edge.Config.Assembly.{flag_name, flag_candidates, active_flags_of}
use zt_edge.Config.Pipeline.Valid.{IsValid, varied, resolution_of, validate-valid}
use zt_edge.Config.Pipeline.Loaded.{Preloads, LoadsAs}
use zt_edge.Config.Pipeline.Resolved.{identified}
use zt_edge.Config.Assembly.Members.{active_flags_of_lem, entity_ids}
use zt_edge.Config.PinConflicts.Claimed.{usages}
use zt_edge.Schema.Registry.Expand.{Needed}
use zt_edge.Schema.Solution as Solution
use zt_edge.Config.Pipeline.Outcome.{validate-Outcome}
use zt_edge.Config.Preload.{PreloadContext}
use zt_edge.Config.PinConflicts.{allocation_of}
use zt_edge.Schema.Flags.{contains}
use zt_edge.Schema.Solution.{SolutionRegistry, SolutionDefinition, SolutionVariantDefinition}
use zt_edge.Examples.Device.{
  given, logged, weather, solutions, registry, pipeline, floats, read_sigrok, host, no_packages,
  final, resolution, resolved, flags,
}
use zt_edge.Examples.Runs.{run}

validate-Outcome_example :
    ((k : String)
      → (has (map (λ c. c.component_id) final.components) k ≡ true)
        ↔ Needed registry
            (map effective_id (varied host solutions pipeline given no_packages).components)
            k)
    × (final.pin_allocations
        ≡ map allocation_of (
            usages (
              identified host solutions pipeline
                (varied host solutions pipeline given no_packages))))
    × Unique (entity_ids final.components)
    × IsSorted final.active_flags
    × ((f : String)
        → (has final.active_flags f
            && has (resolution_of host solutions pipeline given no_packages).active_flag_remove f)
          ≡ false)
    × ((f : String)
        → (has final.active_flags f
            || has (resolution_of host solutions pipeline given no_packages).active_flag_remove f
            || not
                (has (resolution_of host solutions pipeline given no_packages).active_flag_add f))
          ≡ true)
validate-Outcome_example = validate-Outcome host solutions pipeline given no_packages final run

validate-valid_example :
    ((r : ValidationResult) × (validate host solutions pipeline given no_packages ≡ some r))
    × ((validate host solutions pipeline given no_packages ≡ some (valid final)) ↔ (
        (ctx : PreloadContext) × Preloads host solutions pipeline
          (varied host solutions pipeline given no_packages)
          ctx
        × IsValid host solutions pipeline given no_packages ctx
        × LoadsAs host solutions pipeline
            (varied host solutions pipeline given no_packages)
            ctx
            (resolution_of host solutions pipeline given no_packages)
            final))
validate-valid_example = validate-valid host solutions pipeline given no_packages final

stage_7_validate_schemas-Conforms_example :
    (has_errors (stage_7_validate_schemas floats given) ≡ false)
    ↔ All (Conforms floats) given.components
stage_7_validate_schemas-Conforms_example = stage_7_validate_schemas-Conforms floats given

stage_9_final_validation-IsSound_example :
    (has_errors (stage_9_final_validation floats read_sigrok solutions given) ≡ false)
    ↔ IsSound floats read_sigrok solutions given
stage_9_final_validation-IsSound_example =
    stage_9_final_validation-IsSound floats read_sigrok solutions given

logged_chosen : Chosen solutions given logged
unfolding Solution.get lookup find_variant text_discrete
logged_chosen = chosen "weather" "logged" weather refl refl refl refl

stage_3_5_resolve_variant_lem_example :
    ((t : String)
      → count_type t (stage_3_5_resolve_variant given solutions).0.components
        ≡ (if count_type t given.components == 0
            then (if has logged.add_components t then 1 else 0)
            else count_type t given.components)
          - occurrences t logged.remove_components)
    × ((stage_3_5_resolve_variant given solutions).0.esphome ≡ given.esphome)
    × ((stage_3_5_resolve_variant given solutions).0.packages ≡ given.packages)
    × ((stage_3_5_resolve_variant given solutions).0.substitutions ≡ given.substitutions)
    × ((stage_3_5_resolve_variant given solutions).1.active_flag_add ≡ logged.active_flag_add)
    × ((stage_3_5_resolve_variant given solutions).1.active_flag_remove ≡ logged.active_flag_remove)
stage_3_5_resolve_variant_lem_example =
    stage_3_5_resolve_variant_lem solutions given logged logged_chosen

active_flags_of_lem_example :
    IsSorted (active_flags_of host.to_uppercase flags resolved resolution)
    × ((f : String)
        → has (active_flags_of host.to_uppercase flags resolved resolution) f ≡ (
            (has resolution.active_flag_add f
              || (contains flags f
                  && (has flag_candidates f || has (map (flag_name host.to_uppercase) resolved) f)))
            && not (has resolution.active_flag_remove f)))
active_flags_of_lem_example = active_flags_of_lem host.to_uppercase flags resolved resolution
