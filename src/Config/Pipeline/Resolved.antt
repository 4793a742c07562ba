-- ===== src/Config/Pipeline/Resolved.antt =====
-- crates/rshome-config/src/pipeline.rs: the stages 8 to 13 and what is built at the end.
use zt_edge.Common.{◌≡◌, refl, sym, ◌↔◌, none, some, String, List, [], All, arith}
use zt_edge.Config.Diagnostic.{ValidationError}
use zt_edge.Config.Raw.{RawConfig}
use zt_edge.Config.Variants.{VariantResolution}
use zt_edge.Config.Preload.{PreloadContext}
use zt_edge.Config.Ids.{stage_8_resolve_ids}
use zt_edge.Config.FinalChecks.Sound.{IsSound, stage_9_final_validation-IsSound}
use zt_edge.Config.PinConflicts.{stage_10_check_pin_conflicts}
use zt_edge.Config.PinConflicts.Claimed.{usages, stage_10_check_pin_conflicts_lem}
use zt_edge.Config.PinConflicts.Claimed as Claimed
use zt_edge.Config.ExclusiveGroups.{group_of, selected}
use zt_edge.Config.ExclusiveGroups.Groups.{stage_11_check_exclusive_groups-eq-nil}
use zt_edge.Config.Profiles.{stage_12_validate_profile_lem}
use zt_edge.Config.SecretFields.{IsSafe, stage_13_check_secret_fields-eq-nil}
use zt_edge.Config.Pipeline.{Host, ValidationPipeline, valid, build, finish, check_resolved}
use zt_edge.Config.Assembly.{ValidatedConfig}
use zt_edge.Config.Pipeline.Kept.{stage_11-Listed, stage_12-Listed, stage_13-AllFatal}
use zt_edge.Schema.Pin.{ResourceTracker}
use zt_edge.Schema.Registry.Expand.{Needed}
use zt_edge.Schema.Solution.{SolutionRegistry}
use zt_edge.Schema.Flags.{FeatureFlagSet, from_components, from_components_lem}
use zt_edge.Config.Pipeline.Runs.{
  Clean, Gives, Ends, checkpoint-Ends, checkpoint-Gives, bounded-Ends, bounded-Gives,
}

module _ (host : Host) (solutions : SolutionRegistry) (pipeline : ValidationPipeline) where
  -- The configuration with the ids that were made up.
  abbrev pub identified : RawConfig → RawConfig
  identified varied = (stage_8_resolve_ids host.to_lowercase host.is_alphanumeric varied).0

  abbrev pub tracked : RawConfig → PreloadContext → ResourceTracker
  tracked varied ctx = (stage_10_check_pin_conflicts (identified varied) ctx.chip_target).0

  -- The validated configuration is the one that the pipeline builds.
  abbrev pub Built :
      RawConfig → PreloadContext → VariantResolution → List String → ValidatedConfig → Type 0
  Built varied ctx resolution resolved_ids v =
      (flags : FeatureFlagSet) × (from_components resolved_ids pipeline.registry ≡ some flags)
      × (v
          ≡ build host solutions pipeline (identified varied) ctx resolution resolved_ids
              (tracked varied ctx) flags)

  same_config : {a b : ValidatedConfig} → some (valid a) ≡ some (valid b) → a ≡ b
  same_config {a} {b} e = ground arith

  same_flags : {a b : FeatureFlagSet} → some a ≡ some b → a ≡ b
  same_flags {a} {b} e = ground arith

  finish-Gives :
      (varied : RawConfig) (ctx : PreloadContext) (resolution : VariantResolution)
      (resolved_ids : List String) (v : ValidatedConfig) (es : List ValidationError)
      → Clean es
      → Gives
          (finish host solutions pipeline
            (identified varied)
            ctx
            resolution
            resolved_ids
            (tracked varied ctx)
            es)
          v
        ↔ Built varied ctx resolution resolved_ids v
  unfolding finish
  finish-Gives varied ctx resolution resolved_ids v es clean =
      let (set, e, flagged) = from_components_lem resolved_ids pipeline.registry in
      rw (e, clean, finish)
        (
          λ h. (set, refl, sym (same_config h)),
          λ h.
              let (flags, f, g) = h in
              let one : flags ≡ set = sym (same_flags f) in rw (g, one) refl,
        )

  finish-Ends :
      (config : RawConfig) (ctx : PreloadContext) (resolution : VariantResolution)
      (resolved_ids : List String) (tracker : ResourceTracker) (es : List ValidationError)
      → Ends (finish host solutions pipeline config ctx resolution resolved_ids tracker es)
  unfolding finish
  finish-Ends config ctx resolution resolved_ids tracker es =
      let (set, e, flagged) = from_components_lem resolved_ids pipeline.registry in
      rw (e, finish) (_, refl)

  -- No two needed components of one exclusive group.
  abbrev pub Exclusive : RawConfig → Type 0
  Exclusive config =
      (a b g : String)
      → Needed pipeline.registry (selected config) a
      → Needed pipeline.registry (selected config) b
      → group_of pipeline.registry a ≡ some g
      → group_of pipeline.registry b ≡ some g
      → a ≡ b

  -- What the stages 8 to 13 ask, the first of them of the configuration without the ids.
  pub record IsResolved (varied : RawConfig) (ctx : PreloadContext) : Type 0 where
    pub ids : Clean (stage_8_resolve_ids host.to_lowercase host.is_alphanumeric varied).2
    pub sound : IsSound host.floats host.from_value solutions (identified varied)
    pub pins : Claimed.IsSound (usages (identified varied)) ctx.chip_target
    pub groups : Exclusive (identified varied)
    pub profile : (identified varied).esphome.profile ≡ none
    pub secrets : All (IsSafe pipeline.registry) (identified varied).components

  pub check_resolved-Gives :
      (varied : RawConfig) (ctx : PreloadContext) (resolution : VariantResolution)
      (resolved_ids : List String) (v : ValidatedConfig) (es : List ValidationError)
      → Clean es
      → Gives (check_resolved host solutions pipeline varied ctx resolution resolved_ids es) v
        ↔ (IsResolved varied ctx × Built varied ctx resolution resolved_ids v)
  unfolding check_resolved
  check_resolved-Gives varied ctx resolution resolved_ids v es clean =
      let config = identified varied in
      let secrets = stage_13_check_secret_fields-eq-nil config pipeline.registry in
      let fatal = stage_13-AllFatal config pipeline.registry in
      let whole =
        checkpoint-Gives es _ _ v _ _ clean (λ h. h, λ h. h)
          λ es8 clean8.
            checkpoint-Gives es8 _ _ v _ _ clean8
              (stage_9_final_validation-IsSound host.floats host.from_value solutions config)
              λ es9 clean9.
                checkpoint-Gives es9 _ _ v _ _ clean9
                  (stage_10_check_pin_conflicts_lem config ctx.chip_target).0
                  λ es10 clean10.
                    bounded-Gives es10 _ (stage_11-Listed config pipeline.registry) _ v _ _ clean10
                      (stage_11_check_exclusive_groups-eq-nil config pipeline.registry)
                      λ es11 clean11.
                        bounded-Gives es11 _ (stage_12-Listed config pipeline.registry) _ v _ _
                          clean11 (stage_12_validate_profile_lem [] config pipeline.registry).1
                          λ es12 clean12.
                            checkpoint-Gives es12 _ _ v _ _ clean12
                              (λ h. secrets.0 (fatal.0 h), λ h. fatal.1 (secrets.1 h))
                              λ es13 clean13.
                                finish-Gives varied ctx resolution resolved_ids v es13 clean13 in
      (
        λ h.
            let (ids, (sound, (pins, (groups, (profile, (secrets, built)))))) = whole.0 h in
            (
              record {
                ids = ids;
                sound = sound;
                pins = pins;
                groups = groups;
                profile = profile;
                secrets = secrets;
              },
              built,
            ),
        λ h.
            let r = h.0 in
            whole.1 (r.ids, (r.sound, (r.pins, (r.groups, (r.profile, (r.secrets, h.1)))))),
      )

  pub check_resolved-Ends :
      (varied : RawConfig) (ctx : PreloadContext) (resolution : VariantResolution)
      (resolved_ids : List String) (es : List ValidationError)
      → Ends (check_resolved host solutions pipeline varied ctx resolution resolved_ids es)
  unfolding check_resolved
  check_resolved-Ends varied ctx resolution resolved_ids es =
      let config = identified varied in
      checkpoint-Ends es _ _ λ es8. checkpoint-Ends es8 _ _ λ es9. checkpoint-Ends es9 _ _ λ es10.
        bounded-Ends es10 _ (stage_11-Listed config pipeline.registry) _ λ es11.
          bounded-Ends es11 _ (stage_12-Listed config pipeline.registry) _ λ es12.
            checkpoint-Ends es12 _ _
              λ es13. finish-Ends config ctx resolution resolved_ids (tracked varied ctx) es13
