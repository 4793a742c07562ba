-- ===== src/Config/Pipeline/Valid.antt =====
-- crates/rshome-config/src/pipeline.rs: which configurations are valid.
use zt_edge.Common.{true, ◌≡◌, refl, ◌↔◌, some, List, [], ◌++◌, arith, inl, inr, subst}
use zt_edge.Config.Diagnostic.{ValidationError, has_errors, has_errors-append}
use zt_edge.Config.Raw.{RawConfig, PackageStore}
use zt_edge.Config.Sources.{stage_4_resolve_external_components}
use zt_edge.Config.Sources.Trust.{stage_4_resolve_external_components-eq-nil}
use zt_edge.Config.Packages.{stage_1_merge_packages}
use zt_edge.Config.Packages.Merge.{all_known, stage_1_merge_packages_lem}
use zt_edge.Config.Substitutions.{stage_2_apply_substitutions}
use zt_edge.Config.Substitutions.Severity.{stage_2_apply_substitutions_lem}
use zt_edge.Config.Directives.{stage_3_process_extend_remove}
use zt_edge.Config.Directives.Directed.{Directed, stage_3_process_extend_remove-Directed}
use zt_edge.Config.Variants.{VariantResolution, stage_3_5_resolve_variant}
use zt_edge.Config.Variants.Overlay.{Fits, stage_3_5_resolve_variant-Fits}
use zt_edge.Config.Preload.{PreloadContext}
use zt_edge.Config.Preload.Accepted.{IsRead, stage_5_preload_esphome_block_lem}
use zt_edge.Config.Pipeline.{
  Host, ValidationPipeline, ValidationResult, valid, check_sources, validate,
}
use zt_edge.Config.Assembly.{ValidatedConfig}
use zt_edge.Config.Pipeline.Kept.{stage_4-AllFatal}
use zt_edge.Schema.Solution.{SolutionRegistry}
use zt_edge.Config.Pipeline.Runs.{Clean, Gives, checkpoint-Ends, checkpoint-Gives}
use zt_edge.Config.Pipeline.Loaded.{
  LoadsAs, Preloads, IsChecked, ChecksAs, preloaded, preloaded-Gives, preloaded-Ends, same_context,
}

module _ (host : Host) (solutions : SolutionRegistry) (pipeline : ValidationPipeline) where
  check_sources-Gives :
      (config : RawConfig) (resolution : VariantResolution) (v : ValidatedConfig)
      (es : List ValidationError)
      → Clean es
      → Gives (check_sources host solutions pipeline config resolution es) v
        ↔ ChecksAs host solutions pipeline config resolution v
  unfolding check_sources
  check_sources-Gives config resolution v es clean =
      let trusted = stage_4_resolve_external_components-eq-nil config pipeline.allow_list in
      let fatal = stage_4-AllFatal config pipeline.allow_list in
      let whole =
        checkpoint-Gives es (stage_4_resolve_external_components config pipeline.allow_list)
          (preloaded host solutions pipeline config resolution) v _ _ clean
          (λ h. trusted.0 (fatal.0 h), λ h. fatal.1 (trusted.1 h))
          (preloaded-Gives host solutions pipeline config resolution v) in
      (
        λ h.
            let (t, (ctx, p, (l, (c, (r, b))))) = whole.0 h in
            (ctx, p, record { trusted = t; loadable = l; conforms = c; resolved = r }, b),
        λ h.
            let (ctx, p, k, b) = h in
            whole.1 (k.trusted, (ctx, p, (k.loadable, (k.conforms, (k.resolved, b))))),
      )

  -- The configuration after the stages that change it, but for the ids.
  abbrev pub directed : RawConfig → PackageStore → RawConfig
  directed given store =
      (stage_3_process_extend_remove
        (stage_2_apply_substitutions (stage_1_merge_packages given store).0).0).0

  abbrev pub varied : RawConfig → PackageStore → RawConfig
  varied given store = (stage_3_5_resolve_variant (directed given store) solutions).0

  abbrev pub resolution_of : RawConfig → PackageStore → VariantResolution
  resolution_of given store = (stage_3_5_resolve_variant (directed given store) solutions).1

  -- What all stages ask of a configuration.
  pub record IsValid (given : RawConfig) (store : PackageStore) (ctx : PreloadContext)
      : Type 0 where
    pub packages : all_known store given.packages ≡ true
    pub directives :
        Directed 0 (stage_2_apply_substitutions (stage_1_merge_packages given store).0).0.components
    pub variant : Fits solutions (directed given store)
    pub block : IsRead host.to_lowercase host.is_whitespace (varied given store) ctx
    pub checked : IsChecked host solutions pipeline (varied given store) ctx

  Preloads-IsRead :
      (config : RawConfig) (ctx : PreloadContext)
      → Preloads host solutions pipeline config ctx
      → IsRead host.to_lowercase host.is_whitespace config ctx
  Preloads-IsRead config ctx e =
      elim (stage_5_preload_esphome_block_lem host.to_lowercase host.is_whitespace config) [
        | inl (other, f, read) ↦
            subst (IsRead host.to_lowercase host.is_whitespace config)
              (same_context host solutions pipeline _ other ctx f e) read
        | inr ((d, ds, f), none_read) ↦ absurd (cc (e, f))
      ]

  -- The run always ends with a result.
  validate-Ends :
      (given : RawConfig) (store : PackageStore)
      → (result : ValidationResult) × (validate host solutions pipeline given store ≡ some result)
  unfolding validate check_sources
  validate-Ends given store = checkpoint-Ends [] _ _ λ es1. checkpoint-Ends _ _ _ λ es3.
      checkpoint-Ends es3 _ _ λ es.
        checkpoint-Ends es _ _
          (preloaded-Ends host solutions pipeline (varied given store) (resolution_of given store))

  -- The pipeline always ends with a result. A configuration is validated exactly when its packages
  -- are known, each of its directives that the rounds come to names a target, which for !extend is
  -- the type of an entry at that time, its variant fits, its sources are trusted, its block is in
  -- order and is what the context holds, its components are known and conform to their schemas,
  -- dependencies are met, no conflict, shared group, shared or unfit pin or plain secret is left,
  -- the stage of ids reports nothing fatal, the final checks hold and no profile is named; the
  -- result is then what is built from the last configuration.
  pub validate-valid :
      (given : RawConfig) (store : PackageStore) (v : ValidatedConfig)
      → ((result : ValidationResult) × (validate host solutions pipeline given store ≡ some result))
        × ((validate host solutions pipeline given store ≡ some (valid v)) ↔ (
            (ctx : PreloadContext) × Preloads host solutions pipeline (varied given store) ctx
            × IsValid given store ctx
            × LoadsAs host solutions pipeline
                (varied given store)
                ctx
                (resolution_of given store)
                v))
  unfolding validate has_errors
  validate-valid given store v =
      let found = (stage_1_merge_packages_lem given store "").2 in
      let mild = (stage_2_apply_substitutions_lem (stage_1_merge_packages given store).0).0 in
      let whole =
        checkpoint-Gives [] _ _ v (all_known store given.packages ≡ true) _ refl
          (λ h. ground (arith, found, h), λ h. ground (arith, found, h))
          λ es1 clean1.
            checkpoint-Gives
              (es1 ++ (stage_2_apply_substitutions (stage_1_merge_packages given store).0).1) _ _ v
              _ _
              (ground (
                arith,
                clean1,
                mild,
                has_errors-append es1
                    (stage_2_apply_substitutions (stage_1_merge_packages given store).0).1,
              ))
              (stage_3_process_extend_remove-Directed
                (stage_2_apply_substitutions (stage_1_merge_packages given store).0).0)
              λ es3 clean3.
                checkpoint-Gives es3 _ _ v _ _ clean3
                  (stage_3_5_resolve_variant-Fits solutions (directed given store))
                  λ es clean.
                    check_sources-Gives (varied given store) (resolution_of given store) v es
                      clean in
      (
        validate-Ends given store,
        (
          λ h.
              let (p, (d, (f, (ctx, q, k, b)))) = whole.0 h in
              (
                ctx,
                q,
                record {
                  packages = p;
                  directives = d;
                  variant = f;
                  block = Preloads-IsRead (varied given store) ctx q;
                  checked = k;
                },
                b,
              ),
          λ h.
              let (ctx, q, k, b) = h in
              whole.1 (k.packages, (k.directives, (k.variant, (ctx, q, k.checked, b)))),
        ),
      )
