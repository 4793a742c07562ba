-- ===== src/Config/Pipeline/Loaded.antt =====
-- crates/rshome-config/src/pipeline.rs: the stages 5 to 7.
use zt_edge.Common.{
  ◌≡◌, refl, subst, ◌↔◌, inl, inr, Option, none, some, String, List, ◌++◌, All, Result, ok, err,
  arith,
}
use zt_edge.Config.Diagnostic.{ValidationError}
use zt_edge.Config.Raw.{RawConfig}
use zt_edge.Config.Sources.{framework_components}
use zt_edge.Config.Sources.Trust.{IsAllowed, framework_references, component_references}
use zt_edge.Config.Variants.{VariantResolution}
use zt_edge.Config.Preload.{PreloadContext, stage_5_preload_esphome_block}
use zt_edge.Config.Preload.Accepted.{stage_5_preload_esphome_block_lem}
use zt_edge.Config.Loading.{stage_6_load_components}
use zt_edge.Config.Loading.Accepted.{IsLoadable, stage_6_load_components_lem}
use zt_edge.Config.Schemas.Accepted.{Conforms, stage_7_validate_schemas-Conforms}
use zt_edge.Config.Pipeline.{Host, ValidationPipeline, ValidationResult, invalid, check_loaded}
use zt_edge.Config.Assembly.{ValidatedConfig}
use zt_edge.Schema.Solution.{SolutionRegistry}
use zt_edge.Config.Pipeline.Runs.{Clean, Gives, Ends, checkpoint-Ends, checkpoint-Gives}
use zt_edge.Config.Pipeline.Resolved.{Built, IsResolved, check_resolved-Gives, check_resolved-Ends}

module _ (host : Host) (solutions : SolutionRegistry) (pipeline : ValidationPipeline) where
  -- The ids that the loading stage passes on.
  abbrev pub Loads : RawConfig → List String → Type 0
  Loads config resolved_ids =
      (errs : List ValidationError) × (stage_6_load_components config pipeline.registry
        ≡ some (resolved_ids, errs))

  abbrev pub LoadsAs : RawConfig → PreloadContext → VariantResolution → ValidatedConfig → Type 0
  LoadsAs config ctx resolution v =
      (resolved_ids : List String) × Loads config resolved_ids
      × Built host solutions pipeline config ctx resolution resolved_ids v

  check_loaded-Gives :
      (config : RawConfig) (ctx : PreloadContext) (resolution : VariantResolution)
      (v : ValidatedConfig) (es : List ValidationError)
      → Clean es
      → Gives (check_loaded host solutions pipeline config ctx resolution es) v ↔ (
          IsLoadable config pipeline.registry
          × (All (Conforms host.floats) config.components
              × (IsResolved host solutions pipeline config ctx × LoadsAs config ctx resolution v)))
  unfolding check_loaded
  check_loaded-Gives config ctx resolution v es clean =
      let (out, errs, e, loadable) = stage_6_load_components_lem config pipeline.registry in
      let whole = checkpoint-Gives es errs _ v _ _ clean loadable λ es6 clean6.
        checkpoint-Gives es6 _ _ v _ _ clean6 (stage_7_validate_schemas-Conforms host.floats config)
          λ es7 clean7.
            check_resolved-Gives host solutions pipeline config ctx resolution out v es7 clean7 in
      rw (e, check_loaded)
        (
          λ h. let (l, (c, (r, b))) = whole.0 h in (l, (c, (r, (out, (errs, refl), b)))),
          λ h.
              let (l, (c, (r, (ids, (others, f), b)))) = h in
              let same : ids ≡ out = ground arith in
              whole.1 (
                l,
                (
                  c,
                  (r, subst (λ x. Built host solutions pipeline config ctx resolution x v) same b),
                ),
              ),
        )

  check_loaded-Ends :
      (config : RawConfig) (ctx : PreloadContext) (resolution : VariantResolution)
      (es : List ValidationError)
      → Ends (check_loaded host solutions pipeline config ctx resolution es)
  unfolding check_loaded
  check_loaded-Ends config ctx resolution es =
      let (out, errs, e, loadable) = stage_6_load_components_lem config pipeline.registry in
      rw (e, check_loaded)
        (checkpoint-Ends es errs _ λ es6.
          checkpoint-Ends es6 _ _
            λ es7. check_resolved-Ends host solutions pipeline config ctx resolution out es7)

  -- The source stage lets the configuration pass.
  abbrev pub Trusted : RawConfig → Type 0
  Trusted config =
      All (IsAllowed pipeline.allow_list) (framework_references (framework_components config))
      × All (IsAllowed pipeline.allow_list) (component_references config.components)

  abbrev pub Preloads : RawConfig → PreloadContext → Type 0
  Preloads config ctx =
      stage_5_preload_esphome_block host.to_lowercase host.is_whitespace config ≡ some (ok ctx)

  -- What the stages 4 to 13 ask of a configuration, with the context that the preload stage reads.
  pub record IsChecked (config : RawConfig) (ctx : PreloadContext) : Type 0 where
    pub trusted : Trusted config
    pub loadable : IsLoadable config pipeline.registry
    pub conforms : All (Conforms host.floats) config.components
    pub resolved : IsResolved host solutions pipeline config ctx

  abbrev pub ChecksAs : RawConfig → VariantResolution → ValidatedConfig → Type 0
  ChecksAs config resolution v =
      (ctx : PreloadContext) × (Preloads config ctx)
      × IsChecked config ctx
      × LoadsAs config ctx resolution v

  pub same_context :
      (o : Option (Result (List ValidationError) PreloadContext)) (a b : PreloadContext)
      → o ≡ some (ok a)
      → o ≡ some (ok b)
      → a ≡ b
  same_context o a b e f = ground arith

  -- The rest of the run once the sources have passed.
  abbrev pub preloaded :
      RawConfig → VariantResolution → List ValidationError → Option ValidationResult
  preloaded config resolution es =
      elim (stage_5_preload_esphome_block host.to_lowercase host.is_whitespace config) [
        | none ↦ none
        | some (err errs) ↦ some (invalid (es ++ errs))
        | some (ok ctx) ↦ check_loaded host solutions pipeline config ctx resolution es
      ]

  abbrev PreloadsAs : RawConfig → VariantResolution → ValidatedConfig → Type 0
  PreloadsAs config resolution v =
      (ctx : PreloadContext) × (Preloads config ctx)
      × (IsLoadable config pipeline.registry
          × (All (Conforms host.floats) config.components
              × (IsResolved host solutions pipeline config ctx × LoadsAs config ctx resolution v)))

  pub preloaded-Gives :
      (config : RawConfig) (resolution : VariantResolution) (v : ValidatedConfig)
      (es : List ValidationError)
      → Clean es
      → Gives (preloaded config resolution es) v ↔ PreloadsAs config resolution v
  preloaded-Gives config resolution v es clean =
      elim (stage_5_preload_esphome_block_lem host.to_lowercase host.is_whitespace config) [
        | inl (ctx, e, read) ↦
            let whole = check_loaded-Gives config ctx resolution v es clean in
            rw (e, preloaded)
              (
                λ h. (ctx, refl, whole.0 h),
                λ h.
                    let (other, f, rest) = h in
                    let same : other ≡ ctx = same_context _ other ctx f refl in
                    whole.1 (
                      subst
                        (λ c.
                          IsLoadable config pipeline.registry
                          × (All (Conforms host.floats) config.components
                              × (IsResolved host solutions pipeline config c
                                  × LoadsAs config c resolution v)))
                        same rest),
              )
        | inr ((e, errs, f), never) ↦
            rw (f, preloaded) (λ h. absurd (cc h), λ h. let (ctx, g, rest) = h in absurd (cc g))
      ]

  pub preloaded-Ends :
      (config : RawConfig) (resolution : VariantResolution) (es : List ValidationError)
      → Ends (preloaded config resolution es)
  preloaded-Ends config resolution es =
      elim (stage_5_preload_esphome_block_lem host.to_lowercase host.is_whitespace config) [
        | inl (ctx, e, read) ↦ rw (e, preloaded) (check_loaded-Ends config ctx resolution es)
        | inr ((e, errs, f), never) ↦ rw (f, preloaded) (_, refl)
      ]
