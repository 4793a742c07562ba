-- ===== src/Config/Pipeline/Outcome.antt =====
-- crates/rshome-config/src/pipeline.rs: what a validated configuration holds.
use zt_edge.Common.{
  true, false, not, ◌&&◌, ◌||◌, ◌≡◌, sym, subst, ◌∙◌, ap, ◌↔◌, inl, inr, some, String, List, map,
  has, Bool-cases, arith,
}
use zt_edge.Common.Sort.{IsSorted, Unique}
use zt_edge.Config.Diagnostic.{has_errors}
use zt_edge.Config.Raw.{RawConfig, PackageStore, effective_id}
use zt_edge.Config.Ids.References.{stage_8_resolve_ids_lem}
use zt_edge.Config.Loading.Accepted.{
  IsLoadable, stage_6_load_components_lem, stage_6_load_components-Needed,
}
use zt_edge.Config.PinConflicts.{allocation_of}
use zt_edge.Config.PinConflicts.Claimed.{usages, stage_10_check_pin_conflicts_lem}
use zt_edge.Config.Pipeline.{Host, ValidationPipeline, valid, build, validate}
use zt_edge.Config.Assembly.{ValidatedConfig}
use zt_edge.Config.Assembly.Members.{
  active_flags_of_lem, has-components_of, entity_ids, entity_ids-components_of,
}
use zt_edge.Config.Pipeline.Kept.{stage_8_resolve_ids-effective_id}
use zt_edge.Config.Pipeline.Resolved.{identified}
use zt_edge.Config.Pipeline.Loaded.{Loads}
use zt_edge.Config.Pipeline.Valid.{varied, resolution_of, validate-valid}
use zt_edge.Schema.Solution.{SolutionRegistry}
use zt_edge.Schema.Registry.Expand.{Needed, chosen}

module _ (host : Host) (solutions : SolutionRegistry) (pipeline : ValidationPipeline) where
  Loads-Needed :
      (config : RawConfig) (out : List String)
      → IsLoadable config pipeline.registry
      → Loads host solutions pipeline config out
      → (k : String)
      → (has out k ≡ true) ↔ Needed pipeline.registry (map effective_id config.components) k
  Loads-Needed config out loadable (errs, e) =
      let (ids, others, f, whole) = stage_6_load_components_lem config pipeline.registry in
      let same : others ≡ errs = ground arith in
      stage_6_load_components-Needed config pipeline.registry out errs e
        (subst (λ es. has_errors es ≡ false) same (whole.1 loadable))

  -- A validated configuration has exactly the components that are needed, the pins of the
  -- configuration in their order, components whose ids all differ, and strictly sorted flags, of
  -- which the variant removes none and lacks none that it adds and does not remove.
  pub validate-Outcome :
      (given : RawConfig) (store : PackageStore) (v : ValidatedConfig)
      → validate host solutions pipeline given store ≡ some (valid v)
      → ((k : String)
          → (has (map (λ c. c.component_id) v.components) k ≡ true)
            ↔ Needed pipeline.registry
                (map effective_id (varied host solutions pipeline given store).components)
                k)
        × (v.pin_allocations
            ≡ map allocation_of (
                usages (
                  identified host solutions pipeline (varied host solutions pipeline given store))))
        × Unique (entity_ids v.components)
        × IsSorted v.active_flags
        × ((f : String)
            → (has v.active_flags f
                && has (resolution_of host solutions pipeline given store).active_flag_remove f)
              ≡ false)
        × ((f : String)
            → (has v.active_flags f
                || has (resolution_of host solutions pipeline given store).active_flag_remove f
                || not (has (resolution_of host solutions pipeline given store).active_flag_add f))
              ≡ true)
  unfolding build
  validate-Outcome given store v e =
      let (ctx, p, k, (ids, loads, (flags, f, same))) =
        (validate-valid host solutions pipeline given store v).1.0 e in
      let config = varied host solutions pipeline given store in
      let last = identified host solutions pipeline config in
      let resolution = resolution_of host solutions pipeline given store in
      let (kept, block) =
        stage_8_resolve_ids-effective_id host.to_lowercase host.is_alphanumeric config in
      let needed = Loads-Needed config ids k.checked.loadable loads in
      let (sorted, active) = active_flags_of_lem host.to_uppercase flags ids resolution in
      rw (same) (
        λ i.
            let members = has-components_of last.components ids i in
            (
              λ h. elim (Bool-cases (has ids i)) [
                | inl there ↦ (needed i).0 there
                | inr away ↦
                    chosen i (ap (λ ks. has ks i) (sym kept) ∙ (ground (arith, members, h, away)))
              ],
              λ n. let there = (needed i).1 n in ground (arith, members, there),
            ),
        (stage_10_check_pin_conflicts_lem last ctx.chip_target).1 k.checked.resolved.pins,
        subst Unique (sym (entity_ids-components_of last.components ids))
            (stage_8_resolve_ids_lem host.to_lowercase host.is_alphanumeric config
              k.checked.resolved.ids).0,
        sorted,
        λ g. ground (arith, active g),
        λ g. ground (arith, active g),
      )
