-- ===== src/Config/Directives.antt =====
-- crates/rshome-config/src/stages/s3_extend_remove.rs: the loop over the `!extend` and `!remove`
-- directives.
pub mod Loop
pub mod Directed
pub mod Merged
pub mod Extends
pub mod Skipped
use zt_edge.Common.{
  ◌<>◌, ℕ, zero, suc, Option, none, some, String, List, [], ◌∷◌, ◌++◌, length, take, drop,
  text_discrete, if◌then◌else◌, ite,
}
use mathlib.Core.Option.{map as option_map}
use zt_edge.Config.Diagnostic.{ValidationStage, ValidationError, error, warning}
use zt_edge.Config.Value.{Value}
use zt_edge.Config.Raw.{RawConfig, ComponentConfig, is_extend, is_remove, directive_target}
use zt_edge.Config.Merge.{deep_merge}

-- `iter_mut().find(…)` with the merge into what it finds.
unfoldable pub extend_first : String → Value → List ComponentConfig → Option (List ComponentConfig)
extend_first target src [] = none
extend_first target src (c ∷ cs) =
    let later = option_map (λ rest. c ∷ rest) (extend_first target src cs) in
    ite (text_discrete c.component_type target)
      (some (record c { config = deep_merge src c.config } ∷ cs)) later

-- `iter().position(…)` with the removal of what it finds.
unfoldable pub remove_first : String → List ComponentConfig → Option (List ComponentConfig)
remove_first target [] = none
remove_first target (c ∷ cs) =
    let later = option_map (λ rest. c ∷ rest) (remove_first target cs) in
    ite (text_discrete c.component_type target) (some cs) later

-- The components without the directive, after it has been carried out.
unfoldable pub process_extend :
    ComponentConfig → List ComponentConfig → List ComponentConfig × List ValidationError
process_extend comp rest = elim (directive_target comp) [
  | none ↦ (
    rest,
    error ValidationStage.extend_remove "components"
          "!extend directive is missing a target component type"
        ∷ [],
  )
  | some target ↦ elim (extend_first target comp.config rest) [
    | none ↦ (
      rest,
      error ValidationStage.extend_remove ("!extend " <> target)
            ("!extend target '" <> target <> "' not found in component list")
          ∷ [],
    )
    | some merged ↦ (merged, [])
  ]
]

unfoldable pub process_remove :
    ComponentConfig → List ComponentConfig → List ComponentConfig × List ValidationError
process_remove comp rest = elim (directive_target comp) [
  | none ↦ (
    rest,
    error ValidationStage.extend_remove "components"
          "!remove directive is missing a target component type"
        ∷ [],
  )
  | some target ↦ elim (remove_first target rest) [
    | none ↦ (
      rest,
      warning ValidationStage.extend_remove ("!remove " <> target)
            ("!remove target '" <> target <> "' not found; nothing removed")
          ∷ [],
    )
    | some shorter ↦ (shorter, [])
  ]
]

-- One round at the entry at `i`, which is given with the other entries: the next `i`, the
-- components, and what is pushed to the errors.
unfoldable pub process_entry :
    ComponentConfig
    → List ComponentConfig
    → ℕ
    → List ComponentConfig
    → ℕ × List ComponentConfig × List ValidationError
process_entry comp rest i components =
    let (extended, own) = process_extend comp rest in
    let (shortened, messages) = process_remove comp rest in
    if is_extend comp
    then (i, extended, own)
    else if is_remove comp
    then (i, shortened, messages)
    else (suc i, components, [])

-- The loop, with fuel for its rounds: each takes the entry at `i` away or goes on to the next.
unfoldable pub process_loop :
    ℕ → ℕ → List ComponentConfig → List ComponentConfig × List ValidationError
process_loop zero i components = (components, [])
process_loop (suc fuel) i components = elim (drop i components) [
  | [] ↦ (components, [])
  | comp ∷ after ↦
      let (j, left, own) = process_entry comp (take i components ++ after) i components in
      let (result, errors) = process_loop fuel j left in (result, own ++ errors)
]

unfoldable pub stage_3_process_extend_remove : RawConfig → RawConfig × List ValidationError
stage_3_process_extend_remove config =
    let (components, errors) = process_loop (suc (length config.components)) 0 config.components in
    (record config { components = components }, errors)
