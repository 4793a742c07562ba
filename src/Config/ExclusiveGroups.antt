-- ===== src/Config/ExclusiveGroups.antt =====
-- crates/rshome-config/src/stages/s11_exclusive_groups.rs: of an exclusive group, one component at
-- most. Where the source walks a hash table, the list's order stands for its order.
pub mod Collected
pub mod Groups
use zt_edge.Common.{
  ◌<>◌, join, ℕ, zero, suc, Option, none, some, String, List, [], ◌∷◌, ◌++◌, map, Dict, lookup,
  insert, length, text_discrete, unwrap_or, ltb, if◌then◌else◌,
}
use zt_edge.Config.Diagnostic.{ValidationStage, ValidationError, error}
use zt_edge.Config.Raw.{RawConfig, effective_id}
use zt_edge.Schema.Registry.{ComponentRegistry, ComponentDefinition, resolve_auto_load}
use zt_edge.Schema.Registry as Registry

abbrev pub Groups : Type 0
Groups = Dict String (List String)

-- `entry(group).or_default().push(id)`.
unfoldable pub add_member : String → String → Groups → Groups
add_member group id groups =
    insert text_discrete group (unwrap_or (lookup text_discrete group groups) [] ++ (id ∷ []))
      groups

unfoldable pub group_of : ComponentRegistry → String → Option String
group_of registry id = elim (Registry.get registry id) [
  | none ↦ none
  | some def ↦ def.exclusive_group_name
]

unfoldable pub collect_groups : ComponentRegistry → List String → Groups → Groups
collect_groups registry [] groups = groups
collect_groups registry (id ∷ ids) groups = elim (group_of registry id) [
  | none ↦ collect_groups registry ids groups
  | some group ↦ collect_groups registry ids (add_member group id groups)
]

unfoldable pub group_errors : Groups → List ValidationError
group_errors [] = []
group_errors ((group, members) ∷ rest) =
    let later = group_errors rest in
    if ltb 1 (length members)
    then error ValidationStage.exclusive_group "components"
        ("exclusive group '" <> group <> "' has multiple selections: [" <> join members <> "]")
      ∷ later
    else later

abbrev pub selected : RawConfig → List String
selected config = map effective_id config.components

-- `none` if the expansion ran out of rounds, which it never does.
unfoldable pub stage_11_check_exclusive_groups :
    RawConfig → ComponentRegistry → Option (List ValidationError)
stage_11_check_exclusive_groups config registry =
    elim (resolve_auto_load registry (selected config)) [
      | none ↦ none
      | some expanded ↦ some (group_errors (collect_groups registry expanded []))
    ]
