-- ===== src/Examples/Components.antt =====
-- A registry of four components, two of them in a cycle of AUTO_LOADs.
use zt_edge.Common.{◌≡◌, ◌↔◌, false, true, none, some, String, List, [], ◌∷◌, has, arith, ok}
use zt_edge.Common.Sort.{IsSorted}
use zt_edge.Schema.Registry.{
  ComponentDefinition, ComponentRegistry, multi_instance, runtime_mutable, get, resolve_auto_load,
  check_dependencies, check_conflicts,
}
use zt_edge.Schema.Registry.Expand.{Needed, resolve_auto_load_lem}
use zt_edge.Schema.Registry.Dependencies.{check_dependencies-eq-ok}
use zt_edge.Schema.Registry.Conflicts.{check_conflicts-eq-ok}

abbrev component : String → List String → List String → List String → ComponentDefinition
component id loads needs hates = record {
  id = id;
  description = "";
  is_family = false;
  child_components = [];
  auto_load = loads;
  dependencies = needs;
  conflicts_with = hates;
  entity_type = none;
  exclusive_group_name = none;
  instance_policy = multi_instance;
  config_mode = runtime_mutable;
  secret_fields = [];
}

abbrev registry : ComponentRegistry
registry =
    ("dht", component "dht" ("sensor" ∷ []) [] [])
    ∷ ("sensor", component "sensor" ("dht" ∷ []) ("wifi" ∷ []) [])
    ∷ ("wifi", component "wifi" [] [] ("ethernet" ∷ []))
    ∷ ("ethernet", component "ethernet" [] [] ("wifi" ∷ []))
    ∷ []

abbrev chosen : List String
chosen = "dht" ∷ "wifi" ∷ []

abbrev turned : List String
turned = "wifi" ∷ "dht" ∷ "wifi" ∷ []

resolve_auto_load_lem_example :
    (out : List String) × (resolve_auto_load registry chosen ≡ some out)
    × IsSorted out
    × ((k : String)
        → (has out k ≡ true → Needed registry chosen k)
          × (Needed registry chosen k → has out k ≡ true))
resolve_auto_load_lem_example = resolve_auto_load_lem registry chosen

same_members : (j : String) → has chosen j ≡ has turned j
unfolding has
same_members j = ground arith

check_dependencies-eq-ok_example : (check_dependencies registry chosen ≡ some (ok tt)) ↔ (
    (id k : String) (def : ComponentDefinition)
    → Needed registry chosen id
    → get registry id ≡ some def
    → has def.dependencies k ≡ true
    → Needed registry chosen k)
check_dependencies-eq-ok_example = check_dependencies-eq-ok registry chosen

check_conflicts-eq-ok_example : (check_conflicts registry chosen ≡ some (ok tt)) ↔ (
    (id k : String) (def : ComponentDefinition)
    → Needed registry chosen id
    → get registry id ≡ some def
    → has def.conflicts_with k ≡ true
    → ¬ Needed registry chosen k)
check_conflicts-eq-ok_example = check_conflicts-eq-ok registry chosen
