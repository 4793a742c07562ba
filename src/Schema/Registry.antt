-- ===== src/Schema/Registry.antt =====
-- crates/rshome-schema/src/registry.rs: component definitions, the expansion of a selection by
-- AUTO_LOAD, and the checks of dependencies and conflicts. A `HashMap` is a dictionary, a `HashSet`
-- a list of texts without repetition; where the source walks a set, the list's order stands for
-- the order of the hash table.
mod Worklist
pub mod Expand
pub mod Dependencies
pub mod Conflicts
use zt_edge.Common.{
  ℕ, zero, suc, ◌+◌, Bool, true, false, Option, none, some, String, List, [], ◌∷◌, ◌++◌, length,
  has, Dict, lookup, insert, text_discrete, ite, if◌then◌else◌, Result, ok, err,
}
use zt_edge.Common.Sort.{sort_texts, text_lt}
use zt_edge.Schema.Entity.{EntityType}

pub data InstancePolicy : Type 0 where
  singleton : InstancePolicy
  exclusive_group : String → InstancePolicy
  multi_instance : InstancePolicy

pub data ConfigMode : Type 0 where
  compile_time_only runtime_mutable : ConfigMode

-- The platform binding and the interaction, which no operation here reads, are left out.
pub record ComponentDefinition : Type 0 where
  pub id : String
  pub description : String
  pub is_family : Bool
  pub child_components : List String
  pub auto_load : List String
  pub dependencies : List String
  pub conflicts_with : List String
  pub entity_type : Option EntityType
  pub exclusive_group_name : Option String
  pub instance_policy : InstancePolicy
  pub config_mode : ConfigMode
  pub secret_fields : List String

pub record MissingDep : Type 0 where
  pub component : String
  pub dependency : String

pub record Conflict : Type 0 where
  pub a : String
  pub b : String

abbrev pub ComponentRegistry : Type 0
ComponentRegistry = Dict String ComponentDefinition

unfoldable pub get : ComponentRegistry → String → Option ComponentDefinition
get r id = lookup text_discrete id r

-- The inner loop of `resolve_auto_load`: each dependency that is new joins the result and the
-- worklist, whose top is the head of the list.
unfoldable pub push_new : List String → List String → List String → List String × List String
push_new [] result worklist = (result, worklist)
push_new (dep ∷ deps) result worklist =
    if has result dep
    then push_new deps result worklist
    else push_new deps (dep ∷ result) (dep ∷ worklist)

-- The `while let` loop in rounds; `none` means that the rounds ran out.
unfoldable pub expand_loop :
    ℕ → ComponentRegistry → List String → List String → Option (List String)
expand_loop rounds r result [] = some result
expand_loop zero r result (id ∷ worklist) = none
expand_loop (suc rounds) r result (id ∷ worklist) = elim (get r id) [
  | none ↦ expand_loop rounds r result worklist
  | some def ↦
      let (result', worklist') = push_new def.auto_load result worklist in
      expand_loop rounds r result' worklist'
]

-- `iter().cloned().collect()` into a set.
unfoldable pub collect_set : List String → List String → List String
collect_set [] set = set
collect_set (x ∷ xs) set = if has set x then collect_set xs set else collect_set xs (x ∷ set)

-- `selected.to_vec()` as a stack: the last entry is on top.
unfoldable pub stack_of : List String → List String → List String
stack_of [] stack = stack
stack_of (x ∷ xs) stack = stack_of xs (x ∷ stack)

-- All AUTO_LOAD entries of a registry.
unfoldable pub auto_loads : ComponentRegistry → List String
auto_loads [] = []
auto_loads ((_, def) ∷ r) = def.auto_load ++ auto_loads r

-- Each round takes an entry off the worklist, and only an AUTO_LOAD entry is ever put on it, once.
abbrev pub enough_rounds : ComponentRegistry → List String → ℕ
enough_rounds r selected = length selected + length (auto_loads r)

unfoldable pub resolve_auto_load : ComponentRegistry → List String → Option (List String)
resolve_auto_load r selected =
    elim (expand_loop (enough_rounds r selected) r (collect_set selected [])
      (stack_of selected [])) [ none ↦ none | some result ↦ some (sort_texts result) ]

-- The loops of `check_dependencies`, over a component's dependencies and over the expanded set.
unfoldable pub missing_deps : List String → String → List String → List MissingDep
missing_deps expanded id [] = []
missing_deps expanded id (dep ∷ deps) =
    let rest = missing_deps expanded id deps in
    if has expanded dep then rest else record { component = id; dependency = dep } ∷ rest

unfoldable pub all_missing : ComponentRegistry → List String → List String → List MissingDep
all_missing r expanded [] = []
all_missing r expanded (id ∷ ids) = elim (get r id) [
  | none ↦ all_missing r expanded ids
  | some def ↦ missing_deps expanded id def.dependencies ++ all_missing r expanded ids
]

unfoldable pub result_of {ℓ} : {E : Type ℓ} → List E → Result (List E) (Unit {ℓ})
result_of [] = ok tt
result_of (e ∷ es) = err (e ∷ es)

unfoldable pub check_dependencies :
    ComponentRegistry → List String → Option (Result (List MissingDep) (Unit {0}))
check_dependencies r selected = elim (resolve_auto_load r selected) [
  | none ↦ none
  | some expanded ↦ some (result_of (all_missing r expanded expanded))
]

-- The order of a pair in the `seen` set of `check_conflicts`.
unfoldable pub pair_key : String → String → String × String
pair_key id other = if text_lt id other then (id, other) else (other, id)

unfoldable pub has_pair : List (String × String) → String × String → Bool
has_pair [] k = false
has_pair ((a, b) ∷ seen) k =
    ite (text_discrete a k.0) (ite (text_discrete b k.1) true (has_pair seen k)) (has_pair seen k)

-- One round of the inner loop of `check_conflicts`, over the errors and the pairs seen so far.
unfoldable pub note_conflict :
    List String
    → String
    → String
    → List Conflict × List (String × String)
    → List Conflict × List (String × String)
note_conflict set id other (errors, seen) =
    if has set other
    then if has_pair seen (pair_key id other)
      then (errors, seen)
      else (errors ++ (record { a = id; b = other } ∷ []), pair_key id other ∷ seen)
    else (errors, seen)

unfoldable pub note_conflicts :
    List String
    → String
    → List String
    → List Conflict × List (String × String)
    → List Conflict × List (String × String)
note_conflicts set id [] state = state
note_conflicts set id (other ∷ others) state =
    note_conflicts set id others (note_conflict set id other state)

unfoldable pub all_conflicts :
    ComponentRegistry
    → List String
    → List String
    → List Conflict × List (String × String)
    → List Conflict × List (String × String)
all_conflicts r set [] state = state
all_conflicts r set (id ∷ ids) state = elim (get r id) [
  | none ↦ all_conflicts r set ids state
  | some def ↦ all_conflicts r set ids (note_conflicts set id def.conflicts_with state)
]

unfoldable pub check_conflicts :
    ComponentRegistry → List String → Option (Result (List Conflict) (Unit {0}))
check_conflicts r selected = elim (resolve_auto_load r selected) [
  | none ↦ none
  | some expanded ↦ some (result_of (all_conflicts r expanded expanded ([], [])).0)
]
