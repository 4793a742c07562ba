-- ===== src/Config/Loading.antt =====
-- crates/rshome-config/src/stages/s6_load_components.rs: the components are looked up in the
-- registry, and the expanded selection is checked. Where the source walks a hash table, the list's
-- order stands for its order.
pub mod Distance
pub mod Known
pub mod Accepted
use Prim.Native.Char.{Char, code}
use Prim.Native.String.{len}
use zt_edge.Common.{
  ◌<>◌, ℕ, zero, suc, ◌/◌, ◌+◌, min, max, Bool, true, false, not, ◌&&◌, Option, none, some, String,
  List, [], ◌∷◌, ◌++◌, has, is_some, text_discrete, leb, ltb, ◌==◌, if◌then◌else◌,
}
use zt_edge.Common.Decimal.{decimal}
use zt_edge.Config.Diagnostic.{ValidationStage, ValidationError, error, with_suggestion, has_errors}
use zt_edge.Config.Raw.{RawConfig, ComponentConfig, effective_id}
use zt_edge.Schema.Registry.{ComponentRegistry, ComponentDefinition, resolve_auto_load}
use zt_edge.Schema.Registry as Registry

-- The inner loop of `edit_distance`: the cells of a row after `left`, from those of the row above,
-- of which `diagonal` stands above `left`.
unfoldable pub next_cells : Char → String → ℕ → List ℕ → ℕ → List ℕ
next_cells c String.[] diagonal above left = []
next_cells c (String.◌∷◌ d b) diagonal [] left = []
next_cells c (String.◌∷◌ d b) diagonal (up ∷ above) left =
    let cell = if code c == code d then diagonal else 1 + min (min up left) diagonal in
    cell ∷ next_cells c b up above cell

abbrev next_row : Char → String → ℕ → List ℕ → List ℕ
next_row c b i [] = []
next_row c b i (diagonal ∷ above) = i ∷ next_cells c b diagonal above i

-- The first row of the table, from a column on.
unfoldable pub first_row : ℕ → String → List ℕ
first_row j String.[] = j ∷ []
first_row j (String.◌∷◌ d b) = j ∷ first_row (suc j) b

unfoldable pub last_row : String → String → ℕ → List ℕ → List ℕ
last_row String.[] b i row = row
last_row (String.◌∷◌ c a) b i row = last_row a b (suc i) (next_row c b (suc i) row)

unfoldable pub last_cell : List ℕ → ℕ
last_cell [] = 0
last_cell (x ∷ row) = elim row [ [] ↦ x | y ∷ ys ↦ last_cell row ]

-- The table row by row; the answer is its last cell.
unfoldable pub edit_distance : String → String → ℕ
edit_distance a b = last_cell (last_row a b 0 (first_row 0 b))

-- `filter` and `min_by_key`, which gives the first of several minima.
unfoldable pub closest : String → ℕ → List String → Option (ℕ × String) → Option (ℕ × String)
closest id threshold [] best = best
closest id threshold (candidate ∷ rest) best =
    let d = edit_distance id candidate in
    let kept : Option (ℕ × String) = elim best [
      | none ↦ some (d, candidate)
      | some (e, other) ↦ if ltb d e then some (d, candidate) else some (e, other)
    ] in
    closest id threshold rest (if leb d threshold then kept else best)

unfoldable pub all_ids : ComponentRegistry → List String
all_ids [] = []
all_ids ((id, def) ∷ registry) = id ∷ all_ids registry

unfoldable pub closest_match : String → ComponentRegistry → Option String
closest_match id registry = elim (closest id (max (len id / 3) 1) (all_ids registry) none) [
  | none ↦ none
  | some (d, m) ↦ some m
]

unfoldable pub unknown_component : String → String → ComponentRegistry → ValidationError
unknown_component path id registry =
    let err = error ValidationStage.component_loading path ("unknown component '" <> id <> "'") in
    elim (closest_match id registry) [
      | none ↦ err
      | some m ↦ with_suggestion err ("Did you mean '" <> m <> "'?")
    ]

-- The check of a platform of a known component.
unfoldable pub check_platform :
    Option String → ComponentDefinition → ComponentRegistry → String → String → List ValidationError
check_platform none def registry path component_type = []
check_platform (some platform) def registry path component_type =
    if not (has def.child_components platform) && not (is_some (Registry.get registry platform))
    then error ValidationStage.component_loading (path <> ".platform")
        ("unknown platform '" <> platform <> "' for component '" <> component_type <> "'")
      ∷ []
    else []

-- The ids that were referenced so far, in their order, and with one more.
abbrev pub push_direct : List String → String → List String
push_direct direct id = if has direct id then direct else direct ++ (id ∷ [])

unfoldable pub look_up :
    List ComponentConfig → ℕ → ComponentRegistry → List String → List String × List ValidationError
look_up [] i registry direct = (direct, [])
look_up (comp ∷ rest) i registry direct =
    let path = "components[" <> decimal i <> "]" in
    elim (Registry.get registry (effective_id comp)) [
      | none ↦
          let (final, errors) = look_up rest (suc i) registry direct in
          (final, unknown_component path (effective_id comp) registry ∷ errors)
      | some def ↦
          let (final, errors) =
            look_up rest (suc i) registry (push_direct direct (effective_id comp)) in
          (final, check_platform comp.platform def registry path comp.component_type ++ errors)
    ]

unfoldable pub dependency_errors : List String → List String → String → List ValidationError
dependency_errors resolved [] id = []
dependency_errors resolved (dep ∷ deps) id =
    let rest = dependency_errors resolved deps id in
    if has resolved dep
    then rest
    else error ValidationStage.component_loading id
        ("component '" <> id <> "' requires '" <> dep <> "' which is not in the config")
      ∷ rest

unfoldable pub conflict_errors : List String → List String → String → List ValidationError
conflict_errors resolved [] id = []
conflict_errors resolved (conflict ∷ conflicts) id =
    let rest = conflict_errors resolved conflicts id in
    if has resolved conflict
    then error ValidationStage.component_loading id
        ("component '" <> id <> "' conflicts with '" <> conflict <> "'")
      ∷ rest
    else rest

-- A loop over the expanded selection, with what it pushes for a known component.
unfoldable pub each_known :
    ComponentRegistry
    → (ComponentDefinition → String → List ValidationError)
    → List String
    → List ValidationError
each_known registry errors_of [] = []
each_known registry errors_of (id ∷ ids) = elim (Registry.get registry id) [
  | none ↦ each_known registry errors_of ids
  | some def ↦ errors_of def id ++ each_known registry errors_of ids
]

unfoldable pub all_dependency_errors :
    ComponentRegistry → List String → List String → List ValidationError
all_dependency_errors registry resolved ids =
    each_known registry (λ def id. dependency_errors resolved def.dependencies id) ids

unfoldable pub all_conflict_errors :
    ComponentRegistry → List String → List String → List ValidationError
all_conflict_errors registry resolved ids =
    each_known registry (λ def id. conflict_errors resolved def.conflicts_with id) ids

-- `none` if the expansion ran out of rounds, which it never does.
unfoldable pub stage_6_load_components :
    RawConfig → ComponentRegistry → Option (List String × List ValidationError)
stage_6_load_components config registry =
    let (direct, errors) = look_up config.components 0 registry [] in
    if has_errors errors then some (direct, errors) else elim (resolve_auto_load registry direct) [
      | none ↦ none
      | some resolved ↦ some (
        resolved,
        errors
            ++ all_dependency_errors registry resolved resolved
            ++ all_conflict_errors registry resolved resolved,
      )
    ]
