-- ===== src/Config/Ids.antt =====
-- crates/rshome-config/src/stages/s8_id_resolution.rs: the ids of the components are collected,
-- made up where one is missing, and looked up where a component refers to another. The Unicode
-- functions of the standard library are parameters.
pub mod Fresh
pub mod Collected
pub mod Unique
pub mod References
use Prim.Native.Char.{Char, code}
use zt_edge.Common.{
  ◌<>◌, ℕ, zero, suc, Bool, true, false, Option, none, some, String, List, [], ◌∷◌, ◌++◌, Dict,
  lookup, insert, length, text_discrete, ◌==◌, ◌||◌, ◌&&◌, not, if◌then◌else◌, ite, is_some,
}
use zt_edge.Common.Decimal.{decimal}
use zt_edge.Config.Diagnostic.{ValidationStage, ValidationError, error}
use zt_edge.Config.Value.{
  Value, null, bool, number, string, array, object, Items, nil, cons, Fields, end, field, get, put,
  as_str, is_null,
}
use zt_edge.Config.Raw.{RawConfig, ComponentConfig}

pub record IdEntry : Type 0 where
  pub id : String
  pub component_index : ℕ
  pub component_type : String

abbrev pub IdTable : Type 0
IdTable = Dict String IdEntry

abbrev is_empty_text : String → Bool
is_empty_text String.[] = true
is_empty_text (String.◌∷◌ c s) = false

-- `trim_matches('_')`, from the front and from the end.
unfoldable pub trim_front : String → String
trim_front String.[] = String.[]
trim_front (String.◌∷◌ c s) =
    let rest = trim_front s in if code c == b'_' then rest else String.◌∷◌ c s

unfoldable pub trim_end : String → String
trim_end String.[] = String.[]
trim_end (String.◌∷◌ c s) =
    let rest = trim_end s in
    if code c == b'_' && is_empty_text rest then String.[] else String.◌∷◌ c rest

-- `str::ends_with`.
unfoldable pub ends_with : String → String → Bool
ends_with suffix String.[] = is_empty_text suffix
ends_with suffix (String.◌∷◌ c s) =
    let later = ends_with suffix s in ite (text_discrete (String.◌∷◌ c s) suffix) true later

-- First pass, over the components from an index on.
unfoldable pub collect_id :
    ComponentConfig → ℕ → IdTable → Option Value → IdTable × List ValidationError
collect_id comp i table none = (table, [])
collect_id comp i table (some id_val) = elim (as_str id_val) [
  | some id ↦ elim (lookup text_discrete id table) [
    | some existing ↦ (
      table,
      error ValidationStage.id_resolution ("components[" <> decimal i <> "].id") (
            "duplicate ID '"
            <> id
            <> "': already used by "
            <> existing.component_type
            <> " at index "
            <> decimal existing.component_index)
          ∷ [],
    )
    | none ↦ (
      insert text_discrete id
          (record { id = id; component_index = i; component_type = comp.component_type }) table,
      [],
    )
  ]
  | none ↦ if is_null id_val then (table, []) else (
    table,
    error ValidationStage.id_resolution ("components[" <> decimal i <> "].id")
          "entity 'id' field must be a string"
        ∷ [],
  )
]

unfoldable pub collect_ids : List ComponentConfig → ℕ → IdTable → IdTable × List ValidationError
collect_ids [] i table = (table, [])
collect_ids (comp ∷ rest) i table =
    let (grown, own) = collect_id comp i table (get "id" comp.config) in
    let (final, errors) = collect_ids rest (suc i) grown in (final, own ++ errors)

abbrev pub candidate : String → ℕ → String
candidate base n = base <> "_" <> decimal n

-- The loop of `make_unique`, with fuel for its rounds.
unfoldable pub unique_loop : ℕ → ℕ → String → IdTable → String
unique_loop zero n base table = candidate base n
unique_loop (suc fuel) n base table =
    let later = unique_loop fuel (suc n) base table in
    if is_some (lookup text_discrete (candidate base n) table) then later else candidate base n

-- Of as many candidates as the table has entries and one more, one is free.
unfoldable pub make_unique : String → IdTable → String
make_unique base table =
    let suffixed = unique_loop (length table) 2 base table in
    if is_some (lookup text_discrete base table) then suffixed else base

unfoldable pub set_id : Value → String → Value
set_id (object m) id = object (put "id" (string id) m)
set_id v id = v

module _ (to_lowercase : String → String) (is_alphanumeric : Char → Bool) where
  unfoldable pub underscored : String → String
  underscored String.[] = String.[]
  underscored (String.◌∷◌ c s) =
      let rest = underscored s in if is_alphanumeric c then String.◌∷◌ c rest else "_" <> rest

  unfoldable pub slugify : String → String
  slugify name = trim_end (trim_front (underscored (to_lowercase name)))

  -- Second pass: the component and the table after it.
  unfoldable pub generate_id : ComponentConfig → ℕ → IdTable → ComponentConfig × IdTable
  generate_id comp i table = elim (get "id" comp.config) [
    | some v ↦ (comp, table)
    | none ↦ elim (get "name" comp.config) [
      | none ↦ (comp, table)
      | some name_val ↦ elim (as_str name_val) [
        | none ↦ (comp, table)
        | some name ↦
            let unique_id = make_unique (slugify name) table in
            (
              record comp { config = set_id comp.config unique_id },
              insert text_discrete unique_id
                  (record {
                    id = unique_id;
                    component_index = i;
                    component_type = comp.component_type;
                  })
                  table,
            )
      ]
    ]
  ]

  unfoldable pub generate_ids : List ComponentConfig → ℕ → IdTable → List ComponentConfig × IdTable
  generate_ids [] i table = ([], table)
  generate_ids (comp ∷ rest) i table =
      let (named, grown) = generate_id comp i table in
      let (components, final) = generate_ids rest (suc i) grown in (named ∷ components, final)

-- The reference that a field makes, if it is one that does not resolve.
unfoldable pub check_reference : String → Value → IdTable → String → List ValidationError
check_reference key val id_table field_path =
    if ends_with "_id" key && not (ite (text_discrete key "id") true false)
    then elim (as_str val) [
      | none ↦ []
      | some ref_id ↦
          if not (is_empty_text ref_id) && not (is_some (lookup text_discrete ref_id id_table))
          then error ValidationStage.id_resolution field_path
              ("cross-reference '" <> ref_id <> "' not found in ID table")
            ∷ []
          else []
    ]
    else []

unfoldable mutual
  pub check_cross_refs : Value → IdTable → String → List ValidationError
  check_cross_refs (object m) id_table path = check_fields m id_table path
  check_cross_refs (array xs) id_table path = check_items xs id_table 0 path
  check_cross_refs null id_table path = []
  check_cross_refs (bool b) id_table path = []
  check_cross_refs (number n) id_table path = []
  check_cross_refs (string s) id_table path = []

  pub check_fields : Fields → IdTable → String → List ValidationError
  check_fields end id_table path = []
  check_fields (field key val m) id_table path =
      let field_path = path <> "." <> key in
      check_reference key val id_table field_path
      ++ check_cross_refs val id_table field_path
      ++ check_fields m id_table path

  pub check_items : Items → IdTable → ℕ → String → List ValidationError
  check_items nil id_table i path = []
  check_items (cons v vs) id_table i path =
      check_cross_refs v id_table (path <> "[" <> decimal i <> "]")
      ++ check_items vs id_table (suc i) path

unfoldable pub check_components : List ComponentConfig → ℕ → IdTable → List ValidationError
check_components [] i id_table = []
check_components (comp ∷ rest) i id_table =
    check_cross_refs comp.config id_table ("components[" <> decimal i <> "]")
    ++ check_components rest (suc i) id_table

unfoldable pub stage_8_resolve_ids :
    (String → String) → (Char → Bool) → RawConfig → RawConfig × IdTable × List ValidationError
stage_8_resolve_ids to_lowercase is_alphanumeric config =
    let (collected, duplicates) = collect_ids config.components 0 [] in
    let (components, id_table) =
      generate_ids to_lowercase is_alphanumeric config.components 0 collected in
    (
      record config { components = components },
      id_table,
      duplicates ++ check_components components 0 id_table,
    )
