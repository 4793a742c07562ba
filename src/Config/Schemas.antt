-- ===== src/Config/Schemas.antt =====
-- crates/rshome-config/src/stages/s7_schema_validation.rs: the documents of the components
-- against their schemas. The floats of the language are numbers that stand for their 64 bits.
pub mod Fields
pub mod Conforms
pub mod Accepted
use Prim.Native.Char.{Char, code}
use zt_edge.Common.{
  ◌<>◌, ℕ, ◌+◌, Bool, true, false, not, ◌&&◌, ◌||◌, Option, none, some, String, List, [], ◌∷◌, ◌++◌,
  Dict, join, leb, ◌==◌, if◌then◌else◌,
}
use zt_edge.Common.Decimal.{decimal}
use zt_edge.Config.Diagnostic.{ValidationStage, ValidationError, error, with_suggestion}
use zt_edge.Config.Value.{
  Value, pos_int, neg_int, float, null, bool, number, string, array, object, find, is_null, as_str,
}
use zt_edge.Config.Value.{Fields as Object}
use zt_edge.Config.Raw.{RawConfig, ComponentConfig, effective_id}
use zt_edge.Config.PinConflicts.{index_of, count_up}
use zt_edge.Config.Schemas.Fields.{FieldType, FieldDef, entity_common, fields_for}

-- The conversions of `f64`, its order and its text.
pub record Floats : Type 0 where
  pub from_u64 : ℕ → ℕ
  pub from_i64 : ℕ → ℕ
  pub lt : ℕ → ℕ → Bool
  pub le : ℕ → ℕ → Bool
  pub display : ℕ → String

abbrev lower : ℕ → ℕ
lower c = if leb 65 c && leb c 90 then c + 32 else c

unfoldable pub eq_ignore_ascii_case : String → String → Bool
eq_ignore_ascii_case String.[] String.[] = true
eq_ignore_ascii_case String.[] (String.◌∷◌ d t) = false
eq_ignore_ascii_case (String.◌∷◌ c s) String.[] = false
eq_ignore_ascii_case (String.◌∷◌ c s) (String.◌∷◌ d t) =
    lower (code c) == lower (code d) && eq_ignore_ascii_case s t

unfoldable pub any_equal : List String → String → Bool
any_equal [] s = false
any_equal (v ∷ vs) s = eq_ignore_ascii_case v s || any_equal vs s

unfoldable pub check_field_type : Value → FieldType → Bool
check_field_type (string s) FieldType.string = true
check_field_type (number (pos_int n)) FieldType.integer = true
check_field_type (number (neg_int n)) FieldType.integer = true
check_field_type (number n) FieldType.float = true
check_field_type (bool b) FieldType.boolean = true
check_field_type (object m) FieldType.object = true
check_field_type (array xs) FieldType.array = true
check_field_type value FieldType.any = true
check_field_type value expected = false

unfoldable pub json_type_name : Value → String
json_type_name null = "null"
json_type_name (bool b) = "boolean"
json_type_name (number n) = "number"
json_type_name (string s) = "string"
json_type_name (array xs) = "array"
json_type_name (object m) = "object"

-- `{:?}` of a field's type.
abbrev debug_type : FieldType → String
debug_type FieldType.string = "String"
debug_type FieldType.integer = "Integer"
debug_type FieldType.float = "Float"
debug_type FieldType.boolean = "Boolean"
debug_type FieldType.object = "Object"
debug_type FieldType.array = "Array"
debug_type FieldType.any = "Any"

abbrev schema_error : String → String → ValidationError
schema_error path message = error ValidationStage.schema_validation path message

unfoldable pub check_enum : FieldDef → Value → String → List ValidationError
check_enum field val path = elim field.enum_values [
  | none ↦ []
  | some variants ↦ elim (as_str val) [
    | none ↦ []
    | some s ↦
        if any_equal variants s
        then []
        else with_suggestion
            (schema_error path ("invalid value '" <> s <> "' for '" <> field.name <> "'"))
            ("valid values: " <> join variants)
          ∷ []
  ]
]

module _ (floats : Floats) where
  -- `Value::as_f64`.
  unfoldable pub as_f64 : Value → Option ℕ
  as_f64 (number (pos_int n)) = some (floats.from_u64 n)
  as_f64 (number (neg_int n)) = some (floats.from_i64 n)
  as_f64 (number (float n)) = some n
  as_f64 _ = none

  -- A bound of the tables.
  abbrev pub bound : ℕ → ℕ
  bound n = floats.from_u64 n

  unfoldable pub check_range : FieldDef → Value → String → List ValidationError
  check_range field val path = elim field.min [
    | none ↦ []
    | some min ↦ elim field.max [
      | none ↦ []
      | some max ↦ elim (as_f64 val) [
        | none ↦ []
        | some n ↦
            if floats.lt n (bound min) || floats.lt (bound max) n
            then schema_error path (
                "value "
                <> floats.display n
                <> " for '"
                <> field.name
                <> "' is outside valid range ["
                <> floats.display (bound min)
                <> ", "
                <> floats.display (bound max)
                <> "]")
              ∷ []
            else []
      ]
    ]
  ]

  -- The field is there, and not a null that is required.
  unfoldable pub check_present : FieldDef → Value → String → List ValidationError
  check_present field val path =
      if check_field_type val field.field_type
      then check_enum field val path ++ check_range field val path
      else schema_error path (
          "field '"
          <> field.name
          <> "' expected "
          <> debug_type field.field_type
          <> " but got "
          <> json_type_name val)
        ∷ []

  -- One round of the loop of `validate_fields`.
  unfoldable pub check_field : FieldDef → Option Value → String → List ValidationError
  check_field field none path =
      if field.required
      then schema_error path ("required field '" <> field.name <> "' is missing") ∷ []
      else []
  check_field field (some val) path =
      if is_null val && field.required
      then schema_error path ("required field '" <> field.name <> "' must not be null") ∷ []
      else check_present field val path

  unfoldable pub check_fields : Object → List FieldDef → String → List ValidationError
  check_fields obj [] path = []
  check_fields obj (field ∷ fields) path =
      check_field field (find field.name obj) (path <> "." <> field.name)
      ++ check_fields obj fields path

  unfoldable pub validate_fields : Value → List FieldDef → String → List ValidationError
  validate_fields (object obj) fields path = check_fields obj fields path
  validate_fields config fields path = []

  unfoldable pub validate_component : String → ComponentConfig → String → List ValidationError
  validate_component component_id comp path = elim (fields_for component_id) [
    | none ↦ []
    | some (fields, has_common) ↦
        (if has_common then validate_fields comp.config entity_common path else [])
        ++ validate_fields comp.config fields path
  ]

  unfoldable pub validate_components : List ComponentConfig → Dict String ℕ → List ValidationError
  validate_components [] counters = []
  validate_components (comp ∷ rest) counters =
      validate_component (effective_id comp) comp
        (comp.component_type <> "[" <> decimal (index_of comp.component_type counters) <> "]")
      ++ validate_components rest (count_up comp counters)

  -- The registry is not read.
  unfoldable pub stage_7_validate_schemas : RawConfig → List ValidationError
  stage_7_validate_schemas config = validate_components config.components []
