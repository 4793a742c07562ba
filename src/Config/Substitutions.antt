-- ===== src/Config/Substitutions.antt =====
-- crates/rshome-config/src/stages/s2_substitutions.rs: the placeholders `${var}` and
-- `${var:=default}` in the texts of the components are replaced. `&mut` of a text or a document is
-- its value before and after, with what is pushed to the errors.
pub mod Resolve
pub mod Severity
use zt_edge.Common.{
  ◌<>◌, ℕ, zero, suc, Option, none, some, String, List, [], ◌∷◌, ◌++◌, Dict, lookup, text_discrete,
}
use zt_edge.Common.Cut.{cut, size}
use zt_edge.Common.Decimal.{decimal}
use zt_edge.Config.Diagnostic.{ValidationStage, ValidationError, warning}
use zt_edge.Config.Value.{
  Value, null, bool, number, string, array, object, Items, nil, cons, Fields, end, field,
}
use zt_edge.Config.Raw.{RawConfig, ComponentConfig}

-- The split of an expression at its first `:=`.
unfoldable pub parts : String → String × Option String
parts expr = elim (cut ":=" expr) [
  | none ↦ (expr, none)
  | some (var_name, default) ↦ (var_name, some default)
]

module _ (subs : Dict String String) where
  -- What the loop pushes for one expression.
  unfoldable pub placeholder : String → String → String × List ValidationError
  placeholder path expr = elim (lookup text_discrete (parts expr).0 subs) [
    | some val ↦ (val, [])
    | none ↦ elim (parts expr).1 [
      | some d ↦ (d, [])
      | none ↦ (
        "${" <> expr <> "}",
        warning ValidationStage.substitutions path
              ("substitution variable '${" <> (parts expr).0 <> "}' is undefined")
            ∷ [],
      )
    ]
  ]

  -- The loop, with fuel for its rounds: each takes a placeholder, or an unclosed one's beginning,
  -- from the front of the rest.
  unfoldable pub resolve_loop : ℕ → String → String → String × List ValidationError
  resolve_loop zero path remaining = (remaining, [])
  resolve_loop (suc fuel) path remaining = elim (cut "${" remaining) [
    | none ↦ (remaining, [])
    | some (before, rest) ↦ elim (cut "}" rest) [
      | none ↦
          let (result, errors) = resolve_loop fuel path rest in (before <> "${" <> result, errors)
      | some (expr, rest_after) ↦
          let (value, own) = placeholder path expr in
          let (result, errors) = resolve_loop fuel path rest_after in
          (before <> value <> result, own ++ errors)
    ]
  ]

  unfoldable pub resolve_string : String → String → String × List ValidationError
  resolve_string path s = resolve_loop (suc (size s)) path s

  -- The loops over an array and a map carry the index and the key into the path.
  unfoldable mutual
    pub apply_to_value : Value → String → Value × List ValidationError
    apply_to_value (string s) path = let (r, errors) = resolve_string path s in (string r, errors)
    apply_to_value (array xs) path =
        let (ys, errors) = apply_to_items xs 0 path in (array ys, errors)
    apply_to_value (object m) path = let (n, errors) = apply_to_fields m path in (object n, errors)
    apply_to_value null path = (null, [])
    apply_to_value (bool b) path = (bool b, [])
    apply_to_value (number n) path = (number n, [])

    pub apply_to_items : Items → ℕ → String → Items × List ValidationError
    apply_to_items nil i path = (nil, [])
    apply_to_items (cons v vs) i path =
        let (w, own) = apply_to_value v (path <> "[" <> decimal i <> "]") in
        let (ws, errors) = apply_to_items vs (suc i) path in (cons w ws, own ++ errors)

    pub apply_to_fields : Fields → String → Fields × List ValidationError
    apply_to_fields end path = (end, [])
    apply_to_fields (field k v m) path =
        let (w, own) = apply_to_value v (path <> "." <> k) in
        let (n, errors) = apply_to_fields m path in (field k w n, own ++ errors)

  unfoldable pub apply_to_platform : Option String → String → Option String × List ValidationError
  apply_to_platform none path = (none, [])
  apply_to_platform (some platform) path =
      let (r, errors) = resolve_string path platform in (some r, errors)

  unfoldable pub apply_to_components :
      List ComponentConfig → ℕ → List ComponentConfig × List ValidationError
  apply_to_components [] i = ([], [])
  apply_to_components (comp ∷ rest) i =
      let path = "components[" <> decimal i <> "]" in
      let (config, own) = apply_to_value comp.config path in
      let (platform, more) = apply_to_platform comp.platform path in
      let (components, errors) = apply_to_components rest (suc i) in
      (record comp { config = config; platform = platform } ∷ components, own ++ more ++ errors)

unfoldable pub stage_2_apply_substitutions : RawConfig → RawConfig × List ValidationError
stage_2_apply_substitutions config =
    let (components, errors) = apply_to_components config.substitutions config.components 0 in
    (record config { components = components }, errors)
