-- ===== src/Config/Substitutions/Severity.antt =====
-- crates/rshome-config/src/stages/s2_substitutions.rs: the diagnostics of the stage, and what it
-- does not touch.
use zt_edge.Common.{
  ℕ, zero, suc, false, ◌≡◌, refl, Option, none, some, String, List, [], ◌∷◌, map, Dict, lookup,
  text_discrete, Option-cases, inl, inr,
}
use zt_edge.Common.Cut.{cut}
use zt_edge.Config.Diagnostic.{has_errors, has_errors-append, is_fatal-warning}
use zt_edge.Config.Value.{
  Value, null, bool, number, string, array, object, Items, nil, cons, Fields, end, field,
}
use zt_edge.Config.Raw.{RawConfig, ComponentConfig}
use zt_edge.Config.Substitutions.{
  parts, placeholder, resolve_loop, resolve_string, apply_to_value, apply_to_items, apply_to_fields,
  apply_to_platform, apply_to_components, stage_2_apply_substitutions,
}

module _ (subs : Dict String String) where
  placeholder-Mild : (path expr : String) → has_errors (placeholder subs path expr).1 ≡ false
  unfolding placeholder has_errors
  placeholder-Mild path expr = elim (Option-cases (lookup text_discrete (parts expr).0 subs)) [
    | inl e ↦ elim (Option-cases (parts expr).1) [
      | inl d ↦ rw (e, d, placeholder) (rw (is_fatal-warning _ _ _) refl)
      | inr (v, d) ↦ rw (e, d, placeholder) refl
    ]
    | inr (v, e) ↦ rw (e, placeholder) refl
  ]

  resolve_loop-Mild :
      (fuel : ℕ) (path s : String) → has_errors (resolve_loop subs fuel path s).1 ≡ false
  unfolding resolve_loop has_errors
  resolve_loop-Mild zero path s = refl
  resolve_loop-Mild (suc fuel) path s = elim (Option-cases (cut "${" s)) [
    | inl e ↦ rw (e, resolve_loop) refl
    | inr ((before, rest), e) ↦ elim (Option-cases (cut "}" rest)) [
      | inl g ↦ rw (e, g, resolve_loop) (resolve_loop-Mild fuel path rest)
      | inr ((expr, after), g) ↦
          rw
            (
              e,
              g,
              resolve_loop,
              has_errors-append (placeholder subs path expr).1
                  (resolve_loop subs fuel path after).1,
              placeholder-Mild path expr,
              resolve_loop-Mild fuel path after,
            )
            refl
    ]
  ]

  resolve_string-Mild : (path s : String) → has_errors (resolve_string subs path s).1 ≡ false
  unfolding resolve_string
  resolve_string-Mild path s = resolve_loop-Mild _ path s

  mutual
    unfolding apply_to_value has_errors

    apply_to_value-Mild :
        (v : Value) (path : String) → has_errors (apply_to_value subs v path).1 ≡ false
    apply_to_value-Mild (string s) path = resolve_string-Mild path s
    apply_to_value-Mild (array xs) path = apply_to_items-Mild xs 0 path
    apply_to_value-Mild (object m) path = apply_to_fields-Mild m path
    apply_to_value-Mild null path = refl
    apply_to_value-Mild (bool b) path = refl
    apply_to_value-Mild (number n) path = refl

    apply_to_items-Mild :
        (xs : Items) (i : ℕ) (path : String) → has_errors (apply_to_items subs xs i path).1 ≡ false
    apply_to_items-Mild nil i path = refl
    apply_to_items-Mild (cons v vs) i path =
        rw (has_errors-append _ _, apply_to_value-Mild v _, apply_to_items-Mild vs (suc i) path)
          refl

    apply_to_fields-Mild :
        (m : Fields) (path : String) → has_errors (apply_to_fields subs m path).1 ≡ false
    apply_to_fields-Mild end path = refl
    apply_to_fields-Mild (field k v m) path =
        rw (has_errors-append _ _, apply_to_value-Mild v _, apply_to_fields-Mild m path) refl

  apply_to_platform-Mild :
      (p : Option String) (path : String) → has_errors (apply_to_platform subs p path).1 ≡ false
  unfolding apply_to_platform has_errors
  apply_to_platform-Mild none path = refl
  apply_to_platform-Mild (some p) path = resolve_string-Mild path p

  apply_to_components-Mild :
      (cs : List ComponentConfig) (i : ℕ) → has_errors (apply_to_components subs cs i).1 ≡ false
  unfolding apply_to_components has_errors
  apply_to_components-Mild [] i = refl
  apply_to_components-Mild (c ∷ cs) i =
      rw
        (
          has_errors-append _ _,
          has_errors-append _ _,
          apply_to_value-Mild c.config _,
          apply_to_platform-Mild c.platform _,
          apply_to_components-Mild cs (suc i),
        )
        refl

  apply_to_components_types :
      (cs : List ComponentConfig) (i : ℕ)
      → map (λ c. c.component_type) (apply_to_components subs cs i).0
        ≡ map (λ c. c.component_type) cs
  unfolding apply_to_components
  apply_to_components_types [] i = refl
  apply_to_components_types (c ∷ cs) i = cc (apply_to_components_types cs (suc i))

-- The substitutions never give a fatal diagnostic, and they keep the components with their types,
-- in their order.
pub stage_2_apply_substitutions_lem :
    (config : RawConfig)
    → (has_errors (stage_2_apply_substitutions config).1 ≡ false)
      × (map (λ c. c.component_type) (stage_2_apply_substitutions config).0.components
          ≡ map (λ c. c.component_type) config.components)
unfolding stage_2_apply_substitutions
stage_2_apply_substitutions_lem config = (
  apply_to_components-Mild config.substitutions config.components 0,
  apply_to_components_types config.substitutions config.components 0,
)
