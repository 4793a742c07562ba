-- ===== src/Config/SecretFields.antt =====
-- crates/rshome-config/src/stages/s13_secret_fields.rs: no secret stands as plain text.
use text.Mathlib.Text.{starts_with}
use zt_edge.Common.{
  ◌<>◌, Bool, true, ◌≡◌, refl, subst, ◌↔◌, inl, inr, Option, none, some, String, List, [], ◌∷◌,
  ◌++◌, text_discrete, Option-cases, Bool-cases, All, append-eq-nil, ite, arith, if◌then◌else◌,
}
use zt_edge.Config.Diagnostic.{ValidationStage, ValidationError, error}
use zt_edge.Config.Value.{Value, get, as_str}
use zt_edge.Config.Raw.{RawConfig, ComponentConfig, effective_id}
use zt_edge.Schema.Registry.{ComponentRegistry, ComponentDefinition}
use zt_edge.Schema.Registry as Registry

abbrev pub text_of : Option Value → Option String
text_of none = none
text_of (some v) = as_str v

-- Empty, or a reference to a secret.
unfoldable pub is_reference : String → Bool
is_reference value = ite (text_discrete value "") true (starts_with value "!secret ")

-- The loop over the secret fields of a component's definition.
unfoldable pub check_fields : List String → ComponentConfig → String → List ValidationError
check_fields [] comp component_id = []
check_fields (field_name ∷ rest) comp component_id =
    let later = check_fields rest comp component_id in
    elim (text_of (get field_name comp.config)) [
      | none ↦ later
      | some value ↦
          if is_reference value
          then later
          else error ValidationStage.secret_fields (component_id <> "." <> field_name) (
              "secret field '" <> field_name <> "' for component '" <> component_id
              <> "' must not contain a plaintext value; provision via NVS")
            ∷ later
    ]

unfoldable pub check_components : List ComponentConfig → ComponentRegistry → List ValidationError
check_components [] registry = []
check_components (comp ∷ rest) registry = elim (Registry.get registry (effective_id comp)) [
  | none ↦ check_components rest registry
  | some def ↦
      check_fields def.secret_fields comp (effective_id comp) ++ check_components rest registry
]

unfoldable pub stage_13_check_secret_fields : RawConfig → ComponentRegistry → List ValidationError
stage_13_check_secret_fields config registry = check_components config.components registry

-- The field holds no text, or a text that is empty or refers to a secret.
abbrev pub IsHidden : ComponentConfig → String → Type 0
IsHidden c f = (text : String) → text_of (get f c.config) ≡ some text → is_reference text ≡ true

check_fields-eq-nil :
    (fs : List String) (c : ComponentConfig) (id : String)
    → (check_fields fs c id ≡ []) ↔ All (IsHidden c) fs
unfolding check_fields
check_fields-eq-nil [] c id = (λ e. tt, λ h. refl)
check_fields-eq-nil (f ∷ fs) c id =
    let rest = check_fields-eq-nil fs c id in
    elim (Option-cases (text_of (get f c.config))) [
      | inl e ↦ rw (e, check_fields) (λ h. (λ text g. absurd (cc g), rest.0 h), λ h. rest.1 h.1)
      | inr (value, e) ↦ elim (Bool-cases (is_reference value)) [
        | inl good ↦
            rw (e, good, check_fields)
              (
                λ h. (
                  λ text g.
                      let same : value ≡ text = ground arith in
                      subst (λ t. is_reference t ≡ true) same good,
                  rest.0 h,
                ),
                λ h. rest.1 h.1,
              )
        | inr bad ↦
            rw (e, bad, check_fields) (λ h. absurd (cc h), λ h. absurd (cc (h.0 value refl, bad)))
      ]
    ]

-- A known component holds no secret of its definition as plain text.
abbrev pub IsSafe : ComponentRegistry → ComponentConfig → Type 0
IsSafe registry c =
    (def : ComponentDefinition)
    → Registry.get registry (effective_id c) ≡ some def
    → All (IsHidden c) def.secret_fields

check_components-eq-nil :
    (cs : List ComponentConfig) (registry : ComponentRegistry)
    → (check_components cs registry ≡ []) ↔ All (IsSafe registry) cs
unfolding check_components
check_components-eq-nil [] registry = (λ e. tt, λ h. refl)
check_components-eq-nil (c ∷ cs) registry =
    let rest = check_components-eq-nil cs registry in
    elim (Option-cases (Registry.get registry (effective_id c))) [
      | inl e ↦ rw (e, check_components) (λ h. (λ def g. absurd (cc g), rest.0 h), λ h. rest.1 h.1)
      | inr (def, e) ↦
          let own = check_fields-eq-nil def.secret_fields c (effective_id c) in
          rw (e, check_components)
            (
              λ h.
                  let (first, second) =
                    append-eq-nil (check_fields def.secret_fields c (effective_id c))
                      (check_components cs registry) h in
                  (
                    λ d g.
                        let same : def ≡ d = ground arith in
                        subst (λ x. All (IsHidden c) x.secret_fields) same (own.0 first),
                    rest.0 second,
                  ),
              λ h. rw (own.1 (h.0 def refl)) (rest.1 h.1),
            )
    ]

-- The stage has no diagnostic exactly when no component that the registry knows has a text in a
-- secret field of its definition, unless the text is empty or refers to a secret.
pub stage_13_check_secret_fields-eq-nil :
    (config : RawConfig) (registry : ComponentRegistry)
    → (stage_13_check_secret_fields config registry ≡ []) ↔ All (IsSafe registry) config.components
unfolding stage_13_check_secret_fields
stage_13_check_secret_fields-eq-nil config registry =
    check_components-eq-nil config.components registry
