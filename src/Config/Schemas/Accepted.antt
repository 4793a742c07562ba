-- ===== src/Config/Schemas/Accepted.antt =====
-- crates/rshome-config/src/stages/s7_schema_validation.rs: which components pass the stage.
use zt_edge.Common.{
  ◌<>◌, ℕ, true, false, ◌≡◌, refl, sym, subst, ◌∙◌, ◌↔◌, none, some, String, List, [], ◌∷◌, Dict,
  All, Option-cases, Bool-cases, inl, inr, arith,
}
use zt_edge.Config.Diagnostic.{has_errors, has_errors-append}
use zt_edge.Config.Value.{Value, null, bool, number, string, array, object, Fields, find}
use zt_edge.Config.Raw.{RawConfig, ComponentConfig, effective_id}
use zt_edge.Config.PinConflicts.{count_up, index_of}
use zt_edge.Common.Decimal.{decimal}
use zt_edge.Config.Loading.Known.{or_false, clean-append}
use zt_edge.Config.Schemas.{
  Floats, check_field, check_fields, validate_fields, validate_component, validate_components,
  stage_7_validate_schemas,
}
use zt_edge.Config.Schemas.Fields.{FieldDef, entity_common, fields_for}
use zt_edge.Config.Schemas.Conforms.{Meets, MeetsAll, check_field-Meets}

module _ (floats : Floats) where
  check_fields-Meets :
      (m : Fields) (fields : List FieldDef) (path : String)
      → (has_errors (check_fields floats m fields path) ≡ false) ↔ All (Meets floats m) fields
  unfolding check_fields has_errors
  check_fields-Meets m [] path = (λ h. tt, λ h. refl)
  check_fields-Meets m (field ∷ fields) path =
      let own = check_field-Meets floats field m (path <> "." <> field.name) in
      let rest = check_fields-Meets m fields path in
      (
        λ h.
            let (a, b) = or_false _ _ (
              sym (
                has_errors-append
                  (check_field floats field (find field.name m) (path <> "." <> field.name))
                  (check_fields floats m fields path))
              ∙ h) in
            (own.0 a, rest.0 b),
        λ h. clean-append _ _ (own.1 h.0) (rest.1 h.1),
      )

  validate_fields-Meets :
      (v : Value) (fields : List FieldDef) (path : String)
      → (has_errors (validate_fields floats v fields path) ≡ false) ↔ MeetsAll floats fields v
  unfolding validate_fields has_errors
  validate_fields-Meets (object m) fields path =
      let whole = check_fields-Meets m fields path in
      (
        λ h k e.
            let same : m ≡ k = ground arith in
            subst (λ n. All (Meets floats n) fields) same (whole.0 h),
        λ h. whole.1 (h m refl),
      )
  validate_fields-Meets null fields path = (λ h m e. absurd (cc e), λ h. refl)
  validate_fields-Meets (bool b) fields path = (λ h m e. absurd (cc e), λ h. refl)
  validate_fields-Meets (number n) fields path = (λ h m e. absurd (cc e), λ h. refl)
  validate_fields-Meets (string s) fields path = (λ h m e. absurd (cc e), λ h. refl)
  validate_fields-Meets (array xs) fields path = (λ h m e. absurd (cc e), λ h. refl)

  -- A component that has a schema meets its fields, and those of an entity where it is one.
  pub data Conforms (c : ComponentConfig) : Type 0 where
    free : fields_for (effective_id c) ≡ none → Conforms c
    bare :
        (fields : List FieldDef)
        → fields_for (effective_id c) ≡ some (fields, false)
        → MeetsAll floats fields c.config
        → Conforms c
    entity :
        (fields : List FieldDef)
        → fields_for (effective_id c) ≡ some (fields, true)
        → MeetsAll floats entity_common c.config
        → MeetsAll floats fields c.config
        → Conforms c

  validate_component-Conforms :
      (c : ComponentConfig) (path : String)
      → (has_errors (validate_component floats (effective_id c) c path) ≡ false) ↔ Conforms c
  unfolding validate_component has_errors
  validate_component-Conforms c path = elim (Option-cases (fields_for (effective_id c))) [
    | inl e ↦ rw (e, validate_component) (λ h. free e, λ h. refl)
    | inr ((fields, common), e) ↦
        let own = validate_fields-Meets c.config fields path in
        elim (Bool-cases common) [
          | inl k ↦
              let known : fields_for (effective_id c) ≡ some (fields, true) = rw⁻¹ k e in
              let shared = validate_fields-Meets c.config entity_common path in
              rw (known, validate_component)
                (
                  λ h.
                      let (a, b) = or_false _ _ (
                        sym (
                          has_errors-append (validate_fields floats c.config entity_common path)
                            (validate_fields floats c.config fields path))
                        ∙ h) in
                      entity fields known (shared.0 a) (own.0 b),
                  λ h. elim h [
                    | free f ↦ absurd (cc (f, known))
                    | bare fs f a ↦ absurd (cc (f, known))
                    | entity fs f a b ↦
                        let same : fs ≡ fields = ground arith in
                        clean-append _ _ (shared.1 a)
                          (own.1 (subst (λ x. MeetsAll floats x c.config) same b))
                  ],
                )
          | inr k ↦
              let known : fields_for (effective_id c) ≡ some (fields, false) = rw⁻¹ k e in
              rw (known, validate_component)
                (
                  λ h. bare fields known (own.0 h),
                  λ h. elim h [
                    | free f ↦ absurd (cc (f, known))
                    | entity fs f a b ↦ absurd (cc (f, known))
                    | bare fs f a ↦
                        let same : fs ≡ fields = ground arith in
                        own.1 (subst (λ x. MeetsAll floats x c.config) same a)
                  ],
                )
        ]
  ]

  validate_components-Conforms :
      (cs : List ComponentConfig) (counters : Dict String ℕ)
      → (has_errors (validate_components floats cs counters) ≡ false) ↔ All Conforms cs
  unfolding validate_components has_errors
  validate_components-Conforms [] counters = (λ h. tt, λ h. refl)
  validate_components-Conforms (c ∷ cs) counters =
      let path = c.component_type <> "[" <> decimal (index_of c.component_type counters) <> "]" in
      let own = validate_component-Conforms c path in
      let rest = validate_components-Conforms cs (count_up c counters) in
      (
        λ h.
            let (a, b) = or_false _ _ (
              sym (
                has_errors-append (validate_component floats (effective_id c) c path)
                  (validate_components floats cs (count_up c counters)))
              ∙ h) in
            (own.0 a, rest.0 b),
        λ h. clean-append _ _ (own.1 h.0) (rest.1 h.1),
      )

-- The stage has no fatal diagnostic exactly when each component whose id has a schema and whose
-- document is a map meets the fields of the schema, those of an entity included where the id is
-- one: what is required is there, and what is there has the type, a text of the list and a
-- number within the bounds.
pub stage_7_validate_schemas-Conforms :
    (floats : Floats) (config : RawConfig)
    → (has_errors (stage_7_validate_schemas floats config) ≡ false)
      ↔ All (Conforms floats) config.components
unfolding stage_7_validate_schemas
stage_7_validate_schemas-Conforms floats config =
    validate_components-Conforms floats config.components []
