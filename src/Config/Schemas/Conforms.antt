-- ===== src/Config/Schemas/Conforms.antt =====
-- crates/rshome-config/src/stages/s7_schema_validation.rs: when a document meets a field.
use zt_edge.Common.{
  ℕ, true, false, ◌&&◌, ◌||◌, ◌≡◌, refl, sym, subst, ◌∙◌, ◌↔◌, none, some, String, List, All,
  Option-cases, Bool-cases, inl, inr, arith,
}
use zt_edge.Config.Diagnostic.{
  has_errors, has_errors-append, is_fatal, is_error, error, with_suggestion,
}
use zt_edge.Config.Value.{Value, object, Fields, find, is_null, as_str}
use zt_edge.Config.Loading.Known.{or_false, clean-append}
use zt_edge.Config.Schemas.{
  Floats, any_equal, check_field_type, check_enum, as_f64, bound, check_range, check_present,
  check_field,
}
use zt_edge.Config.Schemas.Fields.{FieldDef}

module _ (floats : Floats) where
  -- A value has the type of the field, one of its texts if it is a text, and lies within its
  -- bounds if it is a number.
  pub record Accepts (field : FieldDef) (v : Value) : Type 0 where
    pub typed : check_field_type v field.field_type ≡ true
    pub listed :
        (vs : List String) (s : String)
        → field.enum_values ≡ some vs
        → as_str v ≡ some s
        → any_equal vs s ≡ true
    pub within :
        (lo hi x : ℕ)
        → field.min ≡ some lo
        → field.max ≡ some hi
        → as_f64 floats v ≡ some x
        → (floats.lt x (bound floats lo) || floats.lt (bound floats hi) x) ≡ false

  -- The document lacks the field, which is optional, or has an accepted value there.
  pub data Meets (m : Fields) (field : FieldDef) : Type 0 where
    absent : find field.name m ≡ none → field.required ≡ false → Meets m field
    present :
        (v : Value)
        → find field.name m ≡ some v
        → (is_null v && field.required) ≡ false
        → Accepts field v
        → Meets m field

  -- Of a document that is no map nothing is asked.
  abbrev pub MeetsAll : List FieldDef → Value → Type 0
  MeetsAll fields v = (m : Fields) → v ≡ object m → All (Meets m) fields

  abbrev Listed : FieldDef → Value → Type 0
  Listed field v =
      (vs : List String) (s : String)
      → field.enum_values ≡ some vs
      → as_str v ≡ some s
      → any_equal vs s ≡ true

  check_enum-Listed :
      (field : FieldDef) (v : Value) (path : String)
      → (has_errors (check_enum field v path) ≡ false) ↔ Listed field v
  unfolding check_enum has_errors is_fatal is_error error with_suggestion
  check_enum-Listed field v path = elim (Option-cases field.enum_values) [
    | inl e ↦ rw (e, check_enum) (λ h vs s f g. absurd (cc f), λ h. refl)
    | inr (vs, e) ↦ elim (Option-cases (as_str v)) [
      | inl g ↦ rw (e, g, check_enum) (λ h ws s f k. absurd (cc k), λ h. refl)
      | inr (s, g) ↦ elim (Bool-cases (any_equal vs s)) [
        | inl k ↦ rw (e, g, k, check_enum) (λ h ws t f j. ground arith, λ h. refl)
        | inr k ↦
            rw (e, g, k, check_enum) (λ h. absurd (cc h), λ h. absurd (cc (h vs s refl refl, k)))
      ]
    ]
  ]

  abbrev Within : FieldDef → Value → Type 0
  Within field v =
      (lo hi x : ℕ)
      → field.min ≡ some lo
      → field.max ≡ some hi
      → as_f64 floats v ≡ some x
      → (floats.lt x (bound floats lo) || floats.lt (bound floats hi) x) ≡ false

  check_range-Within :
      (field : FieldDef) (v : Value) (path : String)
      → (has_errors (check_range floats field v path) ≡ false) ↔ Within field v
  unfolding check_range has_errors is_fatal is_error error
  check_range-Within field v path = elim (Option-cases field.min) [
    | inl e ↦ rw (e, check_range) (λ h lo hi x f. absurd (cc f), λ h. refl)
    | inr (lo, e) ↦ elim (Option-cases field.max) [
      | inl g ↦ rw (e, g, check_range) (λ h ws hi x f k. absurd (cc k), λ h. refl)
      | inr (hi, g) ↦ elim (Option-cases (as_f64 floats v)) [
        | inl j ↦ rw (e, g, j, check_range) (λ h ws hs x f k l. absurd (cc l), λ h. refl)
        | inr (x, j) ↦
            elim (Bool-cases (floats.lt x (bound floats lo) || floats.lt (bound floats hi) x)) [
              | inl k ↦
                  rw (e, g, j, k, check_range)
                    (λ h. absurd (cc h), λ h. absurd (cc (h lo hi x refl refl refl, k)))
              | inr k ↦ rw (e, g, j, k, check_range) (λ h ls hs y f l n. ground arith, λ h. refl)
            ]
      ]
    ]
  ]

  check_present-Accepts :
      (field : FieldDef) (v : Value) (path : String)
      → (has_errors (check_present floats field v path) ≡ false) ↔ Accepts field v
  unfolding check_present has_errors is_fatal is_error error
  check_present-Accepts field v path =
      let listed = check_enum-Listed field v path in
      let within = check_range-Within field v path in
      elim (Bool-cases (check_field_type v field.field_type)) [
        | inl k ↦
            rw (k, check_present)
              (
                λ h.
                    let (a, b) = or_false _ _ (
                      sym (
                        has_errors-append (check_enum field v path)
                          (check_range floats field v path))
                      ∙ h) in
                    record { typed = k; listed = listed.0 a; within = within.0 b },
                λ h.
                    clean-append (check_enum field v path) (check_range floats field v path)
                      (listed.1 h.listed) (within.1 h.within),
              )
        | inr k ↦ rw (k, check_present) (λ h. absurd (cc h), λ h. absurd (cc (h.typed, k)))
      ]

  pub check_field-Meets :
      (field : FieldDef) (m : Fields) (path : String)
      → (has_errors (check_field floats field (find field.name m) path) ≡ false) ↔ Meets m field
  unfolding check_field has_errors is_fatal is_error error
  check_field-Meets field m path = elim (Option-cases (find field.name m)) [
    | inl e ↦ elim (Bool-cases field.required) [
      | inl k ↦
          let bad : has_errors (check_field floats field none path) ≡ true =
            simp (k, check_field, has_errors) in
          rw (e, bad)
            (
              λ h. absurd (cc h),
              λ h. elim h [
                | absent f g ↦ absurd (cc (g, k))
                | present v f g a ↦ absurd (cc (f, e))
              ],
            )
      | inr k ↦
          let good : has_errors (check_field floats field none path) ≡ false =
            simp (k, check_field, has_errors) in
          rw (e, good) (λ h. absent e k, λ h. refl)
    ]
    | inr (v, e) ↦ elim (Bool-cases (is_null v && field.required)) [
      | inl k ↦
          rw (e, k, check_field)
            (
              λ h. absurd (cc h),
              λ h. elim h [
                | absent f g ↦ absurd (cc (f, e))
                | present w f g a ↦ let same : v ≡ w = ground arith in absurd (cc (g, k, same))
              ],
            )
      | inr k ↦
          let whole = check_present-Accepts field v path in
          rw (e, k, check_field)
            (
              λ h. present v e k (whole.0 h),
              λ h. elim h [
                | absent f g ↦ absurd (cc (f, e))
                | present w f g a ↦
                    let same : w ≡ v = ground arith in whole.1 (subst (Accepts field) same a)
              ],
            )
    ]
  ]
