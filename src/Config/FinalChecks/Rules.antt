-- ===== src/Config/FinalChecks/Rules.antt =====
-- crates/rshome-config/src/stages/s9_final_validation.rs: what it means that a rule has no
-- fatal diagnostic.
use zt_edge.Common.{
  ◌<>◌, ℕ, suc, ◌*◌, ◌/◌, ◌≤◌, true, false, ◌&&◌, ◌≡◌, refl, subst, ◌↔◌, Option, none, some, String,
  List, [], ◌∷◌, ◌++◌, All, has, text_discrete, ltb, Option-cases, Bool-cases, inl, inr, arith,
}
use zt_edge.Config.Diagnostic.{
  ValidationError, has_errors, has_errors-append_iff, is_fatal, is_error, error, warning,
  information, with_suggestion,
}
use zt_edge.Config.Value.{Value, Fields, null, bool, number, string, array, object, get}
use zt_edge.Config.Raw.{ComponentConfig}
use zt_edge.Config.Schemas.{Floats}
use zt_edge.Common.Decimal.{decimal}
use zt_edge.Config.FinalChecks.{
  is_connected, require_network, warn_both, note_loggers, note_baud, baud_of, float_of,
  check_bounds, check_step, check_visual, validate_climate_visuals, check_orchestration_budget,
}
use zt_edge.Schema.Solution.{OrchestrationStep}
use zt_edge.Schema.Orchestration.{RetryPolicy}

abbrev pub Clean : List ValidationError → Type 0
Clean es = has_errors es ≡ false

-- What has this type needs a network, which is there.
abbrev pub Linked : List String → String → Type 0
Linked types name = has types name ≡ true → is_connected types ≡ true

pub require_network-Linked :
    (types : List String) (name hint : String)
    → Clean (require_network types name hint) ↔ Linked types name
unfolding require_network has_errors is_fatal is_error error with_suggestion
require_network-Linked types name hint = elim (Bool-cases (has types name)) [
  | inl e ↦ elim (Bool-cases (is_connected types)) [
    | inl g ↦ rw (e, g, require_network) (λ h k. refl, λ h. refl)
    | inr g ↦ rw (e, g, require_network) (λ h. absurd (cc h), λ h. absurd (cc (h refl)))
  ]
  | inr e ↦ rw (e, require_network) (λ h k. absurd (cc k), λ h. refl)
]

pub warn_both-Clean :
    (types : List String) (first second message : String)
    → Clean (warn_both types first second message)
unfolding warn_both has_errors is_fatal is_error warning
warn_both-Clean types first second message =
    elim (Bool-cases (has types first && has types second)) [
      | inl e ↦ rw (e, warn_both) refl
      | inr e ↦ rw (e, warn_both) refl
    ]

note_baud-Clean : (o : Option ℕ) → Clean (note_baud o)
unfolding has_errors is_fatal is_error information
note_baud-Clean none = refl
note_baud-Clean (some b) = elim (Bool-cases (ltb 0 b)) [ inl e ↦ rw e refl | inr e ↦ rw e refl ]

pub note_loggers-Clean : (cs : List ComponentConfig) → Clean (note_loggers cs)
unfolding note_loggers has_errors
note_loggers-Clean [] = refl
note_loggers-Clean (c ∷ cs) =
    let rest = note_loggers-Clean cs in
    elim (text_discrete c.component_type "logger")
      as (λ d. Clean (elim d [
        | no other ↦ note_loggers cs
        | yes same ↦ note_baud (baud_of (get "baud_rate" c.config)) ++ note_loggers cs
      ])) [
        | no other ↦ rest
        | yes same ↦
            (has_errors-append_iff (note_baud (baud_of (get "baud_rate" c.config)))
                (note_loggers cs) (Clean (note_baud (baud_of (get "baud_rate" c.config))))
                (Clean (note_loggers cs)) (λ h. h, λ h. h) (λ h. h, λ h. h)).1
              (note_baud-Clean (baud_of (get "baud_rate" c.config)), rest)
      ]

-- The budget of a step fits twice into the time of the watchdog.
abbrev pub Budgeted : ℕ → OrchestrationStep → Type 0
Budgeted watchdog_ms step =
    (policy : RetryPolicy)
    → step.retry_policy ≡ some policy
    → 2 * policy.total_budget_ms ≤ watchdog_ms

pub check_orchestration_budget-Budgeted :
    (id : String) (w : ℕ) (steps : List OrchestrationStep) (i : ℕ)
    → Clean (check_orchestration_budget id w steps i) ↔ All (Budgeted w) steps
unfolding check_orchestration_budget has_errors is_fatal is_error error with_suggestion
check_orchestration_budget-Budgeted id w [] i = (λ h. tt, λ h. refl)
check_orchestration_budget-Budgeted id w (step ∷ steps) i =
    let rest = check_orchestration_budget-Budgeted id w steps (suc i) in
    elim (Option-cases step.retry_policy) [
      | inl e ↦
          let out : check_orchestration_budget id w (step ∷ steps) i
              ≡ check_orchestration_budget id w steps (suc i) =
            simp (e, check_orchestration_budget) in
          rw out (λ h. (λ p f. absurd (cc (f, e)), rest.0 h), λ h. rest.1 h.1)
      | inr (p, e) ↦ elim (Bool-cases (ltb (w / 2) p.total_budget_ms)) [
        | inl g ↦
            let out : has_errors (check_orchestration_budget id w (step ∷ steps) i) ≡ true =
              simp (e, g, check_orchestration_budget, has_errors) in
            rw out (λ h. absurd (cc h), λ h. absurd (let fits = h.0 p e in ground arith))
        | inr g ↦
            let out : check_orchestration_budget id w (step ∷ steps) i
                ≡ check_orchestration_budget id w steps (suc i) =
              simp (e, g, check_orchestration_budget) in
            let fits : 2 * p.total_budget_ms ≤ w = ground arith in
            rw out (
              λ h. (
                λ q f.
                    let same : p ≡ q = ground arith in
                    subst (λ x. 2 * x.total_budget_ms ≤ w) same fits,
                rest.0 h,
              ),
              λ h. rest.1 h.1,
            )
      ]
    ]

module _ (floats : Floats) where
  -- The lowest temperature is below the highest, and the step is positive, where they are numbers.
  abbrev pub Ordered : Value → Type 0
  Ordered visual =
      ((lo hi : ℕ)
        → float_of floats "min_temperature" visual ≡ some lo
        → float_of floats "max_temperature" visual ≡ some hi
        → floats.le hi lo ≡ false)
      × ((s : ℕ)
          → float_of floats "temperature_step" visual ≡ some s
          → floats.le s (floats.from_u64 0) ≡ false)

  check_bounds-Clean :
      (a b : Option ℕ) (path : String)
      → Clean (check_bounds floats a b path)
        ↔ ((lo hi : ℕ) → a ≡ some lo → b ≡ some hi → floats.le hi lo ≡ false)
  unfolding check_bounds has_errors is_fatal is_error error
  check_bounds-Clean none b path = (λ h lo hi f. absurd (cc f), λ h. refl)
  check_bounds-Clean (some lo) none path = (λ h l hi f g. absurd (cc g), λ h. refl)
  check_bounds-Clean (some lo) (some hi) path = elim (Bool-cases (floats.le hi lo)) [
    | inl e ↦ rw (e) (λ h. absurd (cc h), λ h. absurd (cc (h lo hi refl refl, e)))
    | inr e ↦ rw (e) (λ h l m f g. ground arith, λ h. refl)
  ]

  check_step-Clean :
      (a : Option ℕ) (path : String)
      → Clean (check_step floats a path)
        ↔ ((s : ℕ) → a ≡ some s → floats.le s (floats.from_u64 0) ≡ false)
  unfolding check_step has_errors is_fatal is_error error
  check_step-Clean none path = (λ h s f. absurd (cc f), λ h. refl)
  check_step-Clean (some s) path = elim (Bool-cases (floats.le s (floats.from_u64 0))) [
    | inl e ↦ rw (e) (λ h. absurd (cc h), λ h. absurd (cc (h s refl, e)))
    | inr e ↦ rw (e) (λ h t f. ground arith, λ h. refl)
  ]

  check_visual-Ordered :
      (o : Option Value) (path : String)
      → Clean (check_visual floats o path)
        ↔ ((m : Fields) → o ≡ some (object m) → Ordered (object m))
  unfolding check_visual has_errors
  check_visual-Ordered none path = (λ h m e. absurd (cc e), λ h. refl)
  check_visual-Ordered (some null) path = (λ h m e. absurd (cc e), λ h. refl)
  check_visual-Ordered (some (bool b)) path = (λ h m e. absurd (cc e), λ h. refl)
  check_visual-Ordered (some (number n)) path = (λ h m e. absurd (cc e), λ h. refl)
  check_visual-Ordered (some (string s)) path = (λ h m e. absurd (cc e), λ h. refl)
  check_visual-Ordered (some (array xs)) path = (λ h m e. absurd (cc e), λ h. refl)
  check_visual-Ordered (some (object k)) path =
      let whole =
        has_errors-append_iff
          (check_bounds floats (float_of floats "min_temperature" (object k))
            (float_of floats "max_temperature" (object k)) path)
          (check_step floats (float_of floats "temperature_step" (object k)) path) _ _
          (check_bounds-Clean _ _ path) (check_step-Clean _ path) in
      (
        λ h m e.
            let same : k ≡ m = ground arith in subst (λ x. Ordered (object x)) same (whole.0 h),
        λ h. whole.1 (h k refl),
      )

  abbrev pub Tempered : ComponentConfig → Type 0
  Tempered c =
      c.component_type ≡ "climate"
      → (m : Fields) → get "visual" c.config ≡ some (object m)
      → Ordered (object m)

  pub validate_climate_visuals-Tempered :
      (cs : List ComponentConfig) (i : ℕ)
      → Clean (validate_climate_visuals floats cs i) ↔ All Tempered cs
  unfolding validate_climate_visuals has_errors
  validate_climate_visuals-Tempered [] i = (λ h. tt, λ h. refl)
  validate_climate_visuals-Tempered (c ∷ cs) i =
      let rest = validate_climate_visuals-Tempered cs (suc i) in
      elim (text_discrete c.component_type "climate")
        as (λ d.
          Clean (elim d [
            | no other ↦ validate_climate_visuals floats cs (suc i)
            | yes same ↦
                check_visual floats (get "visual" c.config) ("climate[" <> decimal i <> "]")
                ++ validate_climate_visuals floats cs (suc i)
          ])
          ↔ All Tempered (c ∷ cs)) [
            | no other ↦ (λ h. (λ e. absurd (other e), rest.0 h), λ h. rest.1 h.1)
            | yes same ↦
                let whole =
                  has_errors-append_iff
                    (check_visual floats (get "visual" c.config) ("climate[" <> decimal i <> "]"))
                    (validate_climate_visuals floats cs (suc i)) _ _
                    (check_visual-Ordered (get "visual" c.config) _) rest in
                (λ h. let (a, b) = whole.0 h in (λ e. a, b), λ h. whole.1 (h.0 same, h.1))
          ]
