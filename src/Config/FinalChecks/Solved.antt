-- ===== src/Config/FinalChecks/Solved.antt =====
-- crates/rshome-config/src/stages/s9_final_validation.rs: what it means that the rules of the
-- solution have no fatal diagnostic.
use zt_edge.Common.{
  ℕ, true, ◌≡◌, refl, subst, ◌↔◌, Option, none, some, String, List, [], ◌∷◌, ◌++◌, All, has,
  Option-cases, Bool-cases, inl, inr, arith,
}
use zt_edge.Config.Diagnostic.{
  has_errors, has_errors-append_iff, is_fatal, is_error, error, warning, with_suggestion,
}
use zt_edge.Config.FinalChecks.{
  require_bundle, warn_unknown, validate_solution, watchdog_of, validate_orchestration_budget,
  check_solution,
}
use zt_edge.Config.FinalChecks.Rules.{Clean, Budgeted, check_orchestration_budget-Budgeted}
use zt_edge.Schema.Solution.{SolutionRegistry, SolutionDefinition}
use zt_edge.Schema.Solution as Solution

require_bundle-Clean :
    (id : String) (types required : List String)
    → Clean (require_bundle id types required) ↔ All (λ t. has types t ≡ true) required
unfolding require_bundle has_errors is_fatal is_error error with_suggestion
require_bundle-Clean id types [] = (λ h. tt, λ h. refl)
require_bundle-Clean id types (t ∷ ts) =
    let rest = require_bundle-Clean id types ts in
    elim (Bool-cases (has types t)) [
      | inl e ↦ rw (e, require_bundle) (λ h. (refl, rest.0 h), λ h. rest.1 h.1)
      | inr e ↦ rw (e, require_bundle) (λ h. absurd (cc h), λ h. absurd (cc h.0))
    ]

warn_unknown-Clean : (id : String) (known types : List String) → Clean (warn_unknown id known types)
unfolding warn_unknown has_errors is_fatal is_error warning
warn_unknown-Clean id known [] = refl
warn_unknown-Clean id known (t ∷ ts) =
    let rest = warn_unknown-Clean id known ts in
    elim (Bool-cases (has known t)) [
      | inl e ↦ rw (e, warn_unknown) rest
      | inr e ↦ rw (e, warn_unknown) rest
    ]

-- A solution that is named is known, what it requires is there, and its retries fit its watchdog.
abbrev pub Solved : SolutionRegistry → List String → Option String → Type 0
Solved solutions types named =
    (id : String)
    → named ≡ some id
    → (sol : SolutionDefinition) × (Solution.get solutions id ≡ some sol)
      × All (λ t. has types t ≡ true) sol.component_bundle.required
      × ((w : ℕ) → watchdog_of sol ≡ some w → All (Budgeted w) sol.fixed_orchestration)

module _ (solutions : SolutionRegistry) (id : String) (types : List String) where
  validate_solution-unknown :
      Solution.get solutions id ≡ none → has_errors (validate_solution solutions id types) ≡ true
  unfolding validate_solution has_errors is_fatal is_error error
  validate_solution-unknown e = rw (e, validate_solution) refl

  validate_solution-known :
      (sol : SolutionDefinition)
      → Solution.get solutions id ≡ some sol
      → Clean (validate_solution solutions id types)
        ↔ All (λ t. has types t ≡ true) sol.component_bundle.required
  unfolding validate_solution
  validate_solution-known sol e =
      let known = sol.component_bundle.required ++ sol.component_bundle.optional in
      let whole =
        has_errors-append_iff (require_bundle id types sol.component_bundle.required)
          (warn_unknown id known types) _ (Clean (warn_unknown id known types))
          (require_bundle-Clean id types sol.component_bundle.required) (λ h. h, λ h. h) in
      rw (e, validate_solution)
        (λ h. (whole.0 h).0, λ h. whole.1 (h, warn_unknown-Clean id known types))

  validate_orchestration_budget-known :
      (sol : SolutionDefinition)
      → Solution.get solutions id ≡ some sol
      → Clean (validate_orchestration_budget solutions id)
        ↔ ((w : ℕ) → watchdog_of sol ≡ some w → All (Budgeted w) sol.fixed_orchestration)
  unfolding validate_orchestration_budget has_errors
  validate_orchestration_budget-known sol e = elim (Option-cases (watchdog_of sol)) [
    | inl g ↦ rw (e, g, validate_orchestration_budget) (λ h w f. absurd (cc f), λ h. refl)
    | inr (watchdog_ms, g) ↦
        let whole = check_orchestration_budget-Budgeted id watchdog_ms sol.fixed_orchestration 0 in
        rw (e, g, validate_orchestration_budget)
          (
            λ h w f.
                let same : watchdog_ms ≡ w = ground arith in
                subst (λ x. All (Budgeted x) sol.fixed_orchestration) same (whole.0 h),
            λ h. whole.1 (h watchdog_ms refl),
          )
  ]

pub check_solution-Solved :
    (solutions : SolutionRegistry) (named : Option String) (types : List String)
    → Clean (check_solution solutions named types) ↔ Solved solutions types named
unfolding check_solution has_errors
check_solution-Solved solutions none types = (λ h id e. absurd (cc e), λ h. refl)
check_solution-Solved solutions (some id) types = elim (Option-cases (Solution.get solutions id)) [
  | inl e ↦ (
    λ h. absurd (
        let bad = validate_solution-unknown solutions id types e in
        let parts =
          (has_errors-append_iff (validate_solution solutions id types)
              (validate_orchestration_budget solutions id)
              (Clean (validate_solution solutions id types))
              (Clean (validate_orchestration_budget solutions id)) (λ k. k, λ k. k)
              (λ k. k, λ k. k)).0
            h in
        cc (bad, parts.0)),
    λ h. absurd (let (sol, f, r, b) = h id refl in cc (e, f)),
  )
  | inr (sol, e) ↦
      let whole =
        has_errors-append_iff (validate_solution solutions id types)
          (validate_orchestration_budget solutions id) _ _
          (validate_solution-known solutions id types sol e)
          (validate_orchestration_budget-known solutions id types sol e) in
      (
        λ h i f.
            let same : id ≡ i = ground arith in (sol, rw⁻¹ same e, (whole.0 h).0, (whole.0 h).1),
        λ h.
            let (other, f, r, b) = h id refl in
            let same : other ≡ sol = ground arith in
            whole.1 (
              subst (λ x. All (λ t. has types t ≡ true) x.component_bundle.required) same r,
              subst (λ x. (w : ℕ) → watchdog_of x ≡ some w → All (Budgeted w) x.fixed_orchestration)
                  same b,
            ),
      )
]
