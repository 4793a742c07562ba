-- ===== src/Schema/Orchestration.antt =====
-- crates/rshome-schema/src/orchestration.rs: retry policies and the trace of one init run.
-- The numbers are a `u8` for attempts and `u32`s for milliseconds; none of the operations wraps.
use native.Mathlib.Nat.{le-div_iff_mul-le}
use zt_edge.Common.{
  ℕ, ◌*◌, ◌/◌, ◌≤◌, ◌<◌, ◌≡◌, Bool, true, false, ◌||◌, ◌↔◌, String, List, [], ◌∷◌, ltb, ◌==◌,
  if◌then◌else◌, Result, ok, err, arith,
}

pub record RetryPolicy : Type 0 where
  pub max_attempts : ℕ
  pub backoff_ms_initial : ℕ
  pub backoff_ms_max : ℕ
  pub total_budget_ms : ℕ

pub data RetryPolicyError : Type 0 where
  zero_max_attempts : RetryPolicyError
  initial_exceeds_max : ℕ → ℕ → RetryPolicyError
  max_backoff_exceeds_per_attempt_budget : ℕ → ℕ → ℕ → ℕ → RetryPolicyError

unfoldable pub new : ℕ → ℕ → ℕ → ℕ → Result RetryPolicyError RetryPolicy
new max_attempts backoff_ms_initial backoff_ms_max total_budget_ms =
    if max_attempts == 0
    then err zero_max_attempts
    else if ltb backoff_ms_max backoff_ms_initial
    then err (initial_exceeds_max backoff_ms_initial backoff_ms_max)
    else let per_attempt_budget = total_budget_ms / max_attempts in
      if ltb per_attempt_budget backoff_ms_max
      then err (
          max_backoff_exceeds_per_attempt_budget backoff_ms_max total_budget_ms max_attempts
            per_attempt_budget)
      else ok (record {
        max_attempts = max_attempts;
        backoff_ms_initial = backoff_ms_initial;
        backoff_ms_max = backoff_ms_max;
        total_budget_ms = total_budget_ms;
      })

abbrev is_ok : Result RetryPolicyError RetryPolicy → Bool
is_ok (ok _) = true
is_ok (err _) = false

unfoldable pub is_valid : RetryPolicy → Bool
unfolding new
is_valid p = is_ok (new p.max_attempts p.backoff_ms_initial p.backoff_ms_max p.total_budget_ms)

pub data StepOutcome : Type 0 where
  succeeded retry_succeeded failsafe_budget failsafe_attempts : StepOutcome

unfoldable pub is_failsafe : StepOutcome → Bool
is_failsafe failsafe_budget = true
is_failsafe failsafe_attempts = true
is_failsafe _ = false

pub record StepTrace : Type 0 where
  pub step_id : String
  pub outcome : StepOutcome
  pub attempts : ℕ
  pub total_ms : ℕ

pub record Trace : Type 0 where
  pub solution_id : String
  pub events : List StepTrace

any_failsafe : List StepTrace → Bool
any_failsafe [] = false
any_failsafe (e ∷ es) = is_failsafe e.outcome || any_failsafe es

unfoldable pub entered_failsafe : Trace → Bool
unfolding any_failsafe is_failsafe
entered_failsafe t = any_failsafe t.events

without_attempts : List StepTrace → List String
without_attempts [] = []
without_attempts (e ∷ es) =
    let rest = without_attempts es in if e.attempts == 0 then e.step_id ∷ rest else rest

unfoldable pub invalid_events : Trace → List String
unfolding without_attempts
invalid_events t = without_attempts t.events

-- The schema-level invariants of a policy.
pub record IsSound (attempts initial max budget : ℕ) : Type 0 where
  pub tried : 1 ≤ attempts
  pub ordered : initial ≤ max
  pub affordable : attempts * max ≤ budget

fits_iff : (a m b : ℕ) → 0 < a → (m ≤ b / a) ↔ (a * m ≤ b)
fits_iff a m b pos =
    let (to, from) = le-div_iff_mul-le {k = a} {x = m} {y = b} pos in
    (λ h. omega (arith, to h), λ h. from (omega arith))

-- A policy is built exactly when it allows an attempt, its first backoff is within its cap, and
-- waiting for the cap on every attempt stays within the total budget; the policy that is built
-- holds the four values.
pub new-eq-ok :
    (attempts initial max budget : ℕ) (p : RetryPolicy)
    → (new attempts initial max budget ≡ ok p) ↔ (
        IsSound attempts initial max budget
        × (p ≡ record {
          max_attempts = attempts;
          backoff_ms_initial = initial;
          backoff_ms_max = max;
          total_budget_ms = budget;
        }))
unfolding new
new-eq-ok attempts initial max budget p = (
  λ h. ground (arith, fits_iff attempts max budget),
  λ h. ground (arith, fits_iff attempts max budget),
)

-- The guard for a deserialized policy tests the same invariants.
pub is_valid-IsSound :
    (p : RetryPolicy)
    → (is_valid p ≡ true)
      ↔ IsSound p.max_attempts p.backoff_ms_initial p.backoff_ms_max p.total_budget_ms
unfolding is_valid
is_valid-IsSound p = (
  λ h. ground (arith, fits_iff p.max_attempts p.backoff_ms_max p.total_budget_ms),
  λ h. ground (arith, fits_iff p.max_attempts p.backoff_ms_max p.total_budget_ms),
)
