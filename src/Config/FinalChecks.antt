-- ===== src/Config/FinalChecks.antt =====
-- crates/rshome-config/src/stages/s9_final_validation.rs: the checks across components. A set of
-- types is a list, in whose order the source's iteration, which is open, is taken.
pub mod Sigrok
pub mod Rules
pub mod Analyser
pub mod Solved
pub mod Sound
use zt_edge.Common.{
  ◌<>◌, ℕ, suc, ◌/◌, Bool, true, false, not, ◌&&◌, ◌||◌, Option, none, some, String, List, [], ◌∷◌,
  ◌++◌, map, has, text_discrete, ltb, if◌then◌else◌, Result,
}
use zt_edge.Common.Decimal.{decimal}
use zt_edge.Config.Diagnostic.{
  ValidationStage, ValidationError, error, warning, information, with_suggestion,
}
use zt_edge.Config.Value.{Value, object, get, as_u64}
use zt_edge.Config.Raw.{RawConfig, ComponentConfig}
use zt_edge.Config.Schemas.{Floats, as_f64}
use zt_edge.Config.FinalChecks.Sigrok.{SigrokConfig, validate_sigrok}
use zt_edge.Schema.Solution.{SolutionRegistry, SolutionDefinition, OrchestrationStep}
use zt_edge.Schema.Solution as Solution

abbrev final_error : String → String → ValidationError
final_error path message = error ValidationStage.final_validation path message

abbrev final_warning : String → String → ValidationError
final_warning path message = warning ValidationStage.final_validation path message

-- The types of the components as a set.
unfoldable pub types_of : List ComponentConfig → List String
types_of [] = []
types_of (c ∷ cs) =
    let rest = types_of cs in if has rest c.component_type then rest else c.component_type ∷ rest

unfoldable pub is_connected : List String → Bool
is_connected types = has types "wifi" || has types "ethernet"

-- Rules 1, 3 and 8: what needs a network has one.
unfoldable pub require_network : List String → String → String → List ValidationError
require_network types name hint =
    if has types name && not (is_connected types)
    then with_suggestion
        (final_error name
          ("the '" <> name <> ":' component requires 'wifi:' or 'ethernet:' to be configured"))
        hint
      ∷ []
    else []

-- Rules 2 and 4: two types that go badly together.
unfoldable pub warn_both : List String → String → String → String → List ValidationError
warn_both types first second message =
    if has types first && has types second then final_warning first message ∷ [] else []

abbrev baud_of : Option Value → Option ℕ
baud_of none = none
baud_of (some v) = as_u64 v

abbrev note_baud : Option ℕ → List ValidationError
note_baud none = []
note_baud (some baud) =
    if ltb 0 baud
    then information ValidationStage.final_validation "logger" (
        "logger is active during deep_sleep wakeup; "
        <> "consider setting baud_rate: 0 to disable serial logging")
      ∷ []
    else []

-- Rule 5, the loop over the loggers.
unfoldable pub note_loggers : List ComponentConfig → List ValidationError
note_loggers [] = []
note_loggers (comp ∷ rest) = elim (text_discrete comp.component_type "logger") [
  | no other ↦ note_loggers rest
  | yes same ↦ note_baud (baud_of (get "baud_rate" comp.config)) ++ note_loggers rest
]

module _ (floats : Floats) where
  unfoldable pub float_of : String → Value → Option ℕ
  float_of key visual = elim (get key visual) [ none ↦ none | some v ↦ as_f64 floats v ]

  unfoldable pub check_bounds : Option ℕ → Option ℕ → String → List ValidationError
  check_bounds (some min) (some max) path =
      if floats.le max min
      then final_error (path <> ".visual") (
          "climate visual: min_temperature ("
          <> floats.display min
          <> ") must be less than max_temperature ("
          <> floats.display max
          <> ")")
        ∷ []
      else []
  check_bounds _ _ path = []

  unfoldable pub check_step : Option ℕ → String → List ValidationError
  check_step none path = []
  check_step (some s) path =
      if floats.le s (floats.from_u64 0)
      then final_error (path <> ".visual.temperature_step")
          ("climate visual: temperature_step must be positive, got " <> floats.display s)
        ∷ []
      else []

  unfoldable pub check_visual : Option Value → String → List ValidationError
  check_visual (some (object visual)) path =
      check_bounds (float_of "min_temperature" (object visual))
        (float_of "max_temperature" (object visual)) path
      ++ check_step (float_of "temperature_step" (object visual)) path
  check_visual _ path = []

  -- Rule 6, the loop over the components, which counts all of them.
  unfoldable pub validate_climate_visuals : List ComponentConfig → ℕ → List ValidationError
  validate_climate_visuals [] i = []
  validate_climate_visuals (comp ∷ rest) i =
      let later = validate_climate_visuals rest (suc i) in
      elim (text_discrete comp.component_type "climate") [
        | no other ↦ later
        | yes same ↦
            check_visual (get "visual" comp.config) ("climate[" <> decimal i <> "]") ++ later
      ]

-- The loop over the components that the solution requires.
unfoldable pub require_bundle : String → List String → List String → List ValidationError
require_bundle solution_id types [] = []
require_bundle solution_id types (required ∷ rest) =
    let later = require_bundle solution_id types rest in
    if has types required
    then later
    else with_suggestion
        (final_error "esphome.solution" (
          "solution '" <> solution_id <> "' requires component '" <> required
          <> "' but it is not configured"))
        ("Add a '" <> required <> ":' block to your configuration")
      ∷ later

unfoldable pub warn_unknown : String → List String → List String → List ValidationError
warn_unknown solution_id all_known [] = []
warn_unknown solution_id all_known (comp_type ∷ rest) =
    let later = warn_unknown solution_id all_known rest in
    if has all_known comp_type
    then later
    else final_warning "esphome.solution" (
        "component '" <> comp_type <> "' is not part of solution '" <> solution_id
        <> "' bundle; it may not be compatible")
      ∷ later

unfoldable pub validate_solution : SolutionRegistry → String → List String → List ValidationError
validate_solution sol_reg solution_id types = elim (Solution.get sol_reg solution_id) [
  | none ↦
      final_error "esphome.solution"
        ("unknown solution '" <> solution_id <> "'; not found in solution registry")
      ∷ []
  | some sol ↦
      require_bundle solution_id types sol.component_bundle.required
      ++ warn_unknown solution_id (sol.component_bundle.required ++ sol.component_bundle.optional)
          types
]

abbrev budget_error : String → ℕ → ℕ → OrchestrationStep → ℕ → ValidationError
budget_error solution_id watchdog_ms i step total =
    with_suggestion
      (final_error
        ("esphome.solution.fixed_orchestration[" <> decimal i <> "].retry_policy.total_budget_ms")
        ("OrchestrationBudgetExceeded: solution '"
          <> solution_id
          <> "' step '"
          <> step.id
          <> "' total_budget_ms ("
          <> decimal total
          <> ") > watchdog_ms / 2 ("
          <> decimal (watchdog_ms / 2)
          <> "); the retry budget would consume more than half the "
          <> "watchdog window and could mask a real persistent failure"))
      ("Reduce retry_policy.total_budget_ms to ≤ "
        <> decimal (watchdog_ms / 2)
        <> " ms (half of watchdog_ms = "
        <> decimal watchdog_ms
        <> " ms), or shorten max_attempts / backoff so the schedule fits")

unfoldable pub check_orchestration_budget :
    String → ℕ → List OrchestrationStep → ℕ → List ValidationError
check_orchestration_budget solution_id watchdog_ms [] i = []
check_orchestration_budget solution_id watchdog_ms (step ∷ steps) i =
    let later = check_orchestration_budget solution_id watchdog_ms steps (suc i) in
    elim step.retry_policy [
      | none ↦ later
      | some policy ↦
          if ltb (watchdog_ms / 2) policy.total_budget_ms
          then budget_error solution_id watchdog_ms i step policy.total_budget_ms ∷ later
          else later
    ]

-- The watchdog of a solution, if it has one.
unfoldable pub watchdog_of : SolutionDefinition → Option ℕ
watchdog_of sol = elim sol.failsafe [ none ↦ none | some failsafe ↦ failsafe.watchdog_ms ]

unfoldable pub validate_orchestration_budget : SolutionRegistry → String → List ValidationError
validate_orchestration_budget sol_reg solution_id = elim (Solution.get sol_reg solution_id) [
  | none ↦ []
  | some sol ↦ elim (watchdog_of sol) [
    | none ↦ []
    | some watchdog_ms ↦
        check_orchestration_budget solution_id watchdog_ms sol.fixed_orchestration 0
  ]
]

-- Rules 9 and 9b.
unfoldable pub check_solution :
    SolutionRegistry → Option String → List String → List ValidationError
check_solution sol_reg none types = []
check_solution sol_reg (some solution_id) types =
    validate_solution sol_reg solution_id types ++ validate_orchestration_budget sol_reg solution_id

abbrev pub wifi_hint : String
wifi_hint = "Add a 'wifi:' block with your SSID and password"

unfoldable pub stage_9_final_validation :
    Floats
    → (Value → Result String SigrokConfig)
    → SolutionRegistry
    → RawConfig
    → List ValidationError
stage_9_final_validation floats from_value sol_reg config =
    let types = types_of config.components in
    require_network types "api" wifi_hint
    ++ warn_both types "mqtt" "api" (
        "both 'mqtt:' and 'api:' are configured; "
        <> "Home Assistant native API and MQTT can conflict — consider using only one")
    ++ require_network types "ota" "OTA updates are delivered over the network"
    ++ warn_both types "deep_sleep" "api" (
        "deep_sleep and api are both configured; "
        <> "the device will disconnect from Home Assistant during sleep cycles")
    ++ (if has types "deep_sleep" && has types "logger" then note_loggers config.components else [])
    ++ (if has types "climate" then validate_climate_visuals floats config.components 0 else [])
    ++ require_network types "mqtt" wifi_hint
    ++ check_solution sol_reg config.esphome.solution types
    ++ (if has types "sigrok" then validate_sigrok from_value config else [])
