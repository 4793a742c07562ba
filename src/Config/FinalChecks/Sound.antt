-- ===== src/Config/FinalChecks/Sound.antt =====
-- crates/rshome-config/src/stages/s9_final_validation.rs: which configurations pass the stage.
use zt_edge.Common.{
  Bool, true, false, ◌&&◌, ◌≡◌, ◌≢◌, refl, ◌↔◌, none, String, List, [], ◌∷◌, All, has, Bool-cases,
  inl, inr, Result, if◌then◌else◌, arith,
}
use zt_edge.Config.Diagnostic.{ValidationError, has_errors, has_errors-append_iff}
use zt_edge.Config.Value.{Value}
use zt_edge.Config.Raw.{RawConfig, ComponentConfig}
use zt_edge.Config.Schemas.{Floats}
use zt_edge.Config.FinalChecks.{
  types_of, note_loggers, validate_climate_visuals, stage_9_final_validation,
}
use zt_edge.Config.FinalChecks.Rules.{
  Clean, Linked, Tempered, require_network-Linked, warn_both-Clean, note_loggers-Clean,
  validate_climate_visuals-Tempered,
}
use zt_edge.Config.FinalChecks.Analyser.{Analysable, validate_sigrok-Analysable}
use zt_edge.Config.FinalChecks.Sigrok.{SigrokConfig, find_type, validate_sigrok}
use zt_edge.Schema.Solution.{SolutionRegistry}
use zt_edge.Config.FinalChecks.Solved.{Solved, check_solution-Solved}

absent-types_of :
    (t : String) (cs : List ComponentConfig)
    → has (types_of cs) t ≡ false
    → All (λ c. c.component_type ≢ t) cs
unfolding types_of has
absent-types_of t [] h = tt
absent-types_of t (c ∷ cs) h = elim (Bool-cases (has (types_of cs) c.component_type)) [
  | inl e ↦
      let away : has (types_of cs) t ≡ false = ground (arith, h, e) in
      (λ same. absurd (cc (away, e, same)), absent-types_of t cs away)
  | inr e ↦ (ground (arith, h, e), absent-types_of t cs (ground (arith, h, e)))
]

untyped-Tempered :
    (floats : Floats) (cs : List ComponentConfig)
    → All (λ c. c.component_type ≢ "climate") cs
    → All (Tempered floats) cs
untyped-Tempered floats [] h = tt
untyped-Tempered floats (c ∷ cs) h = (λ e. absurd (h.0 e), untyped-Tempered floats cs h.1)

untyped-find_type :
    (t : String) (cs : List ComponentConfig)
    → All (λ c. c.component_type ≢ t) cs
    → find_type t cs ≡ none
unfolding find_type
untyped-find_type t [] h = refl
untyped-find_type t (c ∷ cs) h = ground (arith, h.0, untyped-find_type t cs h.1)

check_climates-Tempered :
    (floats : Floats) (cs : List ComponentConfig)
    → Clean (if has (types_of cs) "climate" then validate_climate_visuals floats cs 0 else [])
      ↔ All (Tempered floats) cs
unfolding has_errors
check_climates-Tempered floats cs = elim (Bool-cases (has (types_of cs) "climate")) [
  | inl e ↦ rw e (validate_climate_visuals-Tempered floats cs 0)
  | inr e ↦ rw e (λ h. untyped-Tempered floats cs (absent-types_of "climate" cs e), λ h. refl)
]

check_analysers-Analysable :
    (from_value : Value → Result String SigrokConfig) (config : RawConfig)
    → Clean (
        if has (types_of config.components) "sigrok" then validate_sigrok from_value config else [])
      ↔ Analysable from_value config
unfolding has_errors
check_analysers-Analysable from_value config =
    elim (Bool-cases (has (types_of config.components) "sigrok")) [
      | inl e ↦ rw e (validate_sigrok-Analysable from_value config)
      | inr e ↦
          let missing =
            untyped-find_type "sigrok" config.components
              (absent-types_of "sigrok" config.components e) in
          rw e (λ h comp f. absurd (cc (f, missing)), λ h. refl)
    ]

check_loggers-Clean :
    (b : Bool) (cs : List ComponentConfig) → Clean (if b then note_loggers cs else [])
unfolding has_errors
check_loggers-Clean true cs = note_loggers-Clean cs
check_loggers-Clean false cs = refl

-- What the final checks ask of a configuration.
pub record IsSound (floats : Floats) (from_value : Value → Result String SigrokConfig)
    (solutions : SolutionRegistry) (config : RawConfig) : Type 0 where
  pub linked :
      Linked (types_of config.components) "api"
      × Linked (types_of config.components) "ota"
      × Linked (types_of config.components) "mqtt"
  pub tempered : All (Tempered floats) config.components
  pub solved : Solved solutions (types_of config.components) config.esphome.solution
  pub analysable : Analysable from_value config

harmless : (es : List ValidationError) → Clean es → Clean es ↔ Unit {0}
harmless es h = (λ e. tt, λ e. h)

-- The stage has no fatal diagnostic exactly when api, ota and mqtt come with wifi or ethernet, the
-- temperatures of each climate are in order, a solution that is named is known, has what it
-- requires and retries within half its watchdog, and the first logic analyser stands on an ESP32-S3
-- with 8 or 16 distinct channels, none of them reserved, and within the limits.
pub stage_9_final_validation-IsSound :
    (floats : Floats) (from_value : Value → Result String SigrokConfig)
    (solutions : SolutionRegistry) (config : RawConfig)
    → (has_errors (stage_9_final_validation floats from_value solutions config) ≡ false)
      ↔ IsSound floats from_value solutions config
unfolding stage_9_final_validation
stage_9_final_validation-IsSound floats from_value solutions config =
    let types = types_of config.components in
    let whole =
      has_errors-append_iff _ _ _ _
        (has_errors-append_iff _ _ _ _
          (has_errors-append_iff _ _ _ _
            (has_errors-append_iff _ _ _ _
              (has_errors-append_iff _ _ _ _
                (has_errors-append_iff _ _ _ _
                  (has_errors-append_iff _ _ _ _
                    (has_errors-append_iff _ _ _ _ (require_network-Linked types "api" _)
                      (harmless _ (warn_both-Clean types "mqtt" "api" _)))
                    (require_network-Linked types "ota" _))
                  (harmless _ (warn_both-Clean types "deep_sleep" "api" _)))
                (harmless _ (
                  check_loggers-Clean (has types "deep_sleep" && has types "logger")
                    config.components)))
              (check_climates-Tempered floats config.components))
            (require_network-Linked types "mqtt" _))
          (check_solution-Solved solutions config.esphome.solution types))
        (check_analysers-Analysable from_value config) in
    (
      λ h.
          let ((((((((api, a), ota), b), c), climates), mqtt), solution), analyser) = whole.0 h in
          record {
            linked = (api, ota, mqtt);
            tempered = climates;
            solved = solution;
            analysable = analyser;
          },
      λ s. whole.1 (
        (((((((s.linked.0, tt), s.linked.1), tt), tt), s.tempered), s.linked.2), s.solved),
        s.analysable,
      ),
    )
