-- ===== src/Workflow/Rtc.antt =====
-- crates/rshome-wf/src/rtc.rs: run-to-completion state machines; and the loop of
-- crates/rshome-wf/src/pipeline.rs over a list of steps. One step is the parameter `execute_step`:
-- it changes entities, services and the clock, which are the `World`. The loop does not read its
-- input and its value is always null, so neither is kept.
use Prim.Native.String.{◌++◌}
use zt_edge.Common.{
  String, Bool, true, false, not, Option, none, some, List, [], ◌∷◌, text_discrete, if◌then◌else◌,
  Result, ok, err, ite,
}
use zt_edge.Workflow.Definition.{
  StepDef, TransitionDef, StateDef, WfError, invalid_expression, state_machine_error,
}
use zt_edge.Workflow.Trim.{trim}

-- Whether the text is a literal.
abbrev pub is_text : String → String → Bool
is_text t s = ite (text_discrete s t) true false

pub record RtcHandle (Json : Type 0) : Type 0 where
  pub current_state : String
  pub states : List (StateDef Json)

unfoldable pub guard_open : Option String → Bool
guard_open none = true
guard_open (some g) = not (is_text "false" (trim g))

-- A guard that is neither literal is refused.
unfoldable pub guard_error : Option String → Option WfError
guard_error none = none
guard_error (some g) =
    if is_text "true" (trim g)
    then none
    else if is_text "false" (trim g)
    then none
    else some
        (invalid_expression ("guard '" ++ (g ++ "' is not a literal boolean (Phase 5 limitation)")))

module _ {Json : Type 0} where
  unfoldable pub find_state : String → List (StateDef Json) → Option (StateDef Json)
  find_state name [] = none
  find_state name (s ∷ more) =
      let rest = find_state name more in ite (text_discrete s.name name) (some s) rest

  unfoldable pub no_transitions : StateDef Json → Bool
  no_transitions s = elim s.transitions [ [] ↦ true | _ ∷ _ ↦ false ]

  unfoldable pub is_in_terminal_state : RtcHandle Json → String → Bool
  is_in_terminal_state h name = elim (find_state name h.states) [
    | none ↦ true
    | some s ↦ no_transitions s
  ]

  unfoldable pub find_transition : String → List (TransitionDef Json) → Option (TransitionDef Json)
  find_transition event [] = none
  find_transition event (t ∷ more) =
      let rest = find_transition event more in
      ite (text_discrete t.event event) (if guard_open t.guard then some t else rest) rest

  module _ {World : Type 0}
      (execute_step : StepDef Json → World → World × Result WfError (Unit {0})) where
    unfoldable pub execute : List (StepDef Json) → World → World × Result WfError (Unit {0})
    execute [] w = (w, ok tt)
    execute (step ∷ more) w =
        let (w', result) = execute_step step w in
        let rest = execute more w' in elim result [ ok _ ↦ rest | err e ↦ (w', err e) ]

    -- Exit actions, transition actions, the new state, entry actions.
    unfoldable pub enter :
        RtcHandle Json
        → String
        → StateDef Json
        → World
        → World × RtcHandle Json × Result WfError String
    enter h name target w =
        let h' : RtcHandle Json = record h { current_state = name } in
        let (w', entered) = execute target.entry_actions w in
        elim entered [ ok _ ↦ (w', h', ok name) | err e ↦ (w', h', err e) ]

    unfoldable pub move :
        RtcHandle Json
        → StateDef Json
        → TransitionDef Json
        → StateDef Json
        → World
        → World × RtcHandle Json × Result WfError String
    move h state t target w =
        let (w₁, left) = execute state.exit_actions w in
        let (w₂, acted) = execute t.actions w₁ in
        elim left [
          | err e ↦ (w₁, h, err e)
          | ok _ ↦ elim acted [ err e ↦ (w₂, h, err e) | ok _ ↦ enter h t.target_state target w₂ ]
        ]

    unfoldable pub take_transition :
        RtcHandle Json
        → StateDef Json
        → TransitionDef Json
        → World
        → World × RtcHandle Json × Result WfError String
    take_transition h state t w = elim (guard_error t.guard) [
      | some e ↦ (w, h, err e)
      | none ↦ elim (find_state t.target_state h.states) [
        | none ↦ (
          w,
          h,
          err (state_machine_error ("target state '" ++ (t.target_state ++ "' not found"))),
        )
        | some target ↦ move h state t target w
      ]
    ]

    unfoldable pub dispatch :
        RtcHandle Json → String → World → World × RtcHandle Json × Result WfError String
    dispatch h event w = elim (find_state h.current_state h.states) [
      | none ↦ (
        w,
        h,
        err (
            state_machine_error
              ("current state '" ++ (h.current_state ++ "' not found in definition"))),
      )
      | some state ↦ elim (find_transition event state.transitions) [
        | none ↦ (w, h, ok h.current_state)
        | some t ↦ take_transition h state t w
      ]
    ]

    unfoldable pub run :
        List (StateDef Json) → String → World → World × Result WfError (RtcHandle Json)
    run states initial w = elim (find_state initial states) [
      | none ↦ (w, err (state_machine_error ("initial state '" ++ (initial ++ "' not found"))))
      | some state ↦
          let (w', entered) = execute state.entry_actions w in
          elim entered [
            | err e ↦ (w', err e)
            | ok _ ↦ (w', ok (record { current_state = initial; states = states }))
          ]
    ]
