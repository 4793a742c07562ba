-- ===== src/Workflow/Machine.antt =====
-- crates/rshome-wf/src/rtc.rs: the states of a live machine.
use zt_edge.Common.{
  ◌≡◌, refl, String, true, some, List, [], ◌∷◌, Result, ok, is_some, Option-cases, inl, inr, arith,
}
use zt_edge.Workflow.Definition.{StepDef, TransitionDef, StateDef, WfError}
use zt_edge.Workflow.Rtc.{
  RtcHandle, find_state, find_transition, guard_error, enter, move, take_transition, dispatch, run,
}

module _ {Json : Type 0} where
  -- The current state is one of the machine's states.
  abbrev pub IsDefined : RtcHandle Json → Type 0
  IsDefined h = is_some (find_state h.current_state h.states) ≡ true

  pub find_state-name :
      (name : String) (states : List (StateDef Json)) (s : StateDef Json)
      → find_state name states ≡ some s
      → s.name ≡ name
  unfolding find_state
  find_state-name name [] s h = ground (arith, h)
  find_state-name name (x ∷ more) s h = ground (arith, h, find_state-name name more s)

  module _ {World : Type 0}
      (execute_step : StepDef Json → World → World × Result WfError (Unit {0})) where
    -- A machine that starts is in the state that was asked for, and that state is one of its own.
    pub run-IsDefined :
        (states : List (StateDef Json)) (initial : String) (w w' : World) (h : RtcHandle Json)
        → run execute_step states initial w ≡ (w', ok h)
        → (h.current_state ≡ initial) × (h.states ≡ states) × IsDefined h
    unfolding run
    run-IsDefined states initial w w' h e = elim (Option-cases (find_state initial states)) [
      | inl f ↦ ground (arith, rw (f, run) at e)
      | inr (s, f) ↦ ground (arith, f, rw (f, run) at e)
    ]

    move-IsDefined :
        (h : RtcHandle Json) (state : StateDef Json) (t : TransitionDef Json)
        (target : StateDef Json) (w : World)
        → find_state t.target_state h.states ≡ some target
        → IsDefined h
        → let (w', h', result) = move execute_step h state t target w in
          (h'.states ≡ h.states)
          × IsDefined h'
          × ((name : String) → result ≡ ok name → h'.current_state ≡ name)
    unfolding move enter
    move-IsDefined h state t target w e v = ground (arith, e, v)

    -- Whatever an event leads to, errors included, the machine keeps its states and is in one of
    -- them; and the state that is reported is the one that it is in.
    pub dispatch-IsDefined :
        (h : RtcHandle Json) (event : String) (w : World)
        → IsDefined h
        → let (w', h', result) = dispatch execute_step h event w in
          (h'.states ≡ h.states)
          × IsDefined h'
          × ((name : String) → result ≡ ok name → h'.current_state ≡ name)
    unfolding dispatch take_transition
    dispatch-IsDefined h event w v = elim (Option-cases (find_state h.current_state h.states)) [
      | inl f ↦ rw (f, dispatch) (refl, v, λ name e. cc)
      | inr (s, f) ↦ elim (Option-cases (find_transition event s.transitions)) [
        | inl g ↦ rw (f, g, dispatch) (refl, v, λ name e. cc)
        | inr (t, g) ↦ elim (Option-cases (guard_error t.guard)) [
          | inr (x, k) ↦ rw (f, g, k, dispatch, take_transition) (refl, v, λ name e. cc)
          | inl k ↦ elim (Option-cases (find_state t.target_state h.states)) [
            | inl l ↦ rw (f, g, k, l, dispatch, take_transition) (refl, v, λ name e. cc)
            | inr (target, l) ↦
                rw (f, g, k, l, dispatch, take_transition) (move-IsDefined h s t target w l v)
          ]
        ]
      ]
    ]
