-- ===== src/Examples/Machines.antt =====
-- A machine of two states, and the workflow that runs it.
use zt_edge.Common.{
  ℕ, ◌+◌, ◌≡◌, ◌≢◌, refl, String, Bool, none, some, List, [], ◌∷◌, arith, text_apart, lookup,
  text_discrete, Result, ok,
}
use zt_edge.Workflow.Definition.{
  StepDef, StateDef, WorkflowDefinition, WorkflowRunInfo, WfError, log, manual, run_to_completion,
  running,
}
use zt_edge.Workflow.Rtc.{RtcHandle, find_state, execute, dispatch, run as start_machine}
use zt_edge.Workflow.Machine.{IsDefined, dispatch-IsDefined}
use zt_edge.Workflow.Engine.{Engine, dispatch_event, first_name, run_workflow, handle}
use zt_edge.Workflow.Engine.Orphans.{IsOrphan, run_workflow-IsOrphan, handle-IsOrphan}

-- The world counts the steps that were taken.
abbrev count_step : StepDef Bool → ℕ → ℕ × Result WfError (Unit {0})
count_step step w = (w + 1, ok tt)

abbrev states : List (StateDef Bool)
states =
    record {
      name = "A";
      entry_actions = log "enter" ∷ [];
      exit_actions = log "leave" ∷ [];
      transitions = record { event = "go"; guard = none; target_state = "B"; actions = [] } ∷ [];
    }
    ∷ record { name = "B"; entry_actions = []; exit_actions = []; transitions = [] }
    ∷ []

abbrev at_a : RtcHandle Bool
at_a = record { current_state = "A"; states = states }

abbrev def : WorkflowDefinition Bool
def = record {
  workflow_id = "wf";
  name = "ab";
  description = none;
  trigger = manual;
  mode = run_to_completion states;
}

abbrev info : WorkflowRunInfo
info = record { run_id = "first"; workflow_id = "wf"; status = running; error = none }

-- The workflow has been run once and its machine is live.
abbrev once : Engine Bool
once = record {
  workflows = ("wf", def) ∷ [];
  runs = ("first", info) ∷ [];
  rtc_runs = ("wf", ("first", at_a)) ∷ [];
}

abbrev twice : Engine Bool
twice = (run_workflow count_step "second" 1 once "wf").1

dispatch-IsDefined_example :
    let (w', h', result) = dispatch count_step at_a "go" 1 in
    (h'.states ≡ states)
    × IsDefined h'
    × ((name : String) → result ≡ ok name → h'.current_state ≡ name)
unfolding find_state text_discrete
dispatch-IsDefined_example = dispatch-IsDefined count_step at_a "go" 1 refl

only_machine :
    (other run_id : String) (h : RtcHandle Bool)
    → other ≢ "wf"
    → lookup text_discrete other once.rtc_runs ≡ some (run_id, h)
    → run_id ≢ "first"
unfolding lookup
only_machine other run_id h apart e = ground (arith, e)

abbrev first_run : String
first_run = "first"

abbrev second_run : String
second_run = "second"

abbrev third_run : String
third_run = "third"

twice-IsOrphan : IsOrphan twice "first" info
unfolding lookup text_discrete start_machine find_state execute first_name
twice-IsOrphan =
    run_workflow-IsOrphan count_step "second" 1 2 once "wf" "first" at_a at_a def states info refl
      refl refl refl only_machine refl refl (text_apart second_run first_run refl)

handle-IsOrphan_example :
    IsOrphan (handle count_step "third" 2 twice (dispatch_event "wf" "go")).1 "first" info
handle-IsOrphan_example =
    handle-IsOrphan count_step "third" 2 twice (dispatch_event "wf" "go") "first" info
      (text_apart third_run first_run refl) (λ status error e. cc) twice-IsOrphan
