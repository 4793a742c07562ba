-- ===== src/Workflow/Engine/Runs.antt =====
-- crates/rshome-wf/src/engine.rs: facts about the table of runs.
use zt_edge.Common.{
  ◌≡◌, ◌≢◌, ◌∙◌, refl, ap, String, some, Option, List, [], ◌∷◌, Dict, lookup, text_discrete, Result,
  ok, err, arith, lookup-insert, Option-cases, ◌⊎◌, inl, inr, true,
}
use zt_edge.Workflow.Definition.{
  StepDef, StateDef, WorkflowRunInfo, RunStatus, running, WorkflowMode, pipeline, run_to_completion,
}
use zt_edge.Workflow.Engine.{set_run, complete_run, has_active, is_active, is_running}

pub Result-cases :
    {E A : Type 0} (r : Result E A) → ((a : A) × (r ≡ ok a)) ⊎ ((e : E) × (r ≡ err e))
Result-cases (ok a) = inl (a, refl)
Result-cases (err e) = inr (e, refl)

pub mode-cases :
    {Json : Type 0} (m : WorkflowMode Json)
    → ((steps : List (StepDef Json)) × (m ≡ pipeline steps))
      ⊎ ((states : List (StateDef Json)) × (m ≡ run_to_completion states))
mode-cases (pipeline steps) = inl (steps, refl)
mode-cases (run_to_completion states) = inr (states, refl)

pub lookup-set_run :
    (run_id r : String) (status : RunStatus) (error : Option String)
    (runs : Dict String WorkflowRunInfo)
    → run_id ≢ r
    → lookup text_discrete r (set_run run_id status error runs) ≡ lookup text_discrete r runs
unfolding set_run
lookup-set_run run_id r status error runs h =
    elim (Option-cases (lookup text_discrete run_id runs)) [
      | inl e ↦ rw (e, set_run) refl
      | inr (i, e) ↦
          rw (e, set_run) (lookup-insert text_discrete run_id r _ runs ∙ ground (arith, h))
    ]

pub lookup-complete_run :
    (run_id r : String) (runs : Dict String WorkflowRunInfo)
    → run_id ≢ r
    → lookup text_discrete r (complete_run run_id runs) ≡ lookup text_discrete r runs
unfolding complete_run
lookup-complete_run run_id r runs h = elim (Option-cases (lookup text_discrete run_id runs)) [
  | inl e ↦ rw (e, complete_run) refl
  | inr (i, e) ↦
      rw (e, complete_run) (lookup-insert text_discrete run_id r _ runs ∙ ground (arith, h))
]

is_active-running :
    (info : WorkflowRunInfo) → info.status ≡ running → is_active info.workflow_id info ≡ true
unfolding is_active
is_active-running info going = ground (arith, ap is_running going)

pub has_active-lookup :
    (r : String) (info : WorkflowRunInfo) (runs : Dict String WorkflowRunInfo)
    → lookup text_discrete r runs ≡ some info
    → info.status ≡ running
    → has_active info.workflow_id runs ≡ true
unfolding lookup has_active
has_active-lookup r info [] e going = ground (arith, e)
has_active-lookup r info ((k, i) ∷ more) e going =
    ground (arith, e, has_active-lookup r info more, is_active-running info going)
