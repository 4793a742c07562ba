-- ===== src/Workflow/Engine.antt =====
-- crates/rshome-wf/src/engine.rs: the actor that keeps workflows and their runs. The id that
-- `Uuid::new_v4` gives is an argument, since a message takes one at most. A pipeline's steps run
-- in a task of their own, so starting one is an output. An event's data and a run's input, which
-- the steps do not read, are left out.
pub mod Deletion
mod Runs
pub mod Orphans
use zt_edge.Common.{
  String, Bool, true, false, ◌||◌, Option, none, some, List, [], ◌∷◌, map, Dict, lookup, insert,
  remove, text_discrete, if◌then◌else◌, ite, Result, ok, err, is_some,
}
use zt_edge.Workflow.Definition.{
  StepDef, StateDef, WorkflowDefinition, WorkflowInfo, WorkflowMode, WorkflowRunInfo, RunStatus,
  WfError, pipeline, run_to_completion, from_definition, workflow_not_found, run_not_found,
  active_runs_exist, running, completed, failed, to_string,
}
use zt_edge.Workflow.Rtc.{RtcHandle, dispatch, is_in_terminal_state, run as start_machine}

pub record Engine (Json : Type 0) : Type 0 where
  pub workflows : Dict String (WorkflowDefinition Json)
  pub runs : Dict String WorkflowRunInfo
  pub rtc_runs : Dict String (String × RtcHandle Json)

pub data Msg (Json : Type 0) : Type 0 where
  create : WorkflowDefinition Json → Msg Json
  list stop : Msg Json
  get delete run get_run_status : String → Msg Json
  run_completed : String → RunStatus → Option String → Msg Json
  dispatch_event : String → String → Msg Json

pub data Output (Json : Type 0) : Type 0 where
  id_reply : Result WfError String → Output Json
  list_reply : List WorkflowInfo → Output Json
  definition_reply : Result WfError (WorkflowDefinition Json) → Output Json
  done_reply : Result WfError (Unit {0}) → Output Json
  run_reply : Result WfError WorkflowRunInfo → Output Json
  spawn_pipeline : String → List (StepDef Json) → Output Json
  stop_self : Output Json

-- `Option::ok_or_else`.
abbrev pub ok_or : {A : Type 0} → Option A → WfError → Result WfError A
ok_or none e = err e
ok_or (some a) e = ok a

abbrev pub is_running : RunStatus → Bool
is_running running = true
is_running completed = false
is_running failed = false

unfoldable pub is_active : String → WorkflowRunInfo → Bool
is_active workflow_id r = ite (text_discrete r.workflow_id workflow_id) (is_running r.status) false

unfoldable pub has_active : String → Dict String WorkflowRunInfo → Bool
has_active workflow_id [] = false
has_active workflow_id ((id, r) ∷ more) = is_active workflow_id r || has_active workflow_id more

-- `if let Some(r) = self.runs.get_mut(run_id) { .. }`
unfoldable pub set_run :
    String → RunStatus → Option String → Dict String WorkflowRunInfo → Dict String WorkflowRunInfo
set_run run_id status error runs = elim (lookup text_discrete run_id runs) [
  | none ↦ runs
  | some r ↦ insert text_discrete run_id (record r { status = status; error = error }) runs
]

-- The same where the code leaves the error as it is.
unfoldable pub complete_run : String → Dict String WorkflowRunInfo → Dict String WorkflowRunInfo
complete_run run_id runs = elim (lookup text_discrete run_id runs) [
  | none ↦ runs
  | some r ↦ insert text_discrete run_id (record r { status = completed }) runs
]

module _ {Json : Type 0} where
  unfoldable pub create_workflow :
      String → Engine Json → WorkflowDefinition Json → Engine Json × List (Output Json)
  create_workflow fresh s def = (
    record s {
      workflows = insert text_discrete fresh (record def { workflow_id = fresh }) s.workflows;
    },
    id_reply (ok fresh) ∷ [],
  )

  unfoldable pub delete_workflow : Engine Json → String → Engine Json × Result WfError (Unit {0})
  delete_workflow s id =
      if is_some (lookup text_discrete id s.workflows)
      then (if has_active id s.runs
          then (s, err active_runs_exist)
          else (record s { workflows = remove text_discrete id s.workflows }, ok tt))
      else (s, err (workflow_not_found id))

  unfoldable pub first_name : List (StateDef Json) → String
  first_name [] = ""
  first_name (s ∷ _) = s.name

  unfoldable pub add_run : String → String → Engine Json → Engine Json
  add_run fresh id s = record s {
    runs =
        insert text_discrete fresh
          (record { run_id = fresh; workflow_id = id; status = running; error = none }) s.runs;
  }

  module _ {World : Type 0}
      (execute_step : StepDef Json → World → World × Result WfError (Unit {0})) where
    unfoldable pub start_rtc :
        String → World → Engine Json → String → List (StateDef Json) → World × Engine Json
    start_rtc fresh w s id states =
        let (w', started) = start_machine execute_step states (first_name states) w in
        elim started [
          | ok h ↦ (w', record s { rtc_runs = insert text_discrete id (fresh, h) s.rtc_runs })
          | err e ↦ (w', record s { runs = set_run fresh failed (some (to_string e)) s.runs })
        ]

    unfoldable pub run_workflow :
        String → World → Engine Json → String → World × Engine Json × List (Output Json)
    run_workflow fresh w s id = elim (lookup text_discrete id s.workflows) [
      | none ↦ (w, s, id_reply (err (workflow_not_found id)) ∷ [])
      | some def ↦ elim def.mode [
        | pipeline steps ↦
            (w, add_run fresh id s, spawn_pipeline fresh steps ∷ id_reply (ok fresh) ∷ [])
        | run_to_completion states ↦
            let (w', s') = start_rtc fresh w (add_run fresh id s) id states in
            (w', s', id_reply (ok fresh) ∷ [])
      ]
    ]

    unfoldable pub event_result :
        Engine Json → String → String → RtcHandle Json → Result WfError String → Engine Json
    event_result s id run_id h (ok name) =
        if is_in_terminal_state h name
        then record s { runs = complete_run run_id s.runs }
        else record s { rtc_runs = insert text_discrete id (run_id, h) s.rtc_runs }
    event_result s id run_id h (err e) = record s {
      runs = set_run run_id failed (some (to_string e)) s.runs;
    }

    unfoldable pub event_for : World → Engine Json → String → String → World × Engine Json
    event_for w s id event = elim (lookup text_discrete id s.rtc_runs) [
      | none ↦ (w, s)
      | some (run_id, h) ↦
          let (w', h', result) = dispatch execute_step h event w in
          (
            w',
            event_result (record s { rtc_runs = remove text_discrete id s.rtc_runs }) id run_id h'
                result,
          )
    ]

    unfoldable pub handle :
        String → World → Engine Json → Msg Json → World × Engine Json × List (Output Json)
    handle fresh w s (create def) = let (s', sent) = create_workflow fresh s def in (w, s', sent)
    handle fresh w s list = (w, s, list_reply (map (λ e. from_definition e.1) s.workflows) ∷ [])
    handle fresh w s (get id) = (
      w,
      s,
      definition_reply (ok_or (lookup text_discrete id s.workflows) (workflow_not_found id)) ∷ [],
    )
    handle fresh w s (delete id) =
        let (s', result) = delete_workflow s id in (w, s', done_reply result ∷ [])
    handle fresh w s (run id) = run_workflow fresh w s id
    handle fresh w s (get_run_status id) =
        (w, s, run_reply (ok_or (lookup text_discrete id s.runs) (run_not_found id)) ∷ [])
    handle fresh w s (run_completed id status error) =
        (w, record s { runs = set_run id status error s.runs }, [])
    handle fresh w s (dispatch_event id event) =
        let (w', s') = event_for w s id event in (w', s', [])
    handle fresh w s stop = (w, s, stop_self ∷ [])
