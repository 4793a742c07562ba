-- ===== src/Workflow/Engine/Orphans.antt =====
-- crates/rshome-wf/src/engine.rs: a run that its workflow's entry no longer leads to.
use zt_edge.Common.{
  ◌≡◌, ◌≢◌, ◌∙◌, refl, ap, String, some, Option, List, Dict, lookup, insert, remove, text_discrete,
  Result, ok, err, arith, lookup-insert, lookup-remove, Bool-cases, Option-cases, is_some, inl, inr,
}
use zt_edge.Workflow.Definition.{
  StepDef, StateDef, WorkflowDefinition, WorkflowRunInfo, RunStatus, WfError, running, failed,
  run_to_completion,
}
use zt_edge.Workflow.Rtc.{RtcHandle, is_in_terminal_state, run as start_machine}
use zt_edge.Workflow.Engine.{
  Engine, Msg, create, list, stop, get, delete, run, get_run_status, run_completed, dispatch_event,
  set_run, has_active, delete_workflow, first_name, add_run, start_rtc, run_workflow, event_result,
  event_for, create_workflow, handle,
}
use zt_edge.Workflow.Engine.Runs.{
  Result-cases, mode-cases, lookup-set_run, lookup-complete_run, has_active-lookup,
}

module _ {Json : Type 0} where
  -- The run is under way, and no live state machine stands for it.
  pub record IsOrphan (s : Engine Json) (r : String) (info : WorkflowRunInfo) : Type 0 where
    pub found : lookup text_discrete r s.runs ≡ some info
    pub going : info.status ≡ running
    pub unheld :
        (id run_id : String) (h : RtcHandle Json)
        → lookup text_discrete id s.rtc_runs ≡ some (run_id, h)
        → run_id ≢ r

  module _ {World : Type 0}
      (execute_step : StepDef Json → World → World × Result WfError (Unit {0})) where
    -- A run of a workflow is under way, the live machine of the workflow stands for it and no other
    -- machine does. Running the workflow again, under another id and with a machine that starts,
    -- leaves that run under way with no live machine that stands for it.
    pub run_workflow-IsOrphan :
        (fresh : String) (w w' : World) (s : Engine Json) (id r : String) (old new : RtcHandle Json)
        (def : WorkflowDefinition Json) (states : List (StateDef Json)) (info : WorkflowRunInfo)
        → lookup text_discrete id s.workflows ≡ some def
        → def.mode ≡ run_to_completion states
        → start_machine execute_step states (first_name states) w ≡ (w', ok new)
        → lookup text_discrete id s.rtc_runs ≡ some (r, old)
        → ((other run_id : String) (h : RtcHandle Json)
            → other ≢ id
            → lookup text_discrete other s.rtc_runs ≡ some (run_id, h)
            → run_id ≢ r)
        → lookup text_discrete r s.runs ≡ some info
        → info.status ≡ running
        → fresh ≢ r
        → IsOrphan (run_workflow execute_step fresh w s id).1 r info
    unfolding run_workflow start_rtc add_run
    run_workflow-IsOrphan fresh w w' s id r old new def states info e m started live others found
          going apart =
        rw (e, m, started, run_workflow, start_rtc)
          record {
            found = lookup-insert text_discrete fresh r _ s.runs ∙ ground (arith, apart, found);
            going = going;
            unheld = λ j k h g. ground (
              arith,
              g,
              apart,
              others j k h,
              lookup-insert text_discrete id j (fresh, new) s.rtc_runs,
            );
          }

    workflows-IsOrphan :
        (m : Dict String (WorkflowDefinition Json)) (s : Engine Json) (r : String)
        (info : WorkflowRunInfo)
        → IsOrphan s r info
        → IsOrphan (record s { workflows = m }) r info
    workflows-IsOrphan m s r info v = record { found = v.found; going = v.going; unheld = v.unheld }

    add_run-IsOrphan :
        (fresh id : String) (s : Engine Json) (r : String) (info : WorkflowRunInfo)
        → fresh ≢ r
        → IsOrphan s r info
        → IsOrphan (add_run fresh id s) r info
    unfolding add_run
    add_run-IsOrphan fresh id s r info apart v = record {
      found = lookup-insert text_discrete fresh r _ s.runs ∙ ground (arith, apart, v.found);
      going = v.going;
      unheld = v.unheld;
    }

    set_run-IsOrphan :
        (id : String) (status : RunStatus) (error : Option String) (s : Engine Json) (r : String)
        (info : WorkflowRunInfo)
        → id ≢ r
        → IsOrphan s r info
        → IsOrphan (record s { runs = set_run id status error s.runs }) r info
    set_run-IsOrphan id status error s r info apart v = record {
      found = lookup-set_run id r status error s.runs apart ∙ v.found;
      going = v.going;
      unheld = v.unheld;
    }

    hold-IsOrphan :
        (id k : String) (h : RtcHandle Json) (s : Engine Json) (r : String) (info : WorkflowRunInfo)
        → k ≢ r
        → IsOrphan s r info
        → IsOrphan (record s { rtc_runs = insert text_discrete id (k, h) s.rtc_runs }) r info
    hold-IsOrphan id k h s r info apart v = record {
      found = v.found;
      going = v.going;
      unheld = λ j i g e.
          ground
            (arith, e, apart, v.unheld j i g, lookup-insert text_discrete id j (k, h) s.rtc_runs);
    }

    release-IsOrphan :
        (id : String) (s : Engine Json) (r : String) (info : WorkflowRunInfo)
        → IsOrphan s r info
        → IsOrphan (record s { rtc_runs = remove text_discrete id s.rtc_runs }) r info
    release-IsOrphan id s r info v = record {
      found = v.found;
      going = v.going;
      unheld =
          λ j i g e. ground (arith, e, v.unheld j i g, lookup-remove text_discrete id j s.rtc_runs);
    }

    start_rtc-IsOrphan :
        (fresh : String) (w : World) (s : Engine Json) (id : String) (states : List (StateDef Json))
        (r : String) (info : WorkflowRunInfo)
        → fresh ≢ r
        → IsOrphan s r info
        → IsOrphan (start_rtc execute_step fresh w s id states).1 r info
    unfolding start_rtc
    start_rtc-IsOrphan fresh w s id states r info apart v =
        elim (Result-cases (start_machine execute_step states (first_name states) w).1) [
          | inl (h, e) ↦ rw (e, start_rtc) (hold-IsOrphan id fresh h s r info apart v)
          | inr (x, e) ↦ rw (e, start_rtc) (set_run-IsOrphan fresh failed _ s r info apart v)
        ]

    event_result-IsOrphan :
        (s : Engine Json) (id k : String) (h : RtcHandle Json) (result : Result WfError String)
        (r : String) (info : WorkflowRunInfo)
        → k ≢ r
        → IsOrphan s r info
        → IsOrphan (event_result execute_step s id k h result) r info
    unfolding event_result
    event_result-IsOrphan s id k h (ok name) r info apart v =
        elim (Bool-cases (is_in_terminal_state h name)) [
          | inl done ↦
              rw (done, event_result)
                record {
                  found = lookup-complete_run k r s.runs apart ∙ v.found;
                  going = v.going;
                  unheld = v.unheld;
                }
          | inr more ↦ rw (more, event_result) (hold-IsOrphan id k h s r info apart v)
        ]
    event_result-IsOrphan s id k h (err e) r info apart v =
        set_run-IsOrphan k failed _ s r info apart v

    -- A run that is under way with no live machine stays so whatever the engine is told, unless a
    -- message reports this very run as completed or the fresh id is that of the run.
    pub handle-IsOrphan :
        (fresh : String) (w : World) (s : Engine Json) (msg : Msg Json) (r : String)
        (info : WorkflowRunInfo)
        → fresh ≢ r
        → ((status : RunStatus) (error : Option String) → msg ≢ run_completed r status error)
        → IsOrphan s r info
        → IsOrphan (handle execute_step fresh w s msg).1 r info
    unfolding handle event_for delete_workflow create_workflow run_workflow
    handle-IsOrphan fresh w s (create def) r info apart other v = workflows-IsOrphan _ s r info v
    handle-IsOrphan fresh w s list r info apart other v = v
    handle-IsOrphan fresh w s (get id) r info apart other v = v
    handle-IsOrphan fresh w s (delete id) r info apart other v =
        elim (Bool-cases (is_some (lookup text_discrete id s.workflows))) [
          | inr h ↦ rw (h, delete_workflow) v
          | inl h ↦ elim (Bool-cases (has_active id s.runs)) [
            | inl k ↦ rw (h, k, delete_workflow) v
            | inr k ↦ rw (h, k, delete_workflow) (workflows-IsOrphan _ s r info v)
          ]
        ]
    handle-IsOrphan fresh w s (run id) r info apart other v =
        elim (Option-cases (lookup text_discrete id s.workflows)) [
          | inl h ↦ rw (h, run_workflow) v
          | inr (def, h) ↦ elim (mode-cases def.mode) [
            | inl (steps, m) ↦ rw (h, m, run_workflow) (add_run-IsOrphan fresh id s r info apart v)
            | inr (states, m) ↦
                rw (h, m, run_workflow)
                  (start_rtc-IsOrphan fresh w (add_run fresh id s) id states r info apart
                    (add_run-IsOrphan fresh id s r info apart v))
          ]
        ]
    handle-IsOrphan fresh w s (get_run_status id) r info apart other v = v
    handle-IsOrphan fresh w s (run_completed id status error) r info apart other v =
        set_run-IsOrphan id status error s r info
          (λ e. other status error (ap (λ k. run_completed k status error) e)) v
    handle-IsOrphan fresh w s (dispatch_event id event) r info apart other v =
        elim (Option-cases (lookup text_discrete id s.rtc_runs)) [
          | inl e ↦ rw (e, event_for) v
          | inr ((k, h), e) ↦
              rw (e, event_for)
                (event_result-IsOrphan _ id k _ _ r info (v.unheld id k h e)
                  (release-IsOrphan id s r info v))
        ]
    handle-IsOrphan fresh w s stop r info apart other v = v

  -- While a run is such an orphan its workflow cannot be deleted.
  pub delete_workflow-IsOrphan :
      (s : Engine Json) (r : String) (info : WorkflowRunInfo)
      → IsOrphan s r info
      → ((delete_workflow s info.workflow_id).0 ≡ s)
        × ((delete_workflow s info.workflow_id).1 ≢ ok tt)
  unfolding delete_workflow
  delete_workflow-IsOrphan s r info v =
      let active = has_active-lookup r info s.runs v.found v.going in
      elim (Bool-cases (is_some (lookup text_discrete info.workflow_id s.workflows))) [
        | inl h ↦ rw (h, active, delete_workflow) (refl, λ e. cc)
        | inr h ↦ rw (h, delete_workflow) (refl, λ e. cc)
      ]
