-- ===== src/Workflow/Engine/Deletion.antt =====
-- crates/rshome-wf/src/engine.rs: when a workflow may be deleted.
use zt_edge.Common.{
  ◌≡◌, ◌≢◌, ◌↔◌, refl, String, true, false, [], ◌∷◌, Dict, lookup, remove, text_discrete, is_some,
  ite, ok, All, arith, Bool-cases, inl, inr,
}
use zt_edge.Workflow.Definition.{WorkflowRunInfo, RunStatus, running, completed, failed}
use zt_edge.Workflow.Engine.{Engine, is_active, is_running, has_active, delete_workflow}

-- The run is not under way for the workflow.
abbrev pub IsIdle : String → WorkflowRunInfo → Type 0
IsIdle id r = r.workflow_id ≡ id → r.status ≢ running

not_running : (status : RunStatus) → (is_running status ≡ false) ↔ (status ≢ running)
not_running running = (λ h. cc, λ h. absurd (h refl))
not_running completed = (λ h e. cc, λ h. refl)
not_running failed = (λ h e. cc, λ h. refl)

is_active-IsIdle : (id : String) (r : WorkflowRunInfo) → (is_active id r ≡ false) ↔ IsIdle id r
unfolding is_active
is_active-IsIdle id r =
    let (to, from) = not_running r.status in
    elim (text_discrete r.workflow_id id)
      as (λ d. (ite d (is_running r.status) false ≡ false) ↔ IsIdle id r) [
        | yes same ↦ (λ h e. to h, λ h. from (h same))
        | no differs ↦ (λ h e. absurd (differs e), λ h. refl)
      ]

has_active-IsIdle :
    (id : String) (runs : Dict String WorkflowRunInfo)
    → (has_active id runs ≡ false) ↔ All (λ e. IsIdle id e.1) runs
unfolding has_active
has_active-IsIdle id [] = (λ h. tt, λ h. refl)
has_active-IsIdle id ((k, r) ∷ more) =
    let (to, from) = is_active-IsIdle id r in
    let (all, back) = has_active-IsIdle id more in
    (λ h. (to (ground arith), all (ground arith)), λ h. ground (arith, from h.0, back h.1))

module _ {Json : Type 0} where
  -- Deleting a workflow succeeds exactly when it exists and none of its runs is under way. Then it
  -- is gone and nothing else has changed; otherwise nothing has.
  pub delete_workflow-eq-ok :
      (s : Engine Json) (id : String)
      → (((delete_workflow s id).1 ≡ ok tt) ↔ (
          (is_some (lookup text_discrete id s.workflows) ≡ true) × All (λ e. IsIdle id e.1) s.runs))
        × ((delete_workflow s id).1 ≡ ok tt
            → (delete_workflow s id).0
              ≡ record s { workflows = remove text_discrete id s.workflows })
        × ((delete_workflow s id).1 ≢ ok tt → (delete_workflow s id).0 ≡ s)
  unfolding delete_workflow
  delete_workflow-eq-ok s id =
      let (to, from) = has_active-IsIdle id s.runs in
      elim (Bool-cases (is_some (lookup text_discrete id s.workflows))) [
        | inr h ↦ rw (h, delete_workflow) ((λ e. cc, λ e. cc), λ e. cc, λ e. refl)
        | inl h ↦ elim (Bool-cases (has_active id s.runs)) [
          | inl k ↦
              rw (h, k, delete_workflow)
                ((λ e. cc, λ e. absurd (cc (from e.1))), λ e. cc, λ e. refl)
          | inr k ↦
              rw (h, k, delete_workflow)
                ((λ e. (refl, to k), λ e. refl), λ e. refl, λ n. absurd (n refl))
        ]
      ]
