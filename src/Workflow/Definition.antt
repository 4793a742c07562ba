-- ===== src/Workflow/Definition.antt =====
-- crates/rshome-wf/src/definition.rs: what a workflow is made of. `Json` is `serde_json::Value`.
use Prim.Native.String.{◌++◌}
use zt_edge.Common.{ℕ, String, Option, List}

pub data TriggerDef : Type 0 where
  manual : TriggerDef
  entity_state_change : String → Option String → Option String → TriggerDef
  time_pattern webhook : String → TriggerDef

pub data ServiceCallTarget : Type 0 where
  all : ServiceCallTarget
  entity_id domain : String → ServiceCallTarget

pub data StepDef (Json : Type 0) : Type 0 where
  condition : String → Option String → StepDef Json
  service_call : String → String → ServiceCallTarget → Json → StepDef Json
  delay : ℕ → StepDef Json
  set_entity_state : String → Json → StepDef Json
  log : String → StepDef Json

pub record TransitionDef (Json : Type 0) : Type 0 where
  pub event : String
  pub guard : Option String
  pub target_state : String
  pub actions : List (StepDef Json)

pub record StateDef (Json : Type 0) : Type 0 where
  pub name : String
  pub entry_actions : List (StepDef Json)
  pub exit_actions : List (StepDef Json)
  pub transitions : List (TransitionDef Json)

pub data WorkflowMode (Json : Type 0) : Type 0 where
  pipeline : List (StepDef Json) → WorkflowMode Json
  run_to_completion : List (StateDef Json) → WorkflowMode Json

pub record WorkflowDefinition (Json : Type 0) : Type 0 where
  pub workflow_id : String
  pub name : String
  pub description : Option String
  pub trigger : TriggerDef
  pub mode : WorkflowMode Json

pub record WorkflowInfo : Type 0 where
  pub workflow_id : String
  pub name : String
  pub trigger_type : String
  pub mode_type : String

unfoldable pub trigger_type_name : TriggerDef → String
trigger_type_name manual = "manual"
trigger_type_name (entity_state_change _ _ _) = "entity_state_change"
trigger_type_name (time_pattern _) = "time_pattern"
trigger_type_name (webhook _) = "webhook"

unfoldable pub mode_type_name : {Json : Type 0} → WorkflowMode Json → String
mode_type_name (pipeline _) = "pipeline"
mode_type_name (run_to_completion _) = "run_to_completion"

unfoldable pub from_definition : {Json : Type 0} → WorkflowDefinition Json → WorkflowInfo
from_definition def = record {
  workflow_id = def.workflow_id;
  name = def.name;
  trigger_type = trigger_type_name def.trigger;
  mode_type = mode_type_name def.mode;
}

pub data RunStatus : Type 0 where
  running completed failed : RunStatus

pub record WorkflowRunInfo : Type 0 where
  pub run_id : String
  pub workflow_id : String
  pub status : RunStatus
  pub error : Option String

pub data WfError : Type 0 where
  workflow_not_found run_not_found : String → WfError
  active_runs_exist : WfError
  condition_failed invalid_expression entity_not_found : String → WfError
  state_machine_error actor_error service_error : String → WfError

-- The texts of `thiserror`.
unfoldable pub to_string : WfError → String
to_string (workflow_not_found s) = "workflow not found: " ++ s
to_string (run_not_found s) = "run not found: " ++ s
to_string active_runs_exist = "workflow already has active runs"
to_string (condition_failed s) = "condition failed: " ++ s
to_string (invalid_expression s) = "invalid expression: " ++ s
to_string (entity_not_found s) = "entity not found: " ++ s
to_string (state_machine_error s) = "state machine error: " ++ s
to_string (actor_error s) = "actor error: " ++ s
to_string (service_error s) = "service error: " ++ s
