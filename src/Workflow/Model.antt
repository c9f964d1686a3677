-- ===== src/Workflow/Model.antt =====
-- The rows of backend/app/db/models/workflow.py.
use lark_plat.Prelude.{ℕ, String, Bool, true, false, Option}
use lark_plat.Json.{Fields}
use lark_plat.Workflow.Definition.{NodeType}

-- RUN_STATUSES
pub data RunStatus : Type 0 where
  pending running succeeded failed cancelled : RunStatus

-- NODE_STATUSES, and the `cancelled` that the engine tests for
pub data NodeStatus : Type 0 where
  pending running succeeded failed skipped waiting cancelled : NodeStatus

-- `_RUN_TERMINAL`
abbrev pub run_terminal : RunStatus → Bool
run_terminal RunStatus.succeeded = true
run_terminal RunStatus.failed = true
run_terminal RunStatus.cancelled = true
run_terminal _ = false

-- `_NODE_TERMINAL`
abbrev pub node_terminal : NodeStatus → Bool
node_terminal NodeStatus.succeeded = true
node_terminal NodeStatus.failed = true
node_terminal NodeStatus.skipped = true
node_terminal NodeStatus.cancelled = true
node_terminal _ = false

-- TRIGGER_TYPES
pub data TriggerType : Type 0 where
  manual ticket schedule alert release : TriggerType

-- Instants are microseconds of one clock; `output` is the JSON object of the column, {} for NULL.
pub record NodeRun : Type 0 where
  pub node_id : ℕ
  pub node_key : String
  pub node_type : NodeType
  pub status : NodeStatus
  pub exec_task_id : Option ℕ
  pub approval_id : Option ℕ
  pub attempt : ℕ
  pub output : Fields
  pub error : Option String
  pub started_at : Option ℕ
  pub finished_at : Option ℕ
  pub updated_at : Option ℕ
  pub created_at : Option ℕ

pub record WorkflowRun : Type 0 where
  pub run_id : ℕ
  pub workflow_id : ℕ
  pub workflow_version : ℕ
  pub status : RunStatus
  pub trigger_type : TriggerType
  pub trigger_ref : Fields
  pub context : Fields
  pub started_at : Option ℕ
  pub finished_at : Option ℕ
  pub error : Option String
  pub created_by : Option ℕ

pub record WorkflowRow : Type 0 where
  pub name : String
  pub kind : String
  pub description : String
  pub current_version : ℕ
  pub enabled : ℕ
  pub created_by : ℕ

pub record VersionRow : Type 0 where
  pub workflow_id : ℕ
  pub version : ℕ
  pub definition : Fields
  pub editor_id : ℕ

pub record NodeRow : Type 0 where
  pub run : ℕ
  pub node : NodeRun
