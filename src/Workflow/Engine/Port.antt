-- ===== src/Workflow/Engine/Port.antt =====
-- What the engine uses of the rest of the program: the exec service
-- (backend/app/services/exec_service.py), the approval rows, the failure seam of the CI/CD service
-- and the texts of Python. `W` is the database outside the rows of the run.
use lark_plat.Prelude.{ℕ, String, Bool, List, Option}
use lark_plat.Json.{Json}
use lark_plat.Errors.{Result}
use lark_plat.Statuses.{TaskStatus, ApprovalStatus}
use lark_plat.Workflow.Model.{NodeRun, WorkflowRun}
use lark_plat.Workflow.Engine.Timeout.{Texts}

-- the arguments that `_create_exec_task` passes to `create_exec_task_record`
pub record ExecCall : Type 0 where
  pub node_key : String
  pub kind : Json
  pub host_ids : Json
  pub script_id : Json
  pub script_version : Json
  pub command : Json
  pub params : Json
  pub timeout : ℕ
  pub created_by : Option ℕ
  pub remediation : Json

-- what `create_exec_task_record` returns
pub record Created : Type 0 where
  pub task : ℕ
  pub approve_required : Bool
  pub approval : Option ℕ

pub record Port (W : Type 0) : Type 0 where
  pub texts : Texts
  -- create_exec_task_record; it commits if it returns, and commits nothing if it raises
  pub create_exec : ExecCall → W → Result (Created × W)
  -- _kick_off_exec in process, its exceptions swallowed; it works in sessions of its own
  pub dispatch : ℕ → W → W
  pub task_status : ℕ → W → Option TaskStatus
  -- a new pending ApprovalRequest for a node, and its id
  pub add_approval : WorkflowRun → NodeRun → W → ℕ × W
  pub approval_status : ℕ → W → Option ApprovalStatus
  -- _pending_callback_info: token, url and expiry
  pub callback_info : WorkflowRun → NodeRun → ℕ → Json
  -- fail_release_for_run, its exceptions swallowed
  pub run_failed : WorkflowRun → W → W

-- The rows of one run, and all else.
pub record RunDb (W : Type 0) : Type 0 where
  pub run : WorkflowRun
  pub nodes : List NodeRun
  pub world : W
