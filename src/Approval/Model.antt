-- ===== src/Approval/Model.antt =====
-- The rows that a decision on an approval touches: approval_request and approval_record
-- (backend/app/db/models/schedule.py), exec_task (backend/app/db/models/exec.py) and
-- terminal_session (backend/app/db/models/terminal.py), the columns that it reads or writes.
use lark_plat.Prelude.{Bool, ℕ, String, List, [], ◌∷◌, Option}
use lark_plat.Statuses.{TaskStatus, ApprovalStatus}
use lark_plat.Table.{Table}

pub record Approval : Type 0 where
  pub biz_type : String
  pub biz_id : ℕ
  pub requester_id : ℕ
  pub status : ApprovalStatus
  pub approval_mode : String
  pub policy_ref : Option ℕ
  pub approver_id : Option ℕ
  pub decided_at : Option ℕ
  pub version : ℕ

pub data RecordAction : Type 0 where
  approve reject cancel : RecordAction

pub record ApprovalRecord : Type 0 where
  pub approval_id : ℕ
  pub action : RecordAction
  pub operator_id : ℕ
  pub comment : String

pub record ExecTask : Type 0 where
  pub task_no : String
  pub kind : String
  pub script_id : Option ℕ
  pub script_version : Option ℕ
  pub command : Option String
  pub target_host_ids : List ℕ
  pub timeout_sec : ℕ
  pub sensitive_flag : ℕ
  pub approve_required : ℕ
  pub approval_id : Option ℕ
  pub created_by : Option ℕ
  pub created_at : ℕ
  pub status : TaskStatus
  pub version : ℕ
  pub started_at : Option ℕ
  pub finished_at : Option ℕ

pub data SessionStatus : Type 0 where
  awaiting_approval opened closed : SessionStatus

pub record TerminalSession : Type 0 where
  pub status : SessionStatus
  pub close_reason : String
  pub started_at : Option ℕ
  pub finished_at : Option ℕ

-- `queue` holds the tasks that were handed to the broker; `broker` tells whether it takes a task at
-- an instant, which the code cannot know before
pub record ApprovalDb : Type 0 where
  pub approvals : Table Approval
  pub records : Table ApprovalRecord
  pub tasks : Table ExecTask
  pub sessions : Table TerminalSession
  pub queue : List ℕ
  pub broker : ℕ → ℕ → Bool

-- _KNOWN_BIZ_TYPES
abbrev pub known_biz_types : List String
known_biz_types = "exec" ∷ "terminal" ∷ "workflow" ∷ []
