-- ===== src/Exec/Model.antt =====
-- The rows that the execution service touches: exec_task is in Approval/Model; exec_task_host
-- (backend/app/db/models/exec.py), asset_host (backend/app/db/models/asset.py), script and
-- script_version (backend/app/db/models/script.py), the columns that it reads or writes.
use lark_plat.Prelude.{
  ℕ, ◌+◌, String, Bool, true, false, ◌&&◌, Option, none, some, List, [], ◌∷◌, ◌++◌, ◌==◌, nat_eq,
  string_eq, if◌then◌else◌,
}
use lark_plat.Json.{Json}
use lark_plat.Table.{Table, find, put}
use lark_plat.Statuses.{TaskStatus}
use lark_plat.Approval.Model.{ExecTask, ApprovalDb}
use lark_plat.Automation.Model.{Governance}

-- HOST_STATUSES
pub data HostStatus : Type 0 where
  pending running success failed timed_out canceled : HostStatus

pub record ExecTaskHost : Type 0 where
  pub exec_task_id : ℕ
  pub host_id : ℕ
  pub executor : String
  pub status : HostStatus
  pub exit_code : Option ℕ
  pub started_at : Option ℕ
  pub finished_at : Option ℕ

pub record Host : Type 0 where
  pub hostname : String
  pub group_id : Option ℕ
  pub connector : String
  pub agent_id : Option String

pub record Script : Type 0 where
  pub current_version : ℕ

pub record ScriptVersion : Type 0 where
  pub script_id : ℕ
  pub version : ℕ
  pub content : String

-- the columns of an automatic approval in ai_action
pub record AiAction : Type 0 where
  pub trace_id : String
  pub actor : ℕ
  pub policy_ref : Option ℕ

-- `rule` is config_rule by its key; `shared` holds the approvals, the tasks and the broker
pub record ExecDb : Type 0 where
  pub shared : ApprovalDb
  pub task_hosts : Table ExecTaskHost
  pub hosts : Table Host
  pub scripts : Table Script
  pub script_versions : List ScriptVersion
  pub rule : String → Option Json
  pub governance : Governance
  pub ai_actions : List AiAction

abbrev pub task_code : TaskStatus → ℕ
task_code TaskStatus.created = 0
task_code TaskStatus.awaiting_approval = 1
task_code TaskStatus.approved = 2
task_code TaskStatus.running = 3
task_code TaskStatus.pending = 4
task_code TaskStatus.success = 5
task_code TaskStatus.partial = 6
task_code TaskStatus.failed = 7
task_code TaskStatus.timed_out = 8
task_code TaskStatus.canceled = 9
task_code TaskStatus.cancelled = 10

abbrev pub is_running : TaskStatus → Bool
is_running TaskStatus.running = true
is_running _ = false

-- ExecTaskRepository.optimistic_update(i, from, to, version); `none` where no row matches
unfoldable pub optimistic_update :
    ℕ → TaskStatus → TaskStatus → ℕ → Table ExecTask → Option (Table ExecTask)
optimistic_update i source target version t = elim (find t i) [
  | none ↦ none
  | some x ↦
      if task_code x.status == task_code source && x.version == version
      then some (put t i (record x { status = target; version = version + 1 }))
      else none
]

-- columns of the task i that are set through the session
unfoldable pub set_task : ℕ → (ExecTask → ExecTask) → Table ExecTask → Table ExecTask
set_task i change t = elim (find t i) [ none ↦ t | some x ↦ put t i (change x) ]

-- ScriptVersionRepository.by_script_version
unfoldable pub by_script_version : ℕ → ℕ → List ScriptVersion → Option ScriptVersion
by_script_version script version [] = none
by_script_version script version (v ∷ rows) =
    let rest = by_script_version script version rows in
    if v.script_id == script && v.version == version then some v else rest

-- ExecTaskHostRepository.by_task, with the keys of the rows
unfoldable pub by_task : ℕ → List (ℕ × ExecTaskHost) → List (ℕ × ExecTaskHost)
by_task i [] = []
by_task i ((k, h) ∷ rows) =
    let rest = by_task i rows in if h.exec_task_id == i then (k, h) ∷ rest else rest

-- a task is handed to the broker
abbrev pub queued : ℕ → ExecDb → ExecDb
queued i s = record s { shared = record s.shared { queue = s.shared.queue ++ i ∷ [] } }
