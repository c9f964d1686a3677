-- ===== src/Exec/Cancel.antt =====
-- `cancel_exec_task_record` and the decision of `retry_task` of
-- backend/app/services/exec_service.py, as computations over the database. The stop frame to a host's
-- agent is best effort and changes no row.
use lark_plat.Prelude.{
  ℕ, zero, suc, String, Bool, true, false, Option, none, some, List, [], ◌∷◌, length, ◌==◌,
  string_eq, nat_eq, if◌then◌else◌,
}
use lark_plat.Errors.{conflict, Result, ok, err, ◌>>=◌}
use lark_plat.Statuses.{TaskStatus, ApprovalStatus}
use lark_plat.Table.{Table, find}
use lark_plat.Approval.Model.{Approval, ExecTask}
use lark_plat.Approval.Service.{update_approval}
use lark_plat.Exec.Model.{
  HostStatus, ExecTaskHost, Script, ScriptVersion, ExecDb, optimistic_update, set_task,
  by_script_version,
}
use lark_plat.Exec.Sensitive.{is_sensitive, detect_sensitive}
use lark_plat.Exec.Create.{ExecEnv, or_default}
use lark_plat.Exec.Hold.{new_approval, insert_approval, move_task}

-- _EXEC_CANCELLABLE_STATUSES
abbrev pub is_cancellable : TaskStatus → Bool
is_cancellable TaskStatus.created = true
is_cancellable TaskStatus.awaiting_approval = true
is_cancellable TaskStatus.approved = true
is_cancellable TaskStatus.running = true
is_cancellable TaskStatus.pending = true
is_cancellable _ = false

-- `if approval is not None and approval.status == "pending"`, and its optimistic update
abbrev pub close_found : ℕ → Option Approval → Table Approval → Table Approval
close_found i none t = t
close_found i (some a) t = elim (update_approval i ApprovalStatus.canceled a.version t) [
  | none ↦ t
  | some t' ↦ t'
]

-- _close_orphan_approval
unfoldable pub close_orphan_approval : Option ℕ → Table Approval → Table Approval
close_orphan_approval none t = t
close_orphan_approval (some zero) t = t
close_orphan_approval (some (suc i)) t = close_found (suc i) (find t (suc i)) t

abbrev pub is_live : HostStatus → Bool
is_live HostStatus.pending = true
is_live HostStatus.running = true
is_live _ = false

abbrev pub is_retryable : HostStatus → Bool
is_retryable HostStatus.failed = true
is_retryable HostStatus.timed_out = true
is_retryable HostStatus.canceled = true
is_retryable _ = false

-- for th in by_task(i): if test(th.status): update_status(th.id, ...)
unfoldable pub update_hosts :
    ℕ
    → (HostStatus → Bool)
    → (ExecTaskHost → ExecTaskHost)
    → List (ℕ × ExecTaskHost)
    → List (ℕ × ExecTaskHost)
update_hosts i test change [] = []
update_hosts i test change ((k, h) ∷ rows) =
    let rest = update_hosts i test change rows in
    if h.exec_task_id == i
    then if test h.status then (k, change h) ∷ rest else (k, h) ∷ rest
    else (k, h) ∷ rest

abbrev pub end_host : HostStatus → ℕ → ExecTaskHost → ExecTaskHost
end_host status now h = record h { status = status; finished_at = some now }

abbrev pub reset_host : ExecTaskHost → ExecTaskHost
reset_host h = record h { status = HostStatus.pending }

-- what follows the optimistic update of a cancellation
unfoldable pub cancel_rest : ℕ → ℕ → ExecTask → ExecDb → Table ExecTask → ExecDb
cancel_rest now i x s tasks = record s {
  shared = record s.shared {
    tasks = set_task i (λ t. record t { finished_at = some now }) tasks;
    approvals = close_orphan_approval x.approval_id s.shared.approvals;
  };
  task_hosts = record s.task_hosts {
    rows = update_hosts i is_live (end_host HostStatus.canceled now) s.task_hosts.rows;
  };
}

abbrev pub cancel_if_moved : ℕ → ℕ → ExecTask → ExecDb → Option (Table ExecTask) → Bool × ExecDb
cancel_if_moved now i x s none = (false, s)
cancel_if_moved now i x s (some t) = (true, cancel_rest now i x s t)

-- cancel_exec_task_record, for the row i that was read as x: whether it moved, and what it leaves
unfoldable pub cancel_exec_task_record : ℕ → ℕ → ExecTask → ExecDb → Bool × ExecDb
cancel_exec_task_record now i x s =
    let moved = optimistic_update i x.status TaskStatus.canceled x.version s.shared.tasks in
    if is_cancellable x.status then cancel_if_moved now i x s moved else (false, s)

unfoldable pub cancel_or_conflict : ℕ → ℕ → ExecTask → ExecDb → Result ExecDb
cancel_or_conflict now i x s =
    let (moved, s') = cancel_exec_task_record now i x s in if moved then ok s' else err conflict

-- the content that `retry_task` tests again
unfoldable pub version_text : Option ScriptVersion → Option String
version_text none = some ""
version_text (some v) = some v.content

unfoldable pub content_of :
    Option ℕ → Option Script → ℕ → ExecTask → List ScriptVersion → Option String
content_of version none script x rows = x.command
content_of version (some sc) script x rows =
    version_text (by_script_version script (or_default version sc.current_version) rows)

unfoldable pub retry_content : ExecTask → ExecDb → Option String
retry_content x s = elim x.script_id [
  | none ↦ x.command
  | some zero ↦ x.command
  | some (suc n) ↦
      if x.kind == "script"
      then content_of x.script_version (find s.scripts (suc n)) (suc n) x s.script_versions
      else x.command
]

-- retry_task, where the task is sensitive
unfoldable pub hold_again : ℕ → ℕ → ExecTask → ExecDb → Result (TaskStatus × ExecDb)
hold_again by i x s = do
  tasks ← move_task i x.status TaskStatus.awaiting_approval x.version s.shared.tasks
  let closed = close_orphan_approval x.approval_id s.shared.approvals
  approvals ← insert_approval (new_approval i by) closed
  ok (
    TaskStatus.awaiting_approval,
    record s {
      shared = record s.shared {
        approvals = approvals;
        tasks =
            set_task i (λ t. record t { approval_id = some closed.next_id; sensitive_flag = 1 })
              tasks;
      };
    },
  )

-- retry_task, where it is not
unfoldable pub run_again : ℕ → ℕ → ExecTask → ExecDb → Result (TaskStatus × ExecDb)
run_again now i x s = do
  tasks ← move_task i x.status TaskStatus.running x.version s.shared.tasks
  ok (
    TaskStatus.running,
    record s {
      shared = record s.shared {
        approvals = close_orphan_approval x.approval_id s.shared.approvals;
        tasks = set_task i (λ t. record t { started_at = some now; finished_at = none }) tasks;
      };
      task_hosts = record s.task_hosts {
        rows = update_hosts i is_retryable reset_host s.task_hosts.rows;
      };
    },
  )

unfoldable pub retry_body : ExecEnv → ℕ → ℕ → ExecTask → ExecDb → Result (TaskStatus × ExecDb)
retry_body env by i x s = do
  reasons ←
      detect_sensitive env.lower s.rule x.command (retry_content x s) (length x.target_host_ids)
  if is_sensitive reasons then hold_again by i x s else run_again env.now i x s
