-- ===== src/Approval/Service.antt =====
-- The decisions of backend/app/services/approval_service.py, and the two linkages of
-- backend/app/services/terminal_service.py. A decision reads its row and then writes in one
-- transaction, which is the part `approve_row`, `reject_row` or `cancel_row` over the database at
-- that time; when it raises, the session is rolled back.
use lark_plat.Prelude.{
  List, ℕ, ◌+◌, String, Bool, true, false, ◌&&◌, Option, none, some, [], ◌∷◌, ◌++◌, ◌==◌, nat_eq,
  string_eq, if◌then◌else◌,
}
use lark_plat.Errors.{not_found, conflict, Result, ok, err, ◌>>=◌}
use lark_plat.Statuses.{TaskStatus, ApprovalStatus}
use lark_plat.Session.{CurrentUser}
use lark_plat.Table.{Table, find, put, add}
use lark_plat.Approval.Model.{
  Approval, RecordAction, ApprovalRecord, ExecTask, SessionStatus, TerminalSession, ApprovalDb,
}

abbrev pub is_pending : ApprovalStatus → Bool
is_pending ApprovalStatus.pending = true
is_pending _ = false

abbrev pub is_awaiting : TaskStatus → Bool
is_awaiting TaskStatus.awaiting_approval = true
is_awaiting _ = false

-- ApprovalRepository.optimistic_update(i, "pending", to, version); `none` where no row matches
unfoldable pub update_approval : ℕ → ApprovalStatus → ℕ → Table Approval → Option (Table Approval)
update_approval i to version t = elim (find t i) [
  | none ↦ none
  | some a ↦
      if is_pending a.status && a.version == version
      then some (put t i (record a { status = to; version = version + 1 }))
      else none
]

-- ExecTaskRepository.optimistic_update(i, "awaiting_approval", to, version), and the stamp
-- `started_at` or `finished_at` that follows
unfoldable pub update_task :
    ℕ → ℕ → (ExecTask → ExecTask) → Table ExecTask → Option (Table ExecTask)
update_task i version change t = elim (find t i) [
  | none ↦ none
  | some x ↦
      if is_awaiting x.status && x.version == version
      then some (put t i (record (change x) { version = version + 1 }))
      else none
]

abbrev pub start_task : ℕ → ExecTask → ExecTask
start_task now x = record x { status = TaskStatus.running; started_at = some now }

abbrev pub cancel_task : ℕ → ExecTask → ExecTask
cancel_task now x = record x { status = TaskStatus.canceled; finished_at = some now }

-- the columns of the decision, over the row as it is then
abbrev pub stamp : Option ℕ → ℕ → Approval → Approval
stamp (some by) now a = record a { approver_id = some by; decided_at = some now }
stamp none now a = record a { decided_at = some now }

abbrev pub stamp_row : ℕ → Option ℕ → ℕ → Option Approval → Table Approval → Table Approval
stamp_row i by now none t = t
stamp_row i by now (some a) t = put t i (stamp by now a)

-- the optimistic update, the columns and the record of a decision
unfoldable pub decide_row :
    ℕ → ApprovalStatus → Option ℕ → ℕ → ApprovalRecord → Approval → ApprovalDb → Result ApprovalDb
decide_row i to by now line a s = elim (update_approval i to a.version s.approvals) [
  | none ↦ err conflict
  | some t ↦
      ok (record s { approvals = stamp_row i by now (find t i) t; records = add s.records line })
]

-- exec_dispatch.delay, whose exceptions are swallowed
abbrev pub hand_over : ℕ → ℕ → ApprovalDb → List ℕ
hand_over id now s = if s.broker id now then s.queue ++ id ∷ [] else s.queue

unfoldable pub run_task : ℕ → ℕ → Option ExecTask → ApprovalDb → Result ApprovalDb
run_task id now none s = err not_found
run_task id now (some task) s = elim (update_task id task.version (start_task now) s.tasks) [
  | none ↦ err conflict
  | some t ↦ ok (record s { tasks = t; queue = hand_over id now s })
]

unfoldable pub approve_exec : ℕ → Approval → ApprovalDb → Result ApprovalDb
approve_exec now a s = run_task a.biz_id now (find s.tasks a.biz_id) s

abbrev pub open_session : ℕ → ℕ → Option TerminalSession → ApprovalDb → ApprovalDb
open_session id now none s = s
open_session id now (some x) s = elim x.status [
  | SessionStatus.awaiting_approval ↦ record s {
    sessions =
        put s.sessions id (record x { status = SessionStatus.opened; started_at = some now });
  }
  | _ ↦ s
]

unfoldable pub activate_on_approval : ℕ → Approval → ApprovalDb → ApprovalDb
activate_on_approval now a s = open_session a.biz_id now (find s.sessions a.biz_id) s

abbrev pub close_session : ℕ → ℕ → Option TerminalSession → ApprovalDb → ApprovalDb
close_session id now none s = s
close_session id now (some x) s = elim x.status [
  | SessionStatus.awaiting_approval ↦ record s {
    sessions = put s.sessions id (record x {
      status = SessionStatus.closed;
      close_reason = "canceled_before_approval";
      finished_at = some now;
    });
  }
  | _ ↦ s
]

unfoldable pub close_on_cancel : ℕ → Approval → ApprovalDb → ApprovalDb
close_on_cancel now a s = close_session a.biz_id now (find s.sessions a.biz_id) s

unfoldable pub approve_linkages : ℕ → Approval → ApprovalDb → Result ApprovalDb
approve_linkages now a s =
    let run = approve_exec now a s in
    if a.biz_type == "terminal"
    then ok (activate_on_approval now a s)
    else if a.biz_type == "workflow"
    then ok s
    else if a.biz_type == "exec"
    then run
    else err not_found

-- `if task and task.status == "awaiting_approval": ...`; a lost race is no error here
abbrev pub drop_task : ℕ → ℕ → Option ExecTask → ApprovalDb → ApprovalDb
drop_task id now none s = s
drop_task id now (some task) s =
    if is_awaiting task.status
    then record s {
      tasks = put s.tasks id (record (cancel_task now task) { version = task.version + 1 });
    }
    else s

unfoldable pub cancel_exec : ℕ → Approval → ApprovalDb → ApprovalDb
cancel_exec now a s = drop_task a.biz_id now (find s.tasks a.biz_id) s

unfoldable pub cancel_linkages : ℕ → Approval → ApprovalDb → ApprovalDb
cancel_linkages now a s =
    if a.biz_type == "terminal"
    then close_on_cancel now a s
    else if a.biz_type == "exec"
    then cancel_exec now a s
    else s

pub data Decision : Type 0 where
  approve reject : String → Decision
  cancel : Decision

-- The transaction of a decision on the row `i` that was read as `a`.
unfoldable pub decide : CurrentUser → ℕ → ℕ → Decision → Approval → ApprovalDb → Result ApprovalDb
decide user i now (Decision.approve comment) a s =
    decide_row i ApprovalStatus.approved (some user.id) now
      (record {
        approval_id = i;
        action = RecordAction.approve;
        operator_id = user.id;
        comment = comment;
      })
      a s
    >>= approve_linkages now a
decide user i now (Decision.reject comment) a s =
    decide_row i ApprovalStatus.rejected (some user.id) now
      (record {
        approval_id = i;
        action = RecordAction.reject;
        operator_id = user.id;
        comment = comment;
      })
      a s
    >>= λ s'. ok (if a.biz_type == "exec" then cancel_exec now a s' else s')
decide user i now Decision.cancel a s =
    decide_row i ApprovalStatus.canceled none now
      (record {
        approval_id = i;
        action = RecordAction.cancel;
        operator_id = user.id;
        comment = "requester cancel";
      })
      a s
    >>= λ s'. ok (cancel_linkages now a s')
