-- ===== src/Exec/Orchestrator.antt =====
-- `run_exec` of backend/app/services/executors/orchestrator.py: the two gates before a host is run
-- over ssh. `ran` is the answer of the executor.
use lark_plat.Prelude.{ℕ, zero, suc, String, Bool, true, false, Option, none, some, if◌then◌else◌}
use lark_plat.Json.{Json}
use lark_plat.Errors.{Result, ok, ◌>>=◌}
use lark_plat.Statuses.{ApprovalStatus}
use lark_plat.Table.{Table, find}
use lark_plat.Approval.Model.{Approval, ExecTask}
use lark_plat.Exec.Sensitive.{is_sensitive, detect_sensitive}

abbrev pub is_approved : Option Approval → Bool
is_approved none = false
is_approved (some a) = elim a.status [ ApprovalStatus.approved ↦ true | _ ↦ false ]

-- `ApprovalRepository(db).get(task.approval_id) if task.approval_id else None`
abbrev pub approval_of : Option ℕ → Table Approval → Option Approval
approval_of none t = none
approval_of (some zero) t = none
approval_of (some (suc n)) t = find t (suc n)

-- _approval_gate, whether the task may pass
unfoldable pub approval_gate : ExecTask → Table Approval → Bool
approval_gate x t = elim x.approve_required [
  | zero ↦ true
  | suc n ↦ is_approved (approval_of x.approval_id t)
]

-- _sensitivity_gate, whether the task may pass
unfoldable pub sensitivity_gate :
    (String → String) → (String → Option Json) → ExecTask → String → ℕ → Result Bool
sensitivity_gate lower rule x content host_count = do
  reasons ← detect_sensitive lower rule x.command (some content) host_count
  ok (if is_sensitive reasons then false else true)

pub data ExecResult : Type 0 where
  skipped : ExecResult
  answered : Bool → ExecResult

-- run_exec
unfoldable pub run_exec :
    (String → String)
    → (String → Option Json)
    → ExecTask
    → String
    → ℕ
    → Bool
    → Table Approval
    → Result ExecResult
run_exec lower rule x content host_count ran t = do
  passes ← if approval_gate x t then sensitivity_gate lower rule x content host_count else ok false
  ok (if passes then ExecResult.answered ran else ExecResult.skipped)
