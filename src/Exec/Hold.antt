-- ===== src/Exec/Hold.antt =====
-- The rest of the body of `create_exec_task_record` of backend/app/services/exec_service.py: a
-- sensitive task waits for an approval, which a policy may give at once; another one starts.
use lark_plat.Prelude.{
  ℕ, Bool, true, false, Option, none, some, List, [], ◌∷◌, ◌++◌, any, length, ◌==◌, nat_eq,
  if◌then◌else◌,
}
use lark_plat.Errors.{conflict, internal, Result, ok, err, ◌>>=◌}
use lark_plat.Statuses.{TaskStatus, ApprovalStatus}
use lark_plat.Table.{Table, put, add}
use lark_plat.Approval.Model.{Approval, ExecTask}
use lark_plat.Approval.Service.{approve_linkages}
use lark_plat.Automation.Policy.{resolve_auto_policy}
use lark_plat.Exec.Model.{ExecTaskHost, ExecDb, optimistic_update, set_task}
use lark_plat.Exec.Sensitive.{is_sensitive, detect_sensitive}
use lark_plat.Exec.Create.{
  ExecEnv, ExecRequest, Created, check_hosts, script_content, new_task, executor_ssh_fallback,
  add_task_hosts,
}

-- requester_id if requester_id is not None else (created_by or 0)
abbrev pub requester : ExecRequest → ℕ
requester r = elim r.requester_id [
  | some u ↦ u
  | none ↦ elim r.created_by [ some u ↦ u | none ↦ 0 ]
]

unfoldable pub new_approval : ℕ → ℕ → Approval
new_approval task by = record {
  biz_type = "exec";
  biz_id = task;
  requester_id = by;
  status = ApprovalStatus.pending;
  approval_mode = "manual";
  policy_ref = none;
  approver_id = none;
  decided_at = none;
  version = 0;
}

-- the unique index on biz_id
unfoldable pub has_biz : ℕ → List (ℕ × Approval) → Bool
has_biz i rows = any (λ (x : ℕ × Approval). x.1.biz_id == i) rows

unfoldable pub insert_approval : Approval → Table Approval → Result (Table Approval)
insert_approval a t = if has_biz a.biz_id t.rows then err internal else ok (add t a)

-- optimistic_update, or ConflictError
unfoldable pub move_task :
    ℕ → TaskStatus → TaskStatus → ℕ → Table ExecTask → Result (Table ExecTask)
move_task i source target version t = elim (optimistic_update i source target version t) [
  | none ↦ err conflict
  | some t' ↦ ok t'
]

-- the columns and the audit row of an automatic approval, and its linkage
unfoldable pub approved_by : ℕ → Approval → Approval
approved_by policy a = record a {
  approval_mode = "auto_policy";
  status = ApprovalStatus.approved;
  policy_ref = some policy;
}

unfoldable pub auto_approve : ExecEnv → ℕ → ℕ → Approval → ℕ → ExecDb → Result ExecDb
auto_approve env by i a policy s = do
  shared ←
      approve_linkages env.now (approved_by policy a)
        (record s.shared { approvals = put s.shared.approvals i (approved_by policy a) })
  ok (record s {
    shared = shared;
    ai_actions =
        s.ai_actions
        ++ (record { trace_id = env.task_no; actor = by; policy_ref = some policy }) ∷ [];
  })

unfoldable pub resolve :
    ExecEnv → ExecRequest → ℕ → ℕ → Option ℕ → ExecDb → Result (Created × ExecDb)
resolve env r task i none s = ok (
  record {
    id = task;
    status = TaskStatus.awaiting_approval;
    approve_required = true;
    approval_id = some i;
  },
  s,
)
resolve env r task i (some policy) s = do
  s' ← auto_approve env (requester r) i (new_approval task (requester r)) policy s
  ok (
    record {
      id = task;
      status = TaskStatus.running;
      approve_required = true;
      approval_id = some i;
    },
    s',
  )

-- `if approve_required: ...`, for the task that was added
unfoldable pub hold : ExecEnv → ExecRequest → ℕ → ExecDb → Result (Created × ExecDb)
hold env r task s = do
  approvals ← insert_approval (new_approval task (requester r)) s.shared.approvals
  tasks ← move_task task TaskStatus.created TaskStatus.awaiting_approval 0 (
      set_task task (λ t. record t { approval_id = some s.shared.approvals.next_id })
        s.shared.tasks)
  policy ← resolve_auto_policy (s.rule "ai.auto_remediate") s.governance r.remediation
  resolve env r task s.shared.approvals.next_id policy
      (record s { shared = record s.shared { approvals = approvals; tasks = tasks } })

unfoldable pub start : ExecEnv → ℕ → ExecDb → Result (Created × ExecDb)
start env task s = do
  tasks ← move_task task TaskStatus.created TaskStatus.running 0 s.shared.tasks
  ok (
    record { id = task; status = TaskStatus.running; approve_required = false; approval_id = none },
    record s {
      shared = record s.shared {
        tasks = set_task task (λ t. record t { started_at = some env.now }) tasks;
      };
    },
  )

-- the task and its host rows, before its first move
unfoldable pub insert_task : ExecEnv → ExecRequest → Bool → ExecDb → Table ExecTaskHost → ExecDb
insert_task env r sensitive s task_hosts = record s {
  shared = record s.shared { tasks = add s.shared.tasks (new_task env r sensitive) };
  task_hosts = task_hosts;
}

-- what is computed before the task is added: whether it is sensitive, and its host rows
unfoldable pub prepare : ExecEnv → ExecRequest → ExecDb → Result (Bool × Table ExecTaskHost)
prepare env r s = do
  hosts ← check_hosts r.visible_group_ids s.hosts r.target_host_ids []
  content ← script_content r s
  reasons ← detect_sensitive env.lower s.rule r.command content (length hosts)
  task_hosts ←
      add_task_hosts env (executor_ssh_fallback (s.rule "executor.ssh_fallback"))
        s.shared.tasks.next_id hosts r.target_host_ids s.task_hosts
  ok (is_sensitive reasons, task_hosts)

unfoldable pub proceed :
    ExecEnv → ExecRequest → ExecDb → Bool × Table ExecTaskHost → Result (Created × ExecDb)
proceed env r s (sensitive, task_hosts) =
    let s' = insert_task env r sensitive s task_hosts in
    if sensitive then hold env r s.shared.tasks.next_id s' else start env s.shared.tasks.next_id s'

unfoldable pub create_body : ExecEnv → ExecRequest → ExecDb → Result (Created × ExecDb)
create_body env r s = prepare env r s >>= proceed env r s
