-- ===== src/Workflow/Engine/Advance.antt =====
-- `_create_exec_task`, `_poll_exec_task`, `_create_approval`, `_enter_waiting_callback`,
-- `_advance_running` and `_advance_waiting`.
use lark_plat.Prelude.{
  ℕ, Bool, true, false, List, [], ◌∷◌, Option, none, some, ◌==◌, string_eq, if◌then◌else◌,
}
use lark_plat.Json.{Json, bool, num, negative, str, arr, Fields, nil, get, put, truthy}
use lark_plat.Errors.{Result, ok, err, internal}
use lark_plat.Session.{Db, pure, raise, lift, gets, modify, commit, ◌>>=◌, ◌>>◌}
use lark_plat.Statuses.{TaskStatus, ApprovalStatus}
use lark_plat.Workflow.Definition.{NodeType, exec_task, manual_approval, wait, callback, sleep}
use lark_plat.Workflow.Model.{NodeStatus, NodeRun, WorkflowRun}
use lark_plat.Workflow.Engine.Timeout.{
  Texts, first, timeout_sec, config_fields, config_for_timeout, timed_out, due_reached,
}
use lark_plat.Workflow.Engine.Port.{ExecCall, Created, Port, RunDb}
use lark_plat.Workflow.Engine.Nodes.{succeed, succeed_exec, fail}

-- the row of a node; the keys of a run are distinct (uq_workflow_node_run)
unfoldable pub replace_node : NodeRun → List NodeRun → List NodeRun
replace_node n [] = []
replace_node n (m ∷ ms) =
    let rest = replace_node n ms in if m.node_key == n.node_key then n ∷ ms else m ∷ rest

unfoldable pub set_node : {W : Type 0} → NodeRun → RunDb W → RunDb W
unfolding replace_node
set_node n s = record s { nodes = replace_node n s.nodes }

as_int : Option Json → Result ℕ
as_int (some (num n)) = ok n
as_int _ = err internal

-- int(cfg.get("timeout_sec") or 300); a negative number stands as 0
pub int_or_300 : Texts → Json → Result ℕ
unfolding as_int
int_or_300 p (negative n) = ok 0
int_or_300 p (num n) = ok (if truthy (num n) then n else 300)
int_or_300 p (bool b) = ok (if b then 1 else 300)
int_or_300 p (str s) = if truthy (str s) then as_int (p.int_of s) else ok 300
int_or_300 p v = if truthy v then err internal else ok 300

-- v or default
abbrev pub or_else : Json → Json → Json
or_else v d = if truthy v then v else d

-- the call of `create_exec_task_record`
unfoldable pub exec_call : Texts → Fields → WorkflowRun → NodeRun → Result ExecCall
unfolding int_or_300
exec_call p config run n = elim (int_or_300 p (get config "timeout_sec")) [
  | err e ↦ err e
  | ok t ↦ ok (record {
    node_key = n.node_key;
    kind =
        or_else (get config "kind")
          (if truthy (get config "script_id") then str "script" else str "command");
    host_ids = or_else (get config "host_ids") (arr nil);
    script_id = get config "script_id";
    script_version = get config "script_version";
    command = get config "command";
    params = get config "params";
    timeout = t;
    created_by = run.created_by;
    remediation = get run.context "remediation";
  })
]

module _ {W : Type 0} (port : Port W) (now : ℕ) where
  -- the branch on `approve_required`: mirror the approval, or commit and dispatch
  unfoldable pub after_create : NodeRun → Created → Db (RunDb W) Unit
  after_create n c =
      if c.approve_required
      then modify (
          set_node (record n {
            status = NodeStatus.waiting;
            exec_task_id = some c.task;
            approval_id = c.approval;
            started_at = first n.started_at (some now);
          }))
      else (do
        modify (set_node (record n { exec_task_id = some c.task }))
        commit
        modify (λ s. record s { world = port.dispatch c.task s.world })
        commit)

  -- it has committed the session when it returns
  unfoldable pub commit_record : Result (Created × W) → Db (RunDb W) Created
  commit_record (err e) = raise e
  commit_record (ok (c, w)) = modify (λ s. record s { world = w }) >> commit >> pure c

  -- `create_exec_task_record` on the rows around the run
  unfoldable pub create_record : ExecCall → Db (RunDb W) Created
  unfolding commit_record
  create_record call = do made ← gets (λ s. port.create_exec call s.world); commit_record made

  unfoldable pub create_exec_task : Json → WorkflowRun → NodeRun → Db (RunDb W) Unit
  unfolding after_create create_record exec_call
  create_exec_task config run n = do
    cfg ← lift (config_fields config)
    call ← lift (exec_call port.texts cfg run n)
    created ← create_record call
    after_create n created

  -- the approval of a waiting node was granted
  unfoldable pub resume : NodeRun → NodeStatus → Db (RunDb W) Bool
  resume n NodeStatus.waiting =
      modify (set_node (record n { status = NodeStatus.running })) >> pure true
  resume n _ = pure false

  -- `_poll_exec_task` once the row is read
  unfoldable pub follow_task : NodeRun → ℕ → Option TaskStatus → Db (RunDb W) Bool
  unfolding resume
  follow_task n task none = modify (set_node (fail n "engine_restart" now)) >> pure true
  follow_task n task (some TaskStatus.success) =
      modify (set_node (succeed_exec n task now)) >> pure true
  follow_task n task (some TaskStatus.partial) =
      modify (set_node (succeed_exec n task now)) >> pure true
  follow_task n task (some TaskStatus.failed) =
      modify (set_node (fail n "exec_task_failed" now)) >> pure true
  follow_task n task (some TaskStatus.timed_out) =
      modify (set_node (fail n "exec_task_failed" now)) >> pure true
  follow_task n task (some TaskStatus.canceled) =
      modify (set_node (fail n "exec_task_failed" now)) >> pure true
  follow_task n task (some TaskStatus.cancelled) =
      modify (set_node (fail n "exec_task_failed" now)) >> pure true
  follow_task n task (some TaskStatus.running) = resume n n.status
  follow_task n task (some _) = pure false

  unfoldable pub poll_exec_task : NodeRun → ℕ → Db (RunDb W) Bool
  unfolding follow_task
  poll_exec_task n task = do
    status ← gets (λ s. port.task_status task s.world)
    follow_task n task status

  unfoldable pub create_approval : WorkflowRun → NodeRun → Db (RunDb W) Unit
  create_approval run n = do
    new ← gets (λ s. port.add_approval run n s.world)
    modify (λ s. record s { world = new.1 })
    modify (
        set_node (record n {
          status = NodeStatus.waiting;
          approval_id = some new.0;
          started_at = first n.started_at (some now);
        }))

  unfoldable pub enter_waiting_callback : WorkflowRun → NodeRun → Db (RunDb W) Unit
  enter_waiting_callback run n = modify (
      set_node (record n {
        status = NodeStatus.waiting;
        started_at = first n.started_at (some now);
        output = put n.output "callback" (port.callback_info run n now);
      }))

  -- the sleep and wait branch of `_advance_running`
  unfoldable pub advance_timer : Bool → Json → Fields → NodeRun → Db (RunDb W) Bool
  advance_timer is_wait config defaults n = do
    limits ← lift (config_for_timeout config)
    if timed_out (timeout_sec port.texts limits defaults n.node_type) n now
        then modify (set_node (fail n "timeout" now)) >> pure true
        else (do
          cfg ← lift (config_fields config)
          due ← lift (due_reached port.texts is_wait cfg n now)
          if due then modify (set_node (succeed n now)) >> pure true else pure false)

  -- the exec_task branch
  unfoldable pub advance_exec : Json → WorkflowRun → NodeRun → Option ℕ → Db (RunDb W) Bool
  unfolding create_exec_task poll_exec_task
  advance_exec config run n none = create_exec_task config run n >> pure true
  advance_exec config run n (some task) = poll_exec_task n task

  -- the manual_approval branch
  unfoldable pub advance_approval : WorkflowRun → NodeRun → Option ℕ → Db (RunDb W) Bool
  unfolding create_approval
  advance_approval run n none = create_approval run n >> pure true
  advance_approval run n (some approval) = pure false

  unfoldable pub advance_running :
      NodeType → Json → Fields → WorkflowRun → NodeRun → Db (RunDb W) Bool
  unfolding advance_timer advance_exec advance_approval enter_waiting_callback
  advance_running sleep config defaults run n = advance_timer false config defaults n
  advance_running wait config defaults run n = advance_timer true config defaults n
  advance_running callback config defaults run n = enter_waiting_callback run n >> pure true
  advance_running manual_approval config defaults run n = advance_approval run n n.approval_id
  advance_running exec_task config defaults run n = advance_exec config run n n.exec_task_id

  -- the last lines of `_advance_waiting`
  unfoldable pub wait_or_time_out : Json → Fields → Bool → NodeRun → Db (RunDb W) Bool
  wait_or_time_out config defaults progressed n = do
    limits ← lift (config_for_timeout config)
    if timed_out (timeout_sec port.texts limits defaults n.node_type) n now
        then modify (set_node (fail n "timeout" now)) >> pure true
        else pure progressed

  -- what a waiting exec_task node does with its task's status; polling leaves it waiting exactly
  -- on the statuses that `follow_task` answers with `false`
  unfoldable pub poll_waiting : Json → Fields → NodeRun → Bool → Db (RunDb W) Bool
  unfolding wait_or_time_out
  poll_waiting config defaults n true = pure true
  poll_waiting config defaults n false = wait_or_time_out config defaults false n

  -- what a waiting manual_approval node does with its approval's status
  unfoldable pub decide : Json → Fields → NodeRun → Option ApprovalStatus → Db (RunDb W) Bool
  unfolding wait_or_time_out
  decide config defaults n (some ApprovalStatus.approved) =
      modify (set_node (succeed n now)) >> pure true
  decide config defaults n (some ApprovalStatus.rejected) =
      modify (set_node (fail n "approval_rejected" now)) >> pure true
  decide config defaults n (some ApprovalStatus.canceled) =
      modify (set_node (fail n "approval_rejected" now)) >> pure true
  decide config defaults n (some ApprovalStatus.cancelled) =
      modify (set_node (fail n "approval_rejected" now)) >> pure true
  decide config defaults n _ = wait_or_time_out config defaults false n

  unfoldable pub advance_waiting_exec : Json → Fields → NodeRun → Option ℕ → Db (RunDb W) Bool
  unfolding poll_waiting poll_exec_task
  advance_waiting_exec config defaults n none = wait_or_time_out config defaults false n
  advance_waiting_exec config defaults n (some task) =
      poll_exec_task n task >>= poll_waiting config defaults n

  unfoldable pub advance_waiting_approval : Json → Fields → NodeRun → Option ℕ → Db (RunDb W) Bool
  unfolding decide
  advance_waiting_approval config defaults n none = wait_or_time_out config defaults false n
  advance_waiting_approval config defaults n (some approval) = do
    status ← gets (λ s. port.approval_status approval s.world)
    decide config defaults n status

  unfoldable pub advance_waiting : NodeType → Json → Fields → NodeRun → Db (RunDb W) Bool
  unfolding advance_waiting_exec advance_waiting_approval wait_or_time_out
  advance_waiting exec_task config defaults n =
      advance_waiting_exec config defaults n n.exec_task_id
  advance_waiting manual_approval config defaults n =
      advance_waiting_approval config defaults n n.approval_id
  advance_waiting _ config defaults n = wait_or_time_out config defaults false n
