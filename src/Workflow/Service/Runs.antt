-- ===== src/Workflow/Service/Runs.antt =====
-- The runs of workflows: `_start_run`, run_workflow, retry_run and cancel_run of
-- backend/app/services/workflow_service.py. The driver thread is not modelled.
use lark_plat.Prelude.{
  ℕ, zero, suc, String, Bool, true, false, ◌&&◌, Option, none, some, List, [], ◌∷◌, ◌==◌, nat_eq,
  string_eq, if◌then◌else◌,
}
use lark_plat.Json.{Json, num, str, arr, obj, nil, Fields, field, end, get, truthy, items}
use lark_plat.Json.{put as set_field}
use lark_plat.Errors.{bad_request, conflict, validation, internal, Result, ok, err, ◌>>=◌}
use lark_plat.Session.{CurrentUser}
use lark_plat.Table.{Table, find, put, add}
use lark_plat.Workflow.Definition.{NodeType, node_type}
use lark_plat.Workflow.Model.{
  RunStatus, NodeStatus, TriggerType, NodeRun, WorkflowRun, WorkflowRow, VersionRow, NodeRow,
}
use lark_plat.Approval.Model.{ExecTask}
use lark_plat.Exec.Model.{ExecDb}
use lark_plat.Exec.Cancel.{cancel_exec_task_record}
use lark_plat.Workflow.Service.Model.{WorkflowDb, version_row}

-- the keys of WORKFLOW_TRANSITIONS
pub data RunAction : Type 0 where
  start succeed fail cancel : RunAction

-- WORKFLOW_TRANSITIONS[action][0]
unfoldable pub run_allowed : RunAction → RunStatus → Bool
run_allowed RunAction.start RunStatus.pending = true
run_allowed RunAction.succeed RunStatus.running = true
run_allowed RunAction.fail RunStatus.running = true
run_allowed RunAction.cancel RunStatus.pending = true
run_allowed RunAction.cancel RunStatus.running = true
run_allowed _ _ = false

-- WORKFLOW_TRANSITIONS[action][1]
unfoldable pub run_target : RunAction → RunStatus
run_target RunAction.start = RunStatus.running
run_target RunAction.succeed = RunStatus.succeeded
run_target RunAction.fail = RunStatus.failed
run_target RunAction.cancel = RunStatus.cancelled

unfoldable pub apply_run_transition : WorkflowRun → RunAction → Result WorkflowRun
apply_run_transition run action =
    if run_allowed action run.status
    then ok (record run { status = run_target action })
    else err conflict

-- node["key"] and node["type"]; a stored definition has been validated, so that both are there
unfoldable pub key_and_type : Json → Option NodeType → Result (String × NodeType)
key_and_type (str key) (some t) = ok (key, t)
key_and_type _ _ = err internal

unfoldable pub node_head : Json → Result (String × NodeType)
node_head (obj node) = key_and_type (get node "key") (node_type (get node "type"))
node_head _ = err internal

unfoldable pub new_node : ℕ → ℕ → String × NodeType → NodeRow
new_node run id (key, type) = record {
  run = run;
  node = record {
    node_id = id;
    node_key = key;
    node_type = type;
    status = NodeStatus.pending;
    exec_task_id = none;
    approval_id = none;
    attempt = 0;
    output = end;
    error = none;
    started_at = none;
    finished_at = none;
    updated_at = none;
    created_at = none;
  };
}

unfoldable pub add_nodes : ℕ → List Json → Table NodeRow → Result (Table NodeRow)
add_nodes run [] t = ok t
add_nodes run (node ∷ nodes) t =
    node_head node >>= λ head. add_nodes run nodes (add t (new_node run t.next_id head))

-- definition.get("nodes") or []
unfoldable pub nodes_of : Json → Result (List Json)
nodes_of (arr xs) = ok (items xs)
nodes_of value = if truthy value then err internal else ok []

unfoldable pub new_run :
    CurrentUser → ℕ → ℕ → WorkflowRow → TriggerType → Fields → Fields → WorkflowRun
new_run user id i w trigger_type trigger_ref context = record {
  run_id = id;
  workflow_id = i;
  workflow_version = w.current_version;
  status = RunStatus.pending;
  trigger_type = trigger_type;
  trigger_ref = trigger_ref;
  context = context;
  started_at = none;
  finished_at = none;
  error = none;
  created_by = some user.id;
}

-- _start_run: the id of the run, and the database with its rows
unfoldable pub start_workflow_run :
    CurrentUser
    → ℕ
    → WorkflowRow
    → Fields
    → TriggerType
    → Fields
    → Fields
    → WorkflowDb
    → Result (ℕ × WorkflowDb)
start_workflow_run user i w definition trigger_type trigger_ref context s = do
  defs ← nodes_of (get definition "nodes")
  nodes ← add_nodes s.runs.next_id defs s.nodes
  ok (
    s.runs.next_id,
    record s {
      runs = add s.runs (new_run user s.runs.next_id i w trigger_type trigger_ref context);
      nodes = nodes;
    },
  )

pub record WorkflowRunIn : Type 0 where
  pub trigger_type : Option String
  pub trigger_ref : Fields
  pub context : Fields

-- `trigger_type or "manual"`, and the test against TRIGGER_TYPES
unfoldable pub trigger_of : Option String → Result TriggerType
trigger_of none = ok TriggerType.manual
trigger_of (some s) =
    if s == ""
    then ok TriggerType.manual
    else if s == "manual"
    then ok TriggerType.manual
    else if s == "ticket"
    then ok TriggerType.ticket
    else if s == "schedule"
    then ok TriggerType.schedule
    else if s == "alert"
    then ok TriggerType.alert
    else if s == "release"
    then ok TriggerType.release
    else err validation

abbrev pub is_text : Json → String → Bool
is_text (str s) t = s == t
is_text _ t = false

-- the first run of the workflow that was started with the key
unfoldable pub find_key : ℕ → String → List (ℕ × WorkflowRun) → Option ℕ
find_key i key [] = none
find_key i key ((k, run) ∷ rows) =
    let rest = find_key i key rows in
    if run.workflow_id == i && is_text (get run.trigger_ref "idempotency_key") key
    then some k
    else rest

unfoldable pub start_keyed :
    CurrentUser
    → ℕ
    → WorkflowRow
    → Fields
    → TriggerType
    → String
    → WorkflowRunIn
    → Option ℕ
    → WorkflowDb
    → Result (ℕ × WorkflowDb)
start_keyed user i w definition type key input (some existing) s = ok (existing, s)
start_keyed user i w definition type key input none s =
    start_workflow_run user i w definition type
      (set_field input.trigger_ref "idempotency_key" (str key)) input.context s

-- run_workflow, for the workflow that was read; an empty key counts as none
unfoldable pub run_body :
    CurrentUser → ℕ → WorkflowRow → String → WorkflowRunIn → WorkflowDb → Result (ℕ × WorkflowDb)
run_body user i w key input s = elim (version_row i w.current_version s.versions.rows) [
  | none ↦ err bad_request
  | some v ↦ trigger_of input.trigger_type >>= λ type.
      if key == ""
      then start_workflow_run user i w v.definition type input.trigger_ref input.context s
      else start_keyed user i w v.definition type key input (find_key i key s.runs.rows) s
]

abbrev pub definition_or_empty : Option VersionRow → Fields
definition_or_empty none = field "nodes" (arr nil) end
definition_or_empty (some v) = v.definition

-- retry_run, for the run and the workflow that were read
unfoldable pub retry_run_body :
    CurrentUser → ℕ → WorkflowRun → WorkflowRow → WorkflowDb → Result (ℕ × WorkflowDb)
retry_run_body user r run w s =
    start_workflow_run user run.workflow_id w
      (definition_or_empty (version_row run.workflow_id run.workflow_version s.versions.rows))
      run.trigger_type (field "retry_of" (num r) end) run.context s

abbrev pub is_live_node : NodeStatus → Bool
is_live_node NodeStatus.pending = true
is_live_node NodeStatus.running = true
is_live_node NodeStatus.waiting = true
is_live_node _ = false

unfoldable pub cancel_task_of : ℕ → ℕ → Option ExecTask → ExecDb → ExecDb
cancel_task_of now id none s = s
cancel_task_of now id (some x) s = (cancel_exec_task_record now id x s).1

-- the task of a node, where it has one
unfoldable pub cancel_linked : ℕ → NodeRun → ExecDb → ExecDb
cancel_linked now n s = elim n.node_type [
  | NodeType.exec_task ↦ elim n.exec_task_id [
    | none ↦ s
    | some zero ↦ s
    | some (suc id) ↦ cancel_task_of now (suc id) (find s.shared.tasks (suc id)) s
  ]
  | _ ↦ s
]

abbrev pub skip_node : ℕ → NodeRow → NodeRow
skip_node now r = record r {
  node = record r.node { status = NodeStatus.skipped; finished_at = some now };
}

-- the loop of cancel_run over the live nodes of the run
unfoldable pub cancel_nodes : ℕ → ℕ → List (ℕ × NodeRow) → ExecDb → List (ℕ × NodeRow) × ExecDb
cancel_nodes now run [] s = ([], s)
cancel_nodes now run ((k, r) ∷ rows) s =
    let hit = r.run == run && is_live_node r.node.status in
    let (rest, s') = cancel_nodes now run rows (if hit then cancel_linked now r.node s else s) in
    ((k, if hit then skip_node now r else r) ∷ rest, s')

-- cancel_run, for the run that was read
unfoldable pub cancel_run_body : ℕ → ℕ → WorkflowRun → WorkflowDb → Result WorkflowDb
cancel_run_body now r run s = apply_run_transition run RunAction.cancel >>= λ moved.
    let (nodes, exec) = cancel_nodes now r s.nodes.rows s.exec in
    ok (record s {
      runs = put s.runs r (record moved { finished_at = some now });
      nodes = record s.nodes { rows = nodes };
      exec = exec;
    })
