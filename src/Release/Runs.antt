-- ===== src/Release/Runs.antt =====
-- The workflow run of a release: `_ensure_release_workflow` and `_trigger_release_run` of
-- backend/app/services/cicd_service.py, and `_start_run` of backend/app/services/workflow_service.py
-- on the definition of the release workflow. The driver thread is not modelled.
use lark_plat.Prelude.{ℕ, String, List, [], ◌∷◌, Option, none, some, ◌==◌, string_eq, if◌then◌else◌}
use lark_plat.Json.{num, str, arr, obj, Fields, end, field, nil, cons}
use lark_plat.Session.{CurrentUser}
use lark_plat.Table.{add}
use lark_plat.Workflow.Definition.{NodeType}
use lark_plat.Workflow.Model.{RunStatus, NodeStatus, TriggerType, WorkflowRun, NodeRun, WorkflowRow}
use lark_plat.Release.Model.{ReleaseAction, Release, ReleaseDb}

abbrev pub release_workflow_name : String
release_workflow_name = "__release_orchestration__"

-- _RELEASE_DEFINITION
abbrev pub release_definition : Fields
release_definition =
    field "nodes"
      (arr (
        cons
          (obj (
            field "key" (str "deploy") (
              field "type" (str "callback") (
                field "config" (obj end) (
                  field "depends_on" (arr nil)
                    (field "on_success" (arr nil) (field "on_failure" (arr nil) end)))))))
          nil))
      end

unfoldable pub find_workflow : String → List (ℕ × WorkflowRow) → Option (ℕ × WorkflowRow)
find_workflow name [] = none
find_workflow name ((i, w) ∷ ws) = if w.name == name then some (i, w) else find_workflow name ws

abbrev pub release_workflow : CurrentUser → WorkflowRow
release_workflow user = record {
  name = release_workflow_name;
  kind = "workflow";
  description = "P3-5 release orchestration (system, §14.4)";
  current_version = 1;
  enabled = 1;
  created_by = user.id;
}

-- the workflow with its id, and the database with both rows
unfoldable pub or_new_workflow :
    CurrentUser → Option (ℕ × WorkflowRow) → ReleaseDb → (ℕ × WorkflowRow) × ReleaseDb
or_new_workflow user (some w) s = (w, s)
or_new_workflow user none s = (
  (s.workflows.next_id, release_workflow user),
  record s {
    workflows = add s.workflows (release_workflow user);
    versions = add s.versions (record {
      workflow_id = s.workflows.next_id;
      version = 1;
      definition = release_definition;
      editor_id = user.id;
    });
  },
)

unfoldable pub ensure_release_workflow : CurrentUser → ReleaseDb → (ℕ × WorkflowRow) × ReleaseDb
ensure_release_workflow user s =
    or_new_workflow user (find_workflow release_workflow_name s.workflows.rows) s

abbrev pub action_text : ReleaseAction → String
action_text ReleaseAction.deploy = "deploy"
action_text ReleaseAction.canary = "canary"
action_text ReleaseAction.promote = "promote"
action_text ReleaseAction.fail = "fail"
action_text ReleaseAction.rollback = "rollback"
action_text ReleaseAction.cancel = "cancel"

abbrev pub new_run : CurrentUser → ℕ × WorkflowRow → ℕ → ℕ → Release → ReleaseAction → WorkflowRun
new_run user (w, row) id i r action = record {
  run_id = id;
  workflow_id = w;
  workflow_version = row.current_version;
  status = RunStatus.pending;
  trigger_type = TriggerType.release;
  trigger_ref = field "release_id" (num i) (
      field "app" (str r.app)
        (field "env" (str r.env) (field "action" (str (action_text action)) end)));
  context = field "release_id" (num i) (field "action" (str (action_text action)) end);
  started_at = none;
  finished_at = none;
  error = none;
  created_by = some user.id;
}

-- the node row of the only node, `deploy`
abbrev pub new_node : ℕ → NodeRun
new_node id = record {
  node_id = id;
  node_key = "deploy";
  node_type = NodeType.callback;
  status = NodeStatus.pending;
  exec_task_id = none;
  approval_id = none;
  attempt = 0;
  output = end;
  error = none;
  started_at = none;
  finished_at = none;
  updated_at = none;
  created_at = none;
}

unfoldable pub start_run :
    CurrentUser → ℕ × WorkflowRow → ℕ → Release → ReleaseAction → ReleaseDb → ReleaseDb
start_run user w i r action s = record s {
  runs = add s.runs (new_run user w s.runs.next_id i r action);
  nodes = add s.nodes (record { run = s.runs.next_id; node = new_node s.nodes.next_id });
}

-- the id of the run, and the database with it
unfoldable pub trigger_release_run :
    CurrentUser → ℕ → Release → ReleaseAction → ReleaseDb → ℕ × ReleaseDb
trigger_release_run user i r action s =
    let (w, s') = ensure_release_workflow user s in
    (s'.runs.next_id, start_run user w i r action s')
