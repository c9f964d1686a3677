-- ===== src/Workflow/Service/Samples.antt =====
-- The theorems on the operations of workflows at a concrete database, which is empty at first.
use lark_plat.Prelude.{
  ℕ, ◌≡◌, refl, String, true, Option, none, some, List, [], ◌∷◌, ◌==◌, nat_eq, string_eq,
  if◌then◌else◌,
}
use lark_plat.Json.{
  Json, bool, null, str, arr, nil, cons, obj, field, end, Fields, put as set_field, get, truthy,
}
use lark_plat.Errors.{ok}
use lark_plat.Session.{CurrentUser, request}
use lark_plat.Table.{find}
use lark_plat.Exec.Model.{ExecDb}
use lark_plat.Workflow.Definition.{NodeType}
use lark_plat.Workflow.Model.{RunStatus, NodeStatus, TriggerType, WorkflowRow, NodeRun, WorkflowRun}
use lark_plat.Workflow.Service.Model.{WorkflowDb, version_row}
use lark_plat.Workflow.Service.Versions.{WorkflowCreate}
use lark_plat.Workflow.Service.Runs.{WorkflowRunIn, nodes_of, add_nodes}
use lark_plat.Workflow.Service.Callback.{TokenPort, find_node, awaits_callback, callback_node}
use lark_plat.Workflow.Service.Requests.{run_workflow, retry_run}
use lark_plat.Workflow.Service.History.{history, HistoryStep}
use lark_plat.Workflow.Service.Stored.{IsStored}
use lark_plat.Workflow.Service.Traces.{
  WorkflowRequest, serve, serve_all, serve-HistoryStep, serve_all-IsStored, serve_all-definition,
}
use lark_plat.Workflow.Service.Once.{completed_node, Refused, callback_node-once}
use lark_plat.Workflow.Service.Again.{run_workflow-again}

abbrev admin : CurrentUser
admin = record {
  id = 1;
  username = "admin";
  is_admin = true;
  permissions = [];
  visible_group_ids = [];
}

abbrev exec_db : ExecDb
exec_db = record {
  shared = record {
    approvals = record { rows = []; next_id = 1 };
    records = record { rows = []; next_id = 1 };
    tasks = record { rows = []; next_id = 1 };
    sessions = record { rows = []; next_id = 1 };
    queue = [];
    broker = λ id now. true;
  };
  task_hosts = record { rows = []; next_id = 1 };
  hosts = record { rows = []; next_id = 1 };
  scripts = record { rows = []; next_id = 1 };
  script_versions = [];
  rule = λ key. none;
  governance = record { levels = []; policies = []; whitelist = []; breakers = [] };
  ai_actions = [];
}

abbrev empty_db : WorkflowDb
empty_db = record {
  feature = some (obj (field "value" (bool true) end));
  workflows = record { rows = []; next_id = 1 };
  versions = record { rows = []; next_id = 1 };
  runs = record { rows = []; next_id = 1 };
  nodes = record { rows = []; next_id = 1 };
  exec = exec_db;
}

empty_db-IsStored : IsStored empty_db
unfolding find lark_plat.Workflow.Service.Model.version_row
empty_db-IsStored = record {
  keyed = tt;
  runs_keyed = tt;
  below = tt;
  current = λ i w is. cc is;
  valid = λ i v d is. cc is;
}

abbrev one_node : String → Fields
one_node key =
    field "nodes" (arr (cons (obj (field "key" (str key) (field "type" (str "callback") end))) nil))
      end

abbrev creation : WorkflowRequest
creation =
    WorkflowRequest.creates admin
      (record { name = "w"; description = none; kind = none; definition = some (one_node "hook") })

abbrev input : WorkflowRunIn
input = record { trigger_type = none; trigger_ref = end; context = end }

-- a workflow with a run
abbrev started : List WorkflowRequest
started = creation ∷ WorkflowRequest.runs admin 1 "" input ∷ []

-- another version, and the removal of the workflow, which is refused
abbrev later : List WorkflowRequest
later = WorkflowRequest.versions admin 1 (one_node "gate") ∷ WorkflowRequest.deletes admin 1 ∷ []

serve-HistoryStep_example : HistoryStep (history empty_db) (history (serve creation empty_db))
serve-HistoryStep_example = serve-HistoryStep creation empty_db empty_db-IsStored

serve_all-IsStored_example : IsStored (serve_all started empty_db)
serve_all-IsStored_example = serve_all-IsStored started empty_db empty_db-IsStored

abbrev started_db : WorkflowDb
started_db = serve_all started empty_db

abbrev first_run : WorkflowRun
first_run = record {
  run_id = 1;
  workflow_id = 1;
  workflow_version = 1;
  status = RunStatus.pending;
  trigger_type = TriggerType.manual;
  trigger_ref = end;
  context = end;
  started_at = none;
  finished_at = none;
  error = none;
  created_by = some 1;
}

first_run-found : find started_db.runs 1 ≡ some first_run
unfolding lark_plat.Session.◌>>=◌ lark_plat.Features.require_feature lark_plat.Features.feature_on
    truthy get find run_workflow lark_plat.Workflow.Service.Model.workflow_gate
    lark_plat.Session.require_perm lark_plat.Session.has_perm
    lark_plat.Workflow.Service.Model.get_workflow_row lark_plat.Workflow.Service.Runs.run_body
    lark_plat.Workflow.Service.Runs.trigger_of lark_plat.Workflow.Service.Runs.start_keyed
    lark_plat.Workflow.Service.Runs.find_key lark_plat.Workflow.Service.Runs.start_workflow_run
    lark_plat.Workflow.Service.Runs.nodes_of lark_plat.Workflow.Service.Runs.add_nodes
    lark_plat.Workflow.Service.Runs.key_and_type lark_plat.Workflow.Service.Runs.new_node
    lark_plat.Workflow.Service.Runs.new_run lark_plat.Workflow.Service.Runs.node_head
    lark_plat.Workflow.Service.Model.version_row lark_plat.Workflow.Service.Model.save_workflow
    lark_plat.Table.add lark_plat.Workflow.Definition.node_type set_field serve serve_all
    lark_plat.Workflow.Service.Versions.create_workflow
    lark_plat.Workflow.Service.Versions.insert_workflow
    lark_plat.Workflow.Service.Versions.new_workflow
    lark_plat.Workflow.Definition.validate_definition
first_run-found = refl

first_run-definition : history started_db 1 1 ≡ some (one_node "hook")
unfolding lark_plat.Session.◌>>=◌ lark_plat.Features.require_feature lark_plat.Features.feature_on
    truthy get find run_workflow lark_plat.Workflow.Service.Model.workflow_gate
    lark_plat.Session.require_perm lark_plat.Session.has_perm
    lark_plat.Workflow.Service.Model.get_workflow_row lark_plat.Workflow.Service.Runs.run_body
    lark_plat.Workflow.Service.Runs.trigger_of lark_plat.Workflow.Service.Runs.start_keyed
    lark_plat.Workflow.Service.Runs.find_key lark_plat.Workflow.Service.Runs.start_workflow_run
    lark_plat.Workflow.Service.Runs.nodes_of lark_plat.Workflow.Service.Runs.add_nodes
    lark_plat.Workflow.Service.Runs.key_and_type lark_plat.Workflow.Service.Runs.new_node
    lark_plat.Workflow.Service.Runs.new_run lark_plat.Workflow.Service.Runs.node_head
    lark_plat.Workflow.Service.Model.version_row lark_plat.Workflow.Service.Model.save_workflow
    lark_plat.Table.add lark_plat.Workflow.Definition.node_type set_field serve serve_all
    lark_plat.Workflow.Service.Versions.create_workflow
    lark_plat.Workflow.Service.Versions.insert_workflow
    lark_plat.Workflow.Service.Versions.new_workflow
    lark_plat.Workflow.Definition.validate_definition
first_run-definition = refl

serve_all-definition_example :
    (run : WorkflowRun) × (find (serve_all later started_db).runs 1 ≡ some run)
    × (run.workflow_id ≡ 1)
    × (run.workflow_version ≡ 1)
    × (history (serve_all later started_db) 1 1 ≡ some (one_node "hook"))
serve_all-definition_example =
    serve_all-definition later started_db (serve_all-IsStored started empty_db empty_db-IsStored) 1
      first_run 1 (one_node "hook") first_run-found first_run-definition

-- a node that waits for its callback
abbrev hook : NodeStatus → NodeRun
hook status = record {
  node_id = 1;
  node_key = "hook";
  node_type = NodeType.callback;
  status = status;
  exec_task_id = none;
  approval_id = none;
  attempt = 0;
  output = end;
  error = none;
  started_at = none;
  finished_at = none;
  updated_at = none;
  created_at = none;
}

abbrev waiting_db : WorkflowDb
waiting_db = record empty_db {
  workflows = record {
    rows =
        (
          1,
          record {
            name = "w";
            kind = "workflow";
            description = "";
            current_version = 1;
            enabled = 1;
            created_by = 1;
          },
        )
        ∷ [];
    next_id = 2;
  };
  versions = record {
    rows =
        (1, record { workflow_id = 1; version = 1; definition = one_node "hook"; editor_id = 1 })
        ∷ [];
    next_id = 2;
  };
  runs = record { rows = (1, first_run) ∷ []; next_id = 2 };
  nodes = record {
    rows = (1, record { run = 1; node = hook NodeStatus.waiting }) ∷ [];
    next_id = 2;
  };
}

-- every token is that of the node
abbrev port : TokenPort
port = record {
  decode = λ token. some (
      field "type" (str "wf_callback")
        (field "run_id" (str "1") (field "node_key" (str "hook") end)));
  number = λ text. if text == "1" then some 1 else none;
  dumped_size = λ value. 2;
}

abbrev called_db : WorkflowDb
called_db = (request (callback_node port 9 1 "hook" (some "t") null) waiting_db).1

called : request (callback_node port 9 1 "hook" (some "t") null) waiting_db ≡ (ok tt, called_db)
unfolding callback_node lark_plat.Session.◌>>=◌ lark_plat.Features.require_feature
    lark_plat.Features.feature_on truthy get find lark_plat.Workflow.Service.Callback.accepts_token
    lark_plat.Workflow.Service.Callback.equals_int find_node
    lark_plat.Workflow.Service.Callback.complete lark_plat.Workflow.Service.Callback.complete_rows
called = refl

callback_node-once_example :
    (n : NodeRun) × (find_node 1 "hook" waiting_db.nodes.rows ≡ some n)
    × (awaits_callback n ≡ true)
    × (find_node 1 "hook" called_db.nodes.rows
        ≡ some (completed_node 9 (set_field n.output "payload" null) n))
    × ((p : TokenPort) (now : ℕ) (token : Option String) (payload : Json)
        → Refused called_db (request (callback_node p now 1 "hook" token payload) called_db))
callback_node-once_example =
    callback_node-once port 9 1 "hook" (some "t") null waiting_db called_db called

abbrev keyed_db : WorkflowDb
keyed_db = (request (run_workflow admin 1 "k" input) waiting_db).1

keyed_run : request (run_workflow admin 1 "k" input) waiting_db ≡ (ok 2, keyed_db)
unfolding lark_plat.Session.◌>>=◌ lark_plat.Features.require_feature lark_plat.Features.feature_on
    truthy get find run_workflow lark_plat.Workflow.Service.Model.workflow_gate
    lark_plat.Session.require_perm lark_plat.Session.has_perm
    lark_plat.Workflow.Service.Model.get_workflow_row lark_plat.Workflow.Service.Runs.run_body
    lark_plat.Workflow.Service.Runs.trigger_of lark_plat.Workflow.Service.Runs.start_keyed
    lark_plat.Workflow.Service.Runs.find_key lark_plat.Workflow.Service.Runs.start_workflow_run
    lark_plat.Workflow.Service.Runs.nodes_of lark_plat.Workflow.Service.Runs.add_nodes
    lark_plat.Workflow.Service.Runs.key_and_type lark_plat.Workflow.Service.Runs.new_node
    lark_plat.Workflow.Service.Runs.new_run lark_plat.Workflow.Service.Runs.node_head
    lark_plat.Workflow.Service.Model.version_row lark_plat.Workflow.Service.Model.save_workflow
    lark_plat.Table.add lark_plat.Workflow.Definition.node_type set_field
keyed_run = refl

run_workflow-again_example : request (run_workflow admin 1 "k" input) keyed_db ≡ (ok 2, keyed_db)
unfolding lark_plat.Session.has_perm lark_plat.Workflow.Service.Runs.trigger_of
run_workflow-again_example =
    run_workflow-again admin admin 1 "k" input input 2 waiting_db keyed_db TriggerType.manual refl
      keyed_run refl refl

-- the workflow has a second version, which is the current one
abbrev second : WorkflowRow
second = record {
  name = "w";
  kind = "workflow";
  description = "";
  current_version = 2;
  enabled = 1;
  created_by = 1;
}

abbrev second_db : WorkflowDb
second_db = record waiting_db {
  workflows = record { rows = (1, second) ∷ []; next_id = 2 };
  versions = record {
    rows =
        (1, record { workflow_id = 1; version = 1; definition = one_node "hook"; editor_id = 1 })
        ∷ (2, record { workflow_id = 1; version = 2; definition = one_node "gate"; editor_id = 1 })
        ∷ [];
    next_id = 3;
  };
}

abbrev retried_db : WorkflowDb
retried_db = (request (retry_run admin 1) second_db).1
