-- ===== src/Workflow/Samples.antt =====
-- The theorems on workflows at concrete definitions and runs.
use lark_plat.Prelude.{
  ◌⊎◌, ◌≤◌, String, ◌≡◌, refl, ◌↔◌, arith, true, false, List, [], ◌∷◌, none, some, string_eq,
}
use lark_plat.Json.{
  Json, null, num, str, arr, obj, end, field, nil, cons, Fields, Items, get, has, items, truthy,
}
use lark_plat.Errors.{ok, err, validation}
use lark_plat.Session.{request}
use lark_plat.Statuses.{TaskStatus}
use lark_plat.Workflow.Dag.{Edge, targets, assert_acyclic}
use lark_plat.Workflow.Dag.Correct.{EndsIn, IsAcyclic, Cyclic, assert_acyclic_decides}
use lark_plat.Workflow.Definition.{NodeType, NodeDef, validate_definition}
use lark_plat.Workflow.Definition.Valid.{validate_definition-IsValid}
use lark_plat.Workflow.Definition.Nodes.{IsValid}
use lark_plat.Workflow.Model.{RunStatus, NodeStatus, TriggerType, NodeRun, WorkflowRun}
use lark_plat.Workflow.Engine.Verdict.{ready, verdict, find_def, succ_sources, fail_sources}
use lark_plat.Workflow.Engine.Port.{Port, RunDb}
use lark_plat.Workflow.Engine.Timeout.{timeout_sec}
use lark_plat.Workflow.Engine.Nodes.{statuses_of}
use lark_plat.Workflow.Engine.Step.{Definition, step, find_node}
use lark_plat.Workflow.Engine.Progress.{Evolves, step-Evolves}
use lark_plat.Workflow.Engine.Route.{is_open, verdict-ready_iff}
use lark_plat.Workflow.Engine.Order.{step-IsOrdered}
use lark_plat.Workflow.Engine.Grows.{IsOrdered}
use lark_plat.Workflow.Engine.Bounds.{timeout_sec-bound}
use lark_plat.Workflow.Engine.Hang.{IsCrossed, IsBlocked, ticks, crossed_nodes_hang}

-- the edges of two nodes in a row
abbrev two_edges : List Edge
two_edges = ("build", "deploy") ∷ []

abbrev two_keys : List String
two_keys = "build" ∷ "deploy" ∷ []

two_edges-EndsIn : EndsIn two_keys two_edges
unfolding targets
two_edges-EndsIn = λ n m h. ground (arith, h)

assert_acyclic_decides_example :
    ((assert_acyclic two_keys two_edges ≡ ok tt) × IsAcyclic two_edges)
    ⊎ ((assert_acyclic two_keys two_edges ≡ err validation) × Cyclic two_edges)
assert_acyclic_decides_example = assert_acyclic_decides two_keys two_edges two_edges-EndsIn

abbrev node_json : String → String → Items → Json
node_json key type deps =
    obj (field "key" (str key) (field "type" (str type) (field "depends_on" (arr deps) end)))

abbrev two_nodes : Items
two_nodes =
    cons (node_json "build" "exec_task" nil)
      (cons (node_json "deploy" "callback" (cons (str "build") nil)) nil)

abbrev two_node_definition : Fields
two_node_definition = field "nodes" (arr two_nodes) end

two_node_definition-ok :
    validate_definition (obj two_node_definition) ≡ ok (obj two_node_definition)
unfolding validate_definition get truthy
two_node_definition-ok = refl

validate_definition-IsValid_example :
    (xs : Items) × (obj two_node_definition ≡ obj two_node_definition)
    × (get two_node_definition "nodes" ≡ arr xs)
    × IsValid (items xs)
validate_definition-IsValid_example =
    validate_definition-IsValid two_node_definition two_node_definition-ok

abbrev def : String → List String → List String → NodeDef
def key deps succs = record {
  key = key;
  depends_on = deps;
  on_success = succs;
  on_failure = [];
  config = null;
}

abbrev two_defs : List NodeDef
two_defs = def "build" [] [] ∷ def "deploy" ("build" ∷ []) [] ∷ []

abbrev node : String → NodeStatus → NodeRun
node key status = record {
  node_id = 1;
  node_key = key;
  node_type = NodeType.exec_task;
  status = status;
  exec_task_id = none;
  approval_id = none;
  attempt = 0;
  output = end;
  error = none;
  started_at = none;
  finished_at = none;
  updated_at = none;
  created_at = none;
}

abbrev run : WorkflowRun
run = record {
  run_id = 1;
  workflow_id = 1;
  workflow_version = 1;
  status = RunStatus.running;
  trigger_type = TriggerType.manual;
  trigger_ref = end;
  context = end;
  started_at = none;
  finished_at = none;
  error = none;
  created_by = none;
}

abbrev db : List NodeRun → RunDb Unit
db ns = record { run = run; nodes = ns; world = tt }

-- every task succeeds at once
abbrev port : Port Unit
port = record {
  texts = record { int_of = λ s. none; float_of = λ s. none; instant_of = λ v. none };
  create_exec = λ call w. ok (record { task = 7; approve_required = false; approval = none }, w);
  dispatch = λ task w. w;
  task_status = λ task w. some TaskStatus.success;
  add_approval = λ r n w. (3, w);
  approval_status = λ a w. none;
  callback_info = λ r n now. null;
  run_failed = λ r w. w;
}

abbrev half_done : List NodeRun
half_done = node "build" NodeStatus.succeeded ∷ node "deploy" NodeStatus.pending ∷ []

abbrev two : Definition
two = record { node_defs = two_defs; defaults = end }

step-Evolves_example : Evolves half_done (request (step port 5 two) (db half_done)).1.nodes
step-Evolves_example = step-Evolves port 5 two (db half_done)

half_done-IsOrdered : IsOrdered two_defs half_done
unfolding find_node find_def succ_sources fail_sources statuses_of
half_done-IsOrdered = record { at = λ key n found entered. ground (arith, found, entered) }

step-IsOrdered_example : IsOrdered two_defs (request (step port 5 two) (db half_done)).1.nodes
step-IsOrdered_example = step-IsOrdered port 5 two (db half_done) half_done-IsOrdered

verdict-ready_iff_example :
    (verdict "deploy" two_defs (statuses_of half_done) ≡ ready)
    ↔ (is_open "deploy" two_defs (statuses_of half_done) ≡ true)
verdict-ready_iff_example = verdict-ready_iff "deploy" two_defs (statuses_of half_done)

abbrev crossed_defs : List NodeDef
crossed_defs = def "a" ("b" ∷ []) ("b" ∷ []) ∷ def "b" [] [] ∷ []

abbrev both_pending : List NodeRun
both_pending = node "a" NodeStatus.pending ∷ node "b" NodeStatus.pending ∷ []

crossed : IsCrossed crossed_defs "a" "b"
unfolding find_def succ_sources fail_sources
crossed = record {
  a_deps = refl;
  b_deps = refl;
  a_succ = refl;
  b_succ = refl;
  a_fail = refl;
  b_fail = refl;
}

blocked : IsBlocked "a" "b" (statuses_of both_pending)
unfolding statuses_of
blocked = record { first = refl; second = refl }

crossed_nodes_hang_example : IsBlocked "a" "b" (
    statuses_of
      (ticks port
        (record { node_defs = crossed_defs; defaults = end })
        (5 ∷ 6 ∷ [])
        (db both_pending)).nodes)
crossed_nodes_hang_example =
    crossed_nodes_hang port (5 ∷ 6 ∷ []) (record { node_defs = crossed_defs; defaults = end }) "a"
      "b" (db both_pending) crossed blocked

abbrev long_config : Fields
long_config = field "timeout_sec" (num 999999) end

long_timeout : timeout_sec port.texts long_config end NodeType.callback ≡ some 86400
unfolding timeout_sec get has
long_timeout = refl

timeout_sec-bound_example : 86400 ≤ 86400
timeout_sec-bound_example =
    timeout_sec-bound port.texts long_config end NodeType.callback long_timeout
