-- ===== src/Workflow/Engine/Nodes.antt =====
-- `_succeed`, `_fail` and the first loop of `step`, which lets pending nodes enter or skips them.
use lark_plat.Prelude.{
  ℕ, ◌+◌, String, Bool, true, false, ◌||◌, List, [], ◌∷◌, none, some, ◌==◌, string_eq,
  if◌then◌else◌,
}
use lark_plat.Json.{str, num, put}
use lark_plat.Workflow.Definition.{NodeDef}
use lark_plat.Workflow.Model.{NodeStatus, NodeRun}
use lark_plat.Workflow.Engine.Verdict.{Statuses, Verdict, ready, skip, wait, verdict}

unfoldable pub succeed : NodeRun → ℕ → NodeRun
succeed n now = record n { status = NodeStatus.succeeded; finished_at = some now; error = none }

-- _succeed(node, {"exec_task_id": task})
unfoldable pub succeed_exec : NodeRun → ℕ → ℕ → NodeRun
unfolding succeed
succeed_exec n task now = record (succeed n now) { output = put n.output "exec_task_id" (num task) }

-- _fail(node, reason, code): all callers pass one text for both
unfoldable pub fail : NodeRun → String → ℕ → NodeRun
fail n reason now = record n {
  status = NodeStatus.failed;
  error = some reason;
  output = put n.output "reason" (str reason);
  finished_at = some now;
}

abbrev pub is_pending : NodeStatus → Bool
is_pending NodeStatus.pending = true
is_pending _ = false

-- the loop visits pending nodes only; `wait` changes nothing
unfoldable pub verdict_for : NodeRun → List NodeDef → Statuses → Verdict
verdict_for n ds status = if is_pending n.status then verdict n.node_key ds status else wait

unfoldable pub enter : Verdict → NodeRun → ℕ → NodeRun
enter ready n now = record n {
  status = NodeStatus.running;
  attempt = n.attempt + 1;
  started_at = some now;
}
enter skip n now = record n { status = NodeStatus.skipped; finished_at = some now }
enter wait n now = n

-- status[key] = s
unfoldable pub assign : Statuses → String → NodeStatus → Statuses
assign status key s k = if key == k then some s else status k

unfoldable pub mark : Verdict → String → Statuses → Statuses
unfolding assign
mark ready key status = assign status key NodeStatus.running
mark skip key status = assign status key NodeStatus.skipped
mark wait key status = status

-- the set `activated`, and whether a node changed
abbrev pub entered : Verdict → String → List String → List String
entered ready key keys = key ∷ keys
entered _ key keys = keys

abbrev pub changes : Verdict → Bool
changes wait = false
changes _ = true

pub record Activation : Type 0 where
  pub after : List NodeRun
  pub activated : List String
  pub moved : Bool

unfoldable pub activate : List NodeDef → ℕ → Statuses → List NodeRun → Activation
unfolding verdict_for enter mark
activate ds now status [] = record { after = []; activated = []; moved = false }
activate ds now status (n ∷ ns) =
    let v = verdict_for n ds status in
    let rest = activate ds now (mark v n.node_key status) ns in
    record {
      after = enter v n now ∷ rest.after;
      activated = entered v n.node_key rest.activated;
      moved = changes v || rest.moved;
    }

-- {n.node_key: n.status for n in nodes}
unfoldable pub statuses_of : List NodeRun → Statuses
statuses_of [] key = none
statuses_of (n ∷ ns) key = if n.node_key == key then some n.status else statuses_of ns key
