-- ===== src/Workflow/Engine/Step.antt =====
-- `step`: one tick of a run. The instant of the tick is one number; `_broadcast` is not modelled.
use lark_plat.Prelude.{
  ℕ, String, Bool, true, false, not, ◌&&◌, ◌||◌, List, [], ◌∷◌, all, elem, map, Option, none, some,
  ◌==◌, string_eq, if◌then◌else◌,
}
use lark_plat.Json.{Json, Fields}
use lark_plat.Session.{Db, pure, gets, modify, commit, ◌>>=◌, ◌>>◌}
use lark_plat.Workflow.Definition.{NodeDef}
use lark_plat.Workflow.Model.{
  RunStatus, NodeStatus, NodeRun, WorkflowRun, run_terminal, node_terminal,
}
use lark_plat.Workflow.Engine.Verdict.{find_def}
use lark_plat.Workflow.Engine.Timeout.{config_of, first}
use lark_plat.Workflow.Engine.Port.{Port, RunDb}
use lark_plat.Workflow.Engine.Nodes.{activate, statuses_of}
use lark_plat.Workflow.Engine.Advance.{advance_running, advance_waiting}

-- a stored definition: its nodes and `definition.get("defaults") or {}`
pub record Definition : Type 0 where
  pub node_defs : List NodeDef
  pub defaults : Fields

unfoldable pub find_node : List NodeRun → String → Option NodeRun
find_node [] key = none
find_node (n ∷ ns) key = if n.node_key == key then some n else find_node ns key

abbrev pub keys : List NodeRun → List String
keys = map (λ n. n.node_key)

abbrev pub is_running : NodeStatus → Bool
is_running NodeStatus.running = true
is_running _ = false

abbrev pub is_waiting : NodeStatus → Bool
is_waiting NodeStatus.waiting = true
is_waiting _ = false

-- a pending run is running from now on
unfoldable pub begin_run : WorkflowRun → ℕ → WorkflowRun
begin_run run now = elim run.status [
  | RunStatus.pending ↦ record run {
    status = RunStatus.running;
    started_at = first run.started_at (some now);
  }
  | _ ↦ run
]

abbrev pub is_pending_run : RunStatus → Bool
is_pending_run RunStatus.pending = true
is_pending_run _ = false

abbrev pub is_cancelled_run : RunStatus → Bool
is_cancelled_run RunStatus.cancelled = true
is_cancelled_run _ = false

abbrev pub not_empty {ℓ} : {A : Type ℓ} → List A → Bool
not_empty [] = false
not_empty (x ∷ xs) = true

-- failed[0], if there is a failed node
unfoldable pub first_failed : List NodeRun → Option NodeRun
first_failed [] = none
first_failed (n ∷ ns) =
    let rest = first_failed ns in elim n.status [ NodeStatus.failed ↦ some n | _ ↦ rest ]

-- failed[0].error or "workflow node failed"
abbrev pub error_of : Option String → String
error_of none = "workflow node failed"
error_of (some e) = if e == "" then "workflow node failed" else e

-- the run, when all nodes are done
unfoldable pub finish : WorkflowRun → Option NodeRun → ℕ → WorkflowRun
finish run none now = record run { status = RunStatus.succeeded; finished_at = some now }
finish run (some n) now = record run {
  status = RunStatus.failed;
  error = some (error_of n.error);
  finished_at = some now;
}

unfoldable pub is_finished : RunStatus → List NodeRun → Bool
is_finished status ns =
    not (is_cancelled_run status) && (not_empty ns && all (λ n. node_terminal n.status) ns)

module _ {W : Type 0} (port : Port W) (now : ℕ) (d : Definition) where
  abbrev pub config : String → Json
  config key = config_of (find_def d.node_defs key)

  -- the body of the second loop
  unfoldable pub running_node : List String → WorkflowRun → Option NodeRun → Db (RunDb W) Bool
  running_node activated run none = pure false
  running_node activated run (some n) =
      if is_running n.status && not (elem n.node_key activated)
      then advance_running port now n.node_type (config n.node_key) d.defaults run n
      else pure false

  -- the second loop
  unfoldable pub run_running : List String → WorkflowRun → List String → Db (RunDb W) Bool
  unfolding running_node find_node
  run_running activated run [] = pure false
  run_running activated run (key ∷ rest) = do
    node ← gets (λ s. find_node s.nodes key)
    moved ← running_node activated run node
    others ← run_running activated run rest
    pure (moved || others)

  -- the body of the third loop
  unfoldable pub waiting_node : Option NodeRun → Db (RunDb W) Bool
  waiting_node none = pure false
  waiting_node (some n) =
      if is_waiting n.status
      then advance_waiting port now n.node_type (config n.node_key) d.defaults n
      else pure false

  -- the third loop
  unfoldable pub run_waiting : List String → Db (RunDb W) Bool
  unfolding waiting_node find_node
  run_waiting [] = pure false
  run_waiting (key ∷ rest) = do
    node ← gets (λ s. find_node s.nodes key)
    moved ← waiting_node node
    others ← run_waiting rest
    pure (moved || others)

  -- the seam hears of a failed run only
  abbrev pub tell_failure : WorkflowRun → Option NodeRun → W → W
  tell_failure run none w = w
  tell_failure run (some n) w = port.run_failed run w

  unfoldable pub close_run : RunDb W → RunDb W
  unfolding finish first_failed
  close_run s =
      let failed = first_failed s.nodes in
      let run = finish s.run failed now in
      record s { run = run; world = tell_failure run failed s.world }

  unfoldable pub finalise : Db (RunDb W) Bool
  unfolding close_run is_finished
  finalise = do
    done ← gets (λ s. is_finished s.run.status s.nodes)
    if done then modify close_run >> pure true else pure false

  -- `step` once the run is known not to be terminal
  unfoldable pub tick : WorkflowRun → Db (RunDb W) Bool
  unfolding begin_run activate statuses_of run_running run_waiting finalise
  tick run = do
    modify (λ s. record s { run = begin_run s.run now })
    nodes ← gets (λ s. s.nodes)
    let a = activate d.node_defs now (statuses_of nodes) nodes
    modify (λ s. record s { nodes = a.after })
    running ← run_running a.activated (begin_run run now) (keys nodes)
    waiting ← run_waiting (keys nodes)
    finished ← finalise
    commit
    pure (is_pending_run run.status || (a.moved || (running || (waiting || finished))))

  unfoldable pub step : Db (RunDb W) Bool
  unfolding tick
  step = do run ← gets (λ s. s.run); if run_terminal run.status then pure false else tick run
