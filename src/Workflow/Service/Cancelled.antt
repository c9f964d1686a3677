-- ===== src/Workflow/Service/Cancelled.antt =====
-- What `cancel_run` of backend/app/services/workflow_service.py leaves of a run.
use lark_plat.Prelude.{ℕ, ◌≡◌, true, false, ◌&&◌, some, List, [], ◌∷◌, ◌==◌, nat_eq, ◌⊎◌}
use lark_plat.Errors.{AppError, Result, ok, err}
use lark_plat.Table.{find, put}
use lark_plat.Workflow.Model.{RunStatus, WorkflowRun, NodeRow}
use lark_plat.Workflow.Service.Model.{WorkflowDb}
use lark_plat.Workflow.Service.Runs.{RunAction, run_allowed, is_live_node, skip_node}

-- how the rows of the nodes change: the live ones of the run are skipped, and no other is touched
pub data NodesCancelled (now run : ℕ) : List (ℕ × NodeRow) → List (ℕ × NodeRow) → Type 0 where
  none_left : NodesCancelled now run [] []
  skips :
      (k : ℕ) (r : NodeRow) (rows rows' : List (ℕ × NodeRow))
      → (r.run == run) ≡ true
      → is_live_node r.node.status ≡ true
      → NodesCancelled now run rows rows'
      → NodesCancelled now run ((k, r) ∷ rows) ((k, skip_node now r) ∷ rows')
  keeps :
      (k : ℕ) (r : NodeRow) (rows rows' : List (ℕ × NodeRow))
      → (r.run == run && is_live_node r.node.status) ≡ false
      → NodesCancelled now run rows rows'
      → NodesCancelled now run ((k, r) ∷ rows) ((k, r) ∷ rows')

-- the run that is left
abbrev pub cancelled_run : ℕ → WorkflowRun → WorkflowRun
cancelled_run now run = record run { status = RunStatus.cancelled; finished_at = some now }

-- what a cancellation that is answered has done
pub RunCancelled : ℕ → ℕ → WorkflowDb → WorkflowDb → Type 0
RunCancelled now r s s' =
    (run : WorkflowRun) × (find s.runs r ≡ some run)
    × (run_allowed RunAction.cancel run.status ≡ true)
    × (s'.runs ≡ put s.runs r (cancelled_run now run))
    × (find s'.runs r ≡ some (cancelled_run now run))
    × NodesCancelled now r s.nodes.rows s'.nodes.rows
    × (s'.workflows ≡ s.workflows)
    × (s'.versions ≡ s.versions)

-- the answer of a cancellation
abbrev pub Cancels : ℕ → ℕ → WorkflowDb → Result (Unit {0}) × WorkflowDb → Type 0
Cancels now r s out =
    ((e : AppError) × (out ≡ (err e, s))) ⊎ ((out.0 ≡ ok tt) × RunCancelled now r s out.1)
