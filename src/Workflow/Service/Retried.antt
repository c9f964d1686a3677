-- ===== src/Workflow/Service/Retried.antt =====
-- What `retry_run` of backend/app/services/workflow_service.py makes of a run.
use lark_plat.Prelude.{ℕ, ◌≡◌, some, nat_eq, List}
use lark_plat.Json.{Json, Fields, get}
use lark_plat.Errors.{Result, ok}
use lark_plat.Table.{find}
use lark_plat.Workflow.Model.{WorkflowRun, WorkflowRow}
use lark_plat.Workflow.Service.Model.{WorkflowDb, version_row}
use lark_plat.Workflow.Service.Runs.{nodes_of, add_nodes, definition_or_empty}

-- a new run of the version v of a workflow, with nodes of a definition
pub Starts : ℕ → Fields → ℕ → WorkflowDb → WorkflowDb → Type 0
Starts v d k s s' =
    (run : WorkflowRun) × (find s'.runs k ≡ some run)
    × (run.workflow_version ≡ v)
    × (defs : List Json) × (nodes_of (get d "nodes") ≡ ok defs)
    × (add_nodes k defs s.nodes ≡ ok s'.nodes)

-- what a retry that is answered has read and made
Retries : ℕ → ℕ → WorkflowDb → WorkflowDb → Type 0
Retries r k s s' =
    (run : WorkflowRun) × (w : WorkflowRow) × (find s.runs r ≡ some run)
    × (find s.workflows run.workflow_id ≡ some w)
    × Starts w.current_version
        (definition_or_empty (version_row run.workflow_id run.workflow_version s.versions.rows)) k s
        s'

abbrev RetriedBy : ℕ → WorkflowDb → Result ℕ × WorkflowDb → Type 0
RetriedBy r s out = (k : ℕ) → out.0 ≡ ok k → Retries r k s out.1
