-- ===== src/Workflow/Service/Requests.antt =====
-- The requests run_workflow, retry_run and cancel_run of backend/app/services/workflow_service.py.
use lark_plat.Prelude.{ℕ, String}
use lark_plat.Errors.{not_found}
use lark_plat.Session.{Db, query, fetch, write, commit, CurrentUser, ◌>>=◌, ◌>>◌}
use lark_plat.Table.{find}
use lark_plat.Workflow.Model.{WorkflowRun}
use lark_plat.Workflow.Service.Model.{WorkflowDb, workflow_gate, get_workflow_row, save_workflow}
use lark_plat.Workflow.Service.Runs.{WorkflowRunIn, run_body, retry_run_body, cancel_run_body}

unfoldable pub get_run_row : ℕ → Db WorkflowDb WorkflowRun
get_run_row r = fetch not_found (λ (s : WorkflowDb). find s.runs r)

unfoldable pub run_workflow : CurrentUser → ℕ → String → WorkflowRunIn → Db WorkflowDb ℕ
run_workflow user i key input = do
  workflow_gate user "workflow:run"
  w ← get_workflow_row i
  query (run_body user i w key input) >>= save_workflow

unfoldable pub retry_run : CurrentUser → ℕ → Db WorkflowDb ℕ
retry_run user r = do
  workflow_gate user "workflow:run"
  run ← get_run_row r
  w ← get_workflow_row run.workflow_id
  query (retry_run_body user r run w) >>= save_workflow

unfoldable pub cancel_run : CurrentUser → ℕ → ℕ → Db WorkflowDb Unit
cancel_run user now r = do
  workflow_gate user "workflow:cancel"
  run ← get_run_row r
  write (cancel_run_body now r run)
  commit
