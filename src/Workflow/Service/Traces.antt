-- ===== src/Workflow/Service/Traces.antt =====
-- Sequences of the requests of backend/app/services/workflow_service.py.
use lark_plat.Prelude.{ℕ, ◌≡◌, refl, sym, ◌∙◌, String, Option, some, List, [], ◌∷◌}
use mathlib.Core.Path.{subst}
use lark_plat.Json.{Json, Fields}
use lark_plat.Session.{CurrentUser, request}
use lark_plat.Session.After.{Leaves}
use lark_plat.Table.{find}
use lark_plat.Workflow.Model.{WorkflowRun}
use lark_plat.Workflow.Service.Model.{WorkflowDb}
use lark_plat.Workflow.Service.Versions.{
  WorkflowCreate, create_workflow, WorkflowUpdate, update_workflow, delete_workflow, create_version,
  rollback_workflow,
}
use lark_plat.Workflow.Service.Runs.{WorkflowRunIn}
use lark_plat.Workflow.Service.Callback.{TokenPort, callback_node}
use lark_plat.Workflow.Service.Requests.{run_workflow, retry_run, cancel_run}
use lark_plat.Workflow.Service.History.{history, HistoryStep}
use lark_plat.Workflow.Service.Stored.{IsStored, Keeps}
use lark_plat.Workflow.Service.Edits.{
  create_workflow-Keeps, update_workflow-Keeps, delete_workflow-Keeps, create_version-Keeps,
  rollback_workflow-Keeps,
}
use lark_plat.Workflow.Service.RunsKept.{
  run_workflow-Keeps, retry_run-Keeps, cancel_run-Keeps, callback_node-Keeps,
}

pub data WorkflowRequest : Type 0 where
  creates : CurrentUser → WorkflowCreate → WorkflowRequest
  updates : CurrentUser → ℕ → WorkflowUpdate → WorkflowRequest
  deletes : CurrentUser → ℕ → WorkflowRequest
  versions : CurrentUser → ℕ → Fields → WorkflowRequest
  rolls_back : CurrentUser → ℕ → ℕ → WorkflowRequest
  runs : CurrentUser → ℕ → String → WorkflowRunIn → WorkflowRequest
  retries : CurrentUser → ℕ → WorkflowRequest
  cancels : CurrentUser → ℕ → ℕ → WorkflowRequest
  calls_back : TokenPort → ℕ → ℕ → String → Option String → Json → WorkflowRequest

-- what is left in the database
unfoldable pub serve : WorkflowRequest → WorkflowDb → WorkflowDb
serve (creates user c) s = (request (create_workflow user c) s).1
serve (updates user i u) s = (request (update_workflow user i u) s).1
serve (deletes user i) s = (request (delete_workflow user i) s).1
serve (versions user i d) s = (request (create_version user i d) s).1
serve (rolls_back user i version) s = (request (rollback_workflow user i version) s).1
serve (runs user i key input) s = (request (run_workflow user i key input) s).1
serve (retries user r) s = (request (retry_run user r) s).1
serve (cancels user now r) s = (request (cancel_run user now r) s).1
serve (calls_back p now r key token payload) s =
    (request (callback_node p now r key token payload) s).1

unfoldable pub serve_all : List WorkflowRequest → WorkflowDb → WorkflowDb
serve_all [] s = s
serve_all (q ∷ qs) s = serve_all qs (serve q s)

serve-Keeps : (q : WorkflowRequest) (s : WorkflowDb) → IsStored s → Keeps s (serve q s)
unfolding serve Leaves
serve-Keeps (creates user c) s stored = create_workflow-Keeps user s stored c
serve-Keeps (updates user i u) s stored = update_workflow-Keeps user s stored i u
serve-Keeps (deletes user i) s stored = delete_workflow-Keeps user s stored i
serve-Keeps (versions user i d) s stored = create_version-Keeps user s stored i d
serve-Keeps (rolls_back user i version) s stored = rollback_workflow-Keeps user s stored i version
serve-Keeps (runs user i key input) s stored = run_workflow-Keeps user s stored i key input
serve-Keeps (retries user r) s stored = retry_run-Keeps user s stored r
serve-Keeps (cancels user now r) s stored = cancel_run-Keeps user s stored now r
serve-Keeps (calls_back p now r key token payload) s stored =
    callback_node-Keeps p now r key token payload s stored

-- Seen as a map from a workflow and a version to a definition, the stored versions change by a
-- request of the service, whatever it answers, in one of three ways: not at all; by one version
-- that was not there, with a definition that passes `_validate_definition`; or by the loss of one
-- workflow with all its versions. The database before the request is well-formed.
pub serve-HistoryStep :
    (q : WorkflowRequest) (s : WorkflowDb)
    → IsStored s
    → HistoryStep (history s) (history (serve q s))
serve-HistoryStep q s stored = let (stored', step, pinned) = serve-Keeps q s stored in step

-- Any sequence of requests keeps the database well-formed: the keys of workflows and runs are in
-- order, no version belongs to a workflow key that is yet to be given, the current version of each
-- workflow is stored, and every stored definition passes `_validate_definition`.
pub serve_all-IsStored :
    (qs : List WorkflowRequest) (s : WorkflowDb) → IsStored s → IsStored (serve_all qs s)
unfolding serve_all
serve_all-IsStored [] s stored = stored
serve_all-IsStored (q ∷ qs) s stored = serve_all-IsStored qs (serve q s) (serve-Keeps q s stored).0

-- From a well-formed database, any sequence of requests keeps a stored run, with its workflow and the
-- version it was started with, and keeps each version of that workflow, with its definition.
pub serve_all-definition :
    (qs : List WorkflowRequest) (s : WorkflowDb)
    → IsStored s
    → (r : ℕ) (run : WorkflowRun) (v : ℕ) (d : Fields) → find s.runs r ≡ some run
    → history s run.workflow_id v ≡ some d
    → (run' : WorkflowRun) × (find (serve_all qs s).runs r ≡ some run')
      × (run'.workflow_id ≡ run.workflow_id)
      × (run'.workflow_version ≡ run.workflow_version)
      × (history (serve_all qs s) run.workflow_id v ≡ some d)
unfolding serve_all
serve_all-definition [] s stored r run v d is there = (run, is, refl, refl, there)
serve_all-definition (q ∷ qs) s stored r run v d is there =
    let (stored', step, pinned) = serve-Keeps q s stored in
    let (run₁, is₁, e₁, e₂, same) = pinned r run is in
    let at = subst (λ i. history (serve q s) i v ≡ some d) (sym e₁) (same v d there) in
    let (run₂, is₂, f₁, f₂, there₂) =
      serve_all-definition qs (serve q s) stored' r run₁ v d is₁ at in
    (
      run₂,
      is₂,
      f₁ ∙ e₁,
      f₂ ∙ e₂,
      subst (λ i. history (serve_all qs (serve q s)) i v ≡ some d) e₁ there₂,
    )
