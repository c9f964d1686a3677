-- ===== src/Workflow/Service/Model.antt =====
-- The state of backend/app/services/workflow_service.py, and the queries of its helpers.
use lark_plat.Prelude.{
  ℕ, ◌+◌, String, ◌&&◌, Option, none, some, List, [], ◌∷◌, ltb, ◌==◌, nat_eq, string_eq,
  if◌then◌else◌,
}
use lark_plat.Json.{Json}
use lark_plat.Errors.{not_found}
use lark_plat.Session.{Db, fetch, modify, commit, pure, CurrentUser, require_perm, ◌>>◌}
use lark_plat.Features.{require_feature}
use lark_plat.Table.{Table, find}
use lark_plat.Workflow.Model.{WorkflowRun, WorkflowRow, VersionRow, NodeRow}
use lark_plat.Exec.Model.{ExecDb}

pub record WorkflowDb : Type 0 where
  pub feature : Option Json
  pub workflows : Table WorkflowRow
  pub versions : Table VersionRow
  pub runs : Table WorkflowRun
  pub nodes : Table NodeRow
  pub exec : ExecDb

-- _require_feature, require_perm
unfoldable pub workflow_gate : CurrentUser → String → Db WorkflowDb Unit
workflow_gate user perm = require_feature (λ (s : WorkflowDb). s.feature) >> require_perm user perm

-- _get_workflow
unfoldable pub get_workflow_row : ℕ → Db WorkflowDb WorkflowRow
get_workflow_row i = fetch not_found (λ (s : WorkflowDb). find s.workflows i)

-- _version_row
unfoldable pub version_row : ℕ → ℕ → List (ℕ × VersionRow) → Option VersionRow
version_row workflow version [] = none
version_row workflow version ((k, v) ∷ rows) =
    let rest = version_row workflow version rows in
    if v.workflow_id == workflow && v.version == version then some v else rest

-- max(version) of the rows of a workflow, 0 where it has none
unfoldable pub max_version : ℕ → List (ℕ × VersionRow) → ℕ
max_version workflow [] = 0
max_version workflow ((k, v) ∷ rows) =
    let rest = max_version workflow rows in
    if v.workflow_id == workflow && ltb rest v.version then v.version else rest

-- _next_version
unfoldable pub next_version : ℕ → List (ℕ × VersionRow) → ℕ
next_version workflow rows = max_version workflow rows + 1

-- the new database of a computation, and its answer
unfoldable pub save_workflow : {A : Type 0} → A × WorkflowDb → Db WorkflowDb A
save_workflow (a, s) = modify (λ x. s) >> (commit >> pure a)
