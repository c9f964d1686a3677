-- ===== src/Workflow/Service/Versions.antt =====
-- Workflows and their versions: create_workflow, update_workflow, delete_workflow, create_version and
-- rollback_workflow of backend/app/services/workflow_service.py.
use lark_plat.Prelude.{
  ℕ, String, Bool, false, not, ◌&&◌, Option, none, some, List, [], ◌∷◌, any, ◌==◌, nat_eq,
  string_eq, if◌then◌else◌,
}
use lark_plat.Json.{obj, arr, nil, Fields, field, end}
use lark_plat.Errors.{conflict, not_found}
use lark_plat.Session.{
  Db, pure, lift, gets, fetch, modify, commit, require, CurrentUser, ◌>>=◌, ◌>>◌,
}
use lark_plat.Table.{put, add}
use lark_plat.Workflow.Definition.{validate_definition}
use lark_plat.Workflow.Model.{WorkflowRun, WorkflowRow, VersionRow}
use lark_plat.Workflow.Service.Model.{
  WorkflowDb, workflow_gate, get_workflow_row, version_row, next_version,
}

abbrev pub has_name : String → List (ℕ × WorkflowRow) → Bool
has_name name rows = any (λ (r : ℕ × WorkflowRow). r.1.name == name) rows

-- an optional text, an empty one counting as absent
abbrev pub text_or : String → Option String → String
text_or d none = d
text_or d (some s) = if s == "" then d else s

pub record WorkflowCreate : Type 0 where
  pub name : String
  pub description : Option String
  pub kind : Option String
  pub definition : Option Fields

abbrev pub definition_of : Option Fields → Fields
definition_of none = field "nodes" (arr nil) end
definition_of (some d) = d

unfoldable pub new_workflow : CurrentUser → WorkflowCreate → WorkflowRow
new_workflow user c = record {
  name = c.name;
  kind = text_or "workflow" c.kind;
  description = text_or "" c.description;
  current_version = 1;
  enabled = 1;
  created_by = user.id;
}

abbrev pub new_version : CurrentUser → ℕ → ℕ → Fields → VersionRow
new_version user i version definition = record {
  workflow_id = i;
  version = version;
  definition = definition;
  editor_id = user.id;
}

-- both rows of a new workflow
unfoldable pub insert_workflow : CurrentUser → WorkflowCreate → WorkflowDb → WorkflowDb
insert_workflow user c s = record s {
  workflows = add s.workflows (new_workflow user c);
  versions = add s.versions (new_version user s.workflows.next_id 1 (definition_of c.definition));
}

unfoldable pub create_workflow : CurrentUser → WorkflowCreate → Db WorkflowDb ℕ
create_workflow user c = do
  workflow_gate user "workflow:add"
  taken ← gets (λ (s : WorkflowDb). has_name c.name s.workflows.rows)
  require (not taken) conflict
  checked ← lift (validate_definition (obj (definition_of c.definition)))
  i ← gets (λ (s : WorkflowDb). s.workflows.next_id)
  modify (insert_workflow user c)
  commit
  pure i

pub record WorkflowUpdate : Type 0 where
  pub name : Option String
  pub description : Option String
  pub enabled : Option ℕ

abbrev pub or_old {ℓ} : {A : Type ℓ} → Option A → A → A
or_old none a = a
or_old (some b) a = b

unfoldable pub edited_workflow : WorkflowUpdate → WorkflowRow → WorkflowRow
edited_workflow u w = record w {
  name = or_old u.name w.name;
  description = or_old u.description w.description;
  enabled = or_old u.enabled w.enabled;
}

-- a new name that another workflow has
abbrev pub clashes : Option String → WorkflowRow → List (ℕ × WorkflowRow) → Bool
clashes none w rows = false
clashes (some name) w rows = not (name == w.name) && has_name name rows

unfoldable pub update_workflow : CurrentUser → ℕ → WorkflowUpdate → Db WorkflowDb Unit
update_workflow user i u = do
  workflow_gate user "workflow:edit"
  w ← get_workflow_row i
  taken ← gets (λ (s : WorkflowDb). clashes u.name w s.workflows.rows)
  require (not taken) conflict
  modify (λ (s : WorkflowDb). record s { workflows = put s.workflows i (edited_workflow u w) })
  commit

-- a workflow that has runs
abbrev pub is_referenced : ℕ → List (ℕ × WorkflowRun) → Bool
is_referenced i rows = any (λ (r : ℕ × WorkflowRun). r.1.workflow_id == i) rows

unfoldable pub drop_workflow : ℕ → List (ℕ × WorkflowRow) → List (ℕ × WorkflowRow)
drop_workflow i [] = []
drop_workflow i ((k, w) ∷ rows) =
    let rest = drop_workflow i rows in if k == i then rest else (k, w) ∷ rest

unfoldable pub drop_versions : ℕ → List (ℕ × VersionRow) → List (ℕ × VersionRow)
drop_versions i [] = []
drop_versions i ((k, v) ∷ rows) =
    let rest = drop_versions i rows in if v.workflow_id == i then rest else (k, v) ∷ rest

unfoldable pub without_workflow : ℕ → WorkflowDb → WorkflowDb
without_workflow i s = record s {
  workflows = record s.workflows { rows = drop_workflow i s.workflows.rows };
  versions = record s.versions { rows = drop_versions i s.versions.rows };
}

unfoldable pub delete_workflow : CurrentUser → ℕ → Db WorkflowDb Unit
delete_workflow user i = do
  workflow_gate user "workflow:del"
  w ← get_workflow_row i
  used ← gets (λ (s : WorkflowDb). is_referenced i s.runs.rows)
  require (not used) conflict
  modify (without_workflow i)
  commit

-- the new version, which becomes the current one
unfoldable pub insert_version : CurrentUser → ℕ → WorkflowRow → Fields → ℕ → WorkflowDb → WorkflowDb
insert_version user i w definition version s = record s {
  versions = add s.versions (new_version user i version definition);
  workflows = put s.workflows i (record w { current_version = version });
}

unfoldable pub create_version : CurrentUser → ℕ → Fields → Db WorkflowDb ℕ
create_version user i definition = do
  workflow_gate user "workflow:version"
  w ← get_workflow_row i
  checked ← lift (validate_definition (obj definition))
  version ← gets (λ (s : WorkflowDb). next_version i s.versions.rows)
  modify (insert_version user i w definition version)
  commit
  pure version

unfoldable pub rollback_workflow : CurrentUser → ℕ → ℕ → Db WorkflowDb Unit
rollback_workflow user i version = do
  workflow_gate user "workflow:rollback"
  w ← get_workflow_row i
  v ← fetch not_found (λ (s : WorkflowDb). version_row i version s.versions.rows)
  modify (λ (s : WorkflowDb). record s {
    workflows = put s.workflows i (record w { current_version = version });
  })
  commit
