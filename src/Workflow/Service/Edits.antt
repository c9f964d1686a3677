-- ===== src/Workflow/Service/Edits.antt =====
-- The requests of backend/app/services/workflow_service.py on workflows and versions keep what is
-- stored well-formed.
use lark_plat.Prelude.{ℕ, ap, nat_eq}
use lark_plat.Json.{Fields, obj}
use lark_plat.Errors.{AppError, Result, not_found}
use lark_plat.Session.{CurrentUser}
use lark_plat.Session.After.{
  Leaves, after-require, after-gets, after-lift, after-fetch, after-write, after-save,
}
use lark_plat.Workflow.Definition.{validate_definition}
use lark_plat.Workflow.Service.Model.{WorkflowDb}
use lark_plat.Workflow.Service.Versions.{
  WorkflowCreate, definition_of, create_workflow, WorkflowUpdate, edited_workflow, update_workflow,
  delete_workflow, create_version, rollback_workflow,
}
use lark_plat.Workflow.Service.History.{definition_at}
use lark_plat.Workflow.Service.After.{after-workflow_gate, after-workflow}
use lark_plat.Workflow.Service.Rows.{validated, not-true}
use lark_plat.Workflow.Service.Stored.{
  IsStored, Keeps, unchanged, put_workflow-Keeps, insert_version-Keeps, insert_workflow-Keeps,
  without_workflow-Keeps,
}

-- each request, in each of its outcomes
abbrev pub KeptBy : {A : Type 0} → WorkflowDb → Result A × WorkflowDb → Type 0
KeptBy s out = Keeps s out.1

module _ (user : CurrentUser) (s : WorkflowDb) (stored : IsStored s) where
  same : (e : AppError) → Keeps s s
  same e = unchanged s stored

  pub create_workflow-Keeps : (c : WorkflowCreate) → Leaves (KeptBy s) (create_workflow user c) s
  unfolding create_workflow
  create_workflow-Keeps c = after-workflow_gate (KeptBy s) s user _ _ same λ on may.
      after-gets (KeptBy s) s _ _ (
        after-require (KeptBy s) s _ _ _ same λ free.
          after-lift (KeptBy s) s (validate_definition (obj (definition_of c.definition))) _ same
            λ d checked. after-gets (KeptBy s) s _ _ (
              after-write (KeptBy s) s _ _ (
                insert_workflow-Keeps s stored user c
                  (validated (definition_of c.definition) checked))))

  pub update_workflow-Keeps :
      (i : ℕ) (u : WorkflowUpdate) → Leaves (KeptBy s) (update_workflow user i u) s
  unfolding update_workflow edited_workflow
  update_workflow-Keeps i u = after-workflow_gate (KeptBy s) s user _ _ same λ on may.
      after-workflow (KeptBy s) s i _ same λ w is. after-gets (KeptBy s) s _ _ (
        after-require (KeptBy s) s _ _ _ same λ free. after-save (KeptBy s) s _ (
          let (d, at) = stored.current i w is in
          put_workflow-Keeps s stored i w (edited_workflow u w) d is at))

  pub delete_workflow-Keeps : (i : ℕ) → Leaves (KeptBy s) (delete_workflow user i) s
  unfolding delete_workflow
  delete_workflow-Keeps i = after-workflow_gate (KeptBy s) s user _ _ same λ on may.
      after-workflow (KeptBy s) s i _ same λ w is. after-gets (KeptBy s) s _ _ (
        after-require (KeptBy s) s _ _ _ same
          λ free. after-save (KeptBy s) s _ (without_workflow-Keeps s stored i (not-true free)))

  pub create_version-Keeps : (i : ℕ) (d : Fields) → Leaves (KeptBy s) (create_version user i d) s
  unfolding create_version
  create_version-Keeps i d = after-workflow_gate (KeptBy s) s user _ _ same λ on may.
      after-workflow (KeptBy s) s i _ same λ w is.
        after-lift (KeptBy s) s (validate_definition (obj d)) _ same λ e checked.
          after-gets (KeptBy s) s _ _ (
            after-write (KeptBy s) s _ _
              (insert_version-Keeps s stored user i w d is (validated d checked)))

  pub rollback_workflow-Keeps :
      (i version : ℕ) → Leaves (KeptBy s) (rollback_workflow user i version) s
  unfolding rollback_workflow
  rollback_workflow-Keeps i version = after-workflow_gate (KeptBy s) s user _ _ same λ on may.
      after-workflow (KeptBy s) s i _ same λ w is.
        after-fetch (KeptBy s) s _ _ _ (same not_found) λ v at. after-save (KeptBy s) s _ (
          put_workflow-Keeps s stored i w (record w { current_version = version }) v.definition is
            (ap definition_at at))
