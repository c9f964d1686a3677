-- ===== src/Workflow/Service/RunsKept.antt =====
-- The requests on runs of backend/app/services/workflow_service.py keep what is stored well-formed.
use mathlib.Core.Path.{subst}
use lark_plat.Prelude.{ℕ, ◌<◌, All, sym, ap, ◌∙◌, String, Option, nat_eq, string_eq}
use lark_plat.Json.{Json}
use lark_plat.Errors.{not_found}
use lark_plat.Session.{CurrentUser}
use lark_plat.Session.After.{Leaves, after-require, after-fetch, after-written_save}
use lark_plat.Features.After.{after-require_feature}
use lark_plat.Table.{Table, find, IsKeyed}
use lark_plat.Workflow.Model.{WorkflowRow, VersionRow}
use lark_plat.Workflow.Service.Model.{WorkflowDb, version_row}
use lark_plat.Workflow.Service.Runs.{WorkflowRunIn, retry_run_body}
use lark_plat.Workflow.Service.Callback.{TokenPort, callback_node}
use lark_plat.Workflow.Service.Requests.{run_workflow, retry_run, cancel_run}
use lark_plat.Workflow.Service.History.{definition_at, HistoryStep}
use lark_plat.Workflow.Service.After.{
  after-workflow_gate, after-workflow, after-run, after-save_workflow,
}
use lark_plat.Workflow.Service.Stored.{IsStored, Keeps, unchanged}
use lark_plat.Workflow.Service.Edits.{KeptBy}
use lark_plat.Workflow.Service.Kept.{
  SameHistory, start_workflow_run-SameHistory, run_body-SameHistory, cancel_run_body-SameHistory,
  complete-SameHistory,
}

-- the history is the same, and so what is stored stays well-formed
SameHistory-Keeps : (s s' : WorkflowDb) → IsStored s → SameHistory s s' → Keeps s s'
SameHistory-Keeps s s' stored (e₁, e₂, keyed, old) =
    let at =
      λ (j u : ℕ). ap (λ (t : Table VersionRow). definition_at (version_row j u t.rows)) e₂ in
    (
      record {
        keyed = subst (λ t. IsKeyed t) (sym e₁) stored.keyed;
        runs_keyed = keyed stored.runs_keyed;
        below =
            subst
              (λ (t : Table WorkflowRow).
                All (λ (r : ℕ × VersionRow). r.1.workflow_id < t.next_id) s'.versions.rows)
              (sym e₁)
              (subst
                (λ (t : Table VersionRow).
                  All (λ (r : ℕ × VersionRow). r.1.workflow_id < s.workflows.next_id) t.rows)
                (sym e₂) stored.below);
        current = λ j w is.
            let (d, there) =
              stored.current j w (sym (ap (λ (t : Table WorkflowRow). find t j) e₁) ∙ is) in
            (d, at j w.current_version ∙ there);
        valid = λ j u d is. stored.valid j u d (sym (at j u) ∙ is);
      },
      HistoryStep.kept at,
      λ r run is.
          let (run', is', same_workflow, same_version) = old stored.runs_keyed r run is in
          (run', is', same_workflow, same_version, λ v d there. at run.workflow_id v ∙ there),
    )

module _ (user : CurrentUser) (s : WorkflowDb) (stored : IsStored s) where
  pub run_workflow-Keeps :
      (i : ℕ) (key : String) (input : WorkflowRunIn)
      → Leaves (KeptBy s) (run_workflow user i key input) s
  unfolding run_workflow
  run_workflow-Keeps i key input =
      after-workflow_gate (KeptBy s) s user _ _ (λ e. unchanged s stored)
        λ on may.
          after-workflow (KeptBy s) s i _ (λ e. unchanged s stored)
            λ w is.
              after-save_workflow (KeptBy s) s _ (λ e. unchanged s stored)
                λ k s' done.
                  SameHistory-Keeps s s' stored (run_body-SameHistory s user i w key input done)

  pub retry_run-Keeps : (r : ℕ) → Leaves (KeptBy s) (retry_run user r) s
  unfolding retry_run retry_run_body
  retry_run-Keeps r =
      after-workflow_gate (KeptBy s) s user _ _ (λ e. unchanged s stored)
        λ on may.
          after-run (KeptBy s) s r _ (λ e. unchanged s stored)
            λ run is.
              after-workflow (KeptBy s) s run.workflow_id _ (λ e. unchanged s stored)
                λ w w_is.
                  after-save_workflow (KeptBy s) s _ (λ e. unchanged s stored)
                    λ k s' done. SameHistory-Keeps s s' stored (
                      start_workflow_run-SameHistory s user run.workflow_id w _ run.trigger_type _
                        run.context done)

  pub cancel_run-Keeps : (now r : ℕ) → Leaves (KeptBy s) (cancel_run user now r) s
  unfolding cancel_run
  cancel_run-Keeps now r =
      after-workflow_gate (KeptBy s) s user _ _ (λ e. unchanged s stored)
        λ on may.
          after-run (KeptBy s) s r _ (λ e. unchanged s stored)
            λ run is.
              after-written_save (KeptBy s) s _ (λ e. unchanged s stored)
                λ s' done.
                  SameHistory-Keeps s s' stored (cancel_run_body-SameHistory s now r run is done)

pub callback_node-Keeps :
    (p : TokenPort) (now run : ℕ) (key : String) (token : Option String) (payload : Json)
    (s : WorkflowDb)
    → IsStored s
    → Leaves (KeptBy s) (callback_node p now run key token payload) s
unfolding callback_node
callback_node-Keeps p now run key token payload s stored =
    after-require_feature (KeptBy s) s (λ (s : WorkflowDb). s.feature) _ (λ e. unchanged s stored)
      λ on. after-fetch (KeptBy s) s not_found _ _ (unchanged s stored) λ x x_is.
        after-require (KeptBy s) s _ _ _ (λ e. unchanged s stored)
          λ valid_token. after-fetch (KeptBy s) s not_found _ _ (unchanged s stored) λ n n_is.
            after-require (KeptBy s) s _ _ _ (λ e. unchanged s stored)
              λ waits.
                after-require (KeptBy s) s _ _ _ (λ e. unchanged s stored)
                  λ small.
                    after-written_save (KeptBy s) s _ (λ e. unchanged s stored)
                      λ s' done.
                        SameHistory-Keeps s s' stored (complete-SameHistory s now run key _ done)
