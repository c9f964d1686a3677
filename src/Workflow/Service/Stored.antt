-- ===== src/Workflow/Service/Stored.antt =====
-- What the requests of backend/app/services/workflow_service.py do to the versions of workflows.
use lark_plat.Prelude.{
  if_no, ℕ, ◌+◌, ◌<◌, ◌≡◌, refl, sym, ap, ◌∙◌, arith, false, some, All, ◌==◌, nat_eq,
}
use lark_plat.Json.{Fields}
use lark_plat.Session.{CurrentUser}
use lark_plat.Table.{find, put, add, IsKeyed}
use lark_plat.Table.Keyed.{add-IsKeyed, put-IsKeyed, find-below}
use lark_plat.Workflow.Model.{WorkflowRow, VersionRow, WorkflowRun}
use lark_plat.Workflow.Service.Model.{WorkflowDb, next_version}
use lark_plat.Workflow.Service.Versions.{
  WorkflowCreate, definition_of, new_workflow, new_version, insert_workflow, is_referenced,
  without_workflow, insert_version,
}
use lark_plat.Workflow.Service.History.{
  history, definition_at, IsValidated, HistoryStep, version_row-next, version_row-below,
}
use lark_plat.Workflow.Service.Rows.{
  All-below, All-snoc, All-drop, put_current, add_current, find_row-drop, drop_workflow-IsKeyed,
  if_found, gone, append-Extends, Extends-valid, Extends-there, Extends-kept, unused_other,
  Extends-new,
}

-- the keys are in order, a version belongs to a workflow with a smaller key than the next, the
-- current version of a workflow exists, and every stored definition passes the validation
pub record IsStored (s : WorkflowDb) : Type 0 where
  pub keyed : IsKeyed s.workflows
  pub runs_keyed : IsKeyed s.runs
  pub below : All (λ (r : ℕ × VersionRow). r.1.workflow_id < s.workflows.next_id) s.versions.rows
  pub current :
      (i : ℕ) (w : WorkflowRow)
      → find s.workflows i ≡ some w
      → (d : Fields) × (history s i w.current_version ≡ some d)
  pub valid : (i v : ℕ) (d : Fields) → history s i v ≡ some d → IsValidated d

-- a run stays with its workflow and its version, and the workflow keeps its versions
abbrev pub Pinned : WorkflowDb → WorkflowDb → Type 0
Pinned s s' =
    (r : ℕ) (run : WorkflowRun)
    → find s.runs r ≡ some run
    → (run' : WorkflowRun) × (find s'.runs r ≡ some run')
      × (run'.workflow_id ≡ run.workflow_id)
      × (run'.workflow_version ≡ run.workflow_version)
      × ((v : ℕ) (d : Fields)
          → history s run.workflow_id v ≡ some d
          → history s' run.workflow_id v ≡ some d)

-- what one request does
abbrev pub Keeps : WorkflowDb → WorkflowDb → Type 0
Keeps s s' = IsStored s' × HistoryStep (history s) (history s') × Pinned s s'

pub unchanged : (s : WorkflowDb) → IsStored s → Keeps s s
unchanged s stored =
    (stored, HistoryStep.kept (λ i v. refl), λ r run is. (run, is, refl, refl, λ v d at. at))

module _ (s : WorkflowDb) (stored : IsStored s) where
  -- a workflow row changes, and its current version exists
  pub put_workflow-Keeps :
      (i : ℕ) (w w' : WorkflowRow) (d : Fields)
      → find s.workflows i ≡ some w
      → history s i w'.current_version ≡ some d
      → Keeps s (record s { workflows = put s.workflows i w' })
  unfolding put
  put_workflow-Keeps i w w' d is there = (
    record {
      keyed = put-IsKeyed s.workflows i w' stored.keyed;
      below = stored.below;
      current = λ j x x_is.
          put_current s.workflows i j w w' x is x_is
            (λ k y. (e : Fields) × (history s k y.current_version ≡ some e)) (d, there)
            (λ y_is. stored.current j x y_is);
      runs_keyed = stored.runs_keyed;
      valid = stored.valid;
    },
    HistoryStep.kept (λ j v. refl),
    λ r run r_is. (run, r_is, refl, refl, λ v e at. at),
  )

  pub insert_version-Keeps :
      (user : CurrentUser) (i : ℕ) (w : WorkflowRow) (d : Fields)
      → find s.workflows i ≡ some w
      → IsValidated d
      → Keeps s (insert_version user i w d (next_version i s.versions.rows) s)
  unfolding insert_version add put
  insert_version-Keeps user i w d is ok_d =
      let v = next_version i s.versions.rows in
      let s' = insert_version user i w d v s in
      let r = new_version user i v d in
      let fresh = version_row-next i s.versions.rows in
      let ext = append-Extends s s' s.versions.next_id r refl fresh in
      (
        record {
          keyed = put-IsKeyed s.workflows i (record w { current_version = v }) stored.keyed;
          below =
              All-snoc s.workflows.next_id s.versions.next_id r s.versions.rows
                (find-below s.workflows i stored.keyed is) stored.below;
          current = λ j x x_is.
              put_current s.workflows i j w (record w { current_version = v }) x is x_is
                (λ k y. (e : Fields) × (history s' k y.current_version ≡ some e))
                (d, Extends-new (history s) (history s') i v d ext)
                (λ y_is.
                  let (e, at) = stored.current j x y_is in
                  Extends-there (history s) (history s') i v d ext j x.current_version e at);
          runs_keyed = stored.runs_keyed;
          valid = Extends-valid (history s) (history s') i v d ext ok_d stored.valid;
        },
        HistoryStep.appended i v d (ap definition_at fresh) ok_d ext,
        λ q run q_is. (
          run,
          q_is,
          refl,
          refl,
          λ u e at.
              Extends-kept (history s) (history s') i v d ext (ap definition_at fresh)
                run.workflow_id u e at,
        ),
      )

  pub insert_workflow-Keeps :
      (user : CurrentUser) (c : WorkflowCreate)
      → IsValidated (definition_of c.definition)
      → Keeps s (insert_workflow user c s)
  unfolding insert_workflow add new_workflow
  insert_workflow-Keeps user c ok_d =
      let i = s.workflows.next_id in
      let d = definition_of c.definition in
      let s' = insert_workflow user c s in
      let r = new_version user i 1 d in
      let fresh = version_row-below i 1 s.versions.rows stored.below in
      let ext = append-Extends s s' s.versions.next_id r refl fresh in
      (
        record {
          keyed = add-IsKeyed s.workflows (new_workflow user c) stored.keyed;
          below =
              All-snoc (i + 1) s.versions.next_id r s.versions.rows (omega arith)
                (All-below i (i + 1) s.versions.rows (omega arith) stored.below);
          current = λ j x x_is.
              add_current s.workflows j (new_workflow user c) x stored.keyed x_is
                (λ k y. (e : Fields) × (history s' k y.current_version ≡ some e))
                (d, Extends-new (history s) (history s') i 1 d ext)
                (λ y_is.
                  let (e, at) = stored.current j x y_is in
                  Extends-there (history s) (history s') i 1 d ext j x.current_version e at);
          runs_keyed = stored.runs_keyed;
          valid = Extends-valid (history s) (history s') i 1 d ext ok_d stored.valid;
        },
        HistoryStep.appended i 1 d (ap definition_at fresh) ok_d ext,
        λ q run q_is. (
          run,
          q_is,
          refl,
          refl,
          λ u e at.
              Extends-kept (history s) (history s') i 1 d ext (ap definition_at fresh)
                run.workflow_id u e at,
        ),
      )

  pub without_workflow-Keeps :
      (i : ℕ) → is_referenced i s.runs.rows ≡ false → Keeps s (without_workflow i s)
  unfolding without_workflow find
  without_workflow-Keeps i unused = (
    record {
      keyed = drop_workflow-IsKeyed s.workflows.next_id i s.workflows.rows stored.keyed;
      below = All-drop s.workflows.next_id i s.versions.rows stored.below;
      current = λ j x x_is.
          let (ne, old) = if_found (i == j) _ (sym (find_row-drop i j s.workflows.rows) ∙ x_is) in
          let (d, at) = stored.current j x old in
          (d, gone s i j x.current_version ∙ if_no _ _ ne ∙ at);
      runs_keyed = stored.runs_keyed;
      valid = λ j u d is.
          let (ne, old) = if_found (i == j) _ (sym (gone s i j u) ∙ is) in stored.valid j u d old;
    },
    HistoryStep.dropped i (gone s i),
    λ r run is. (
      run,
      is,
      refl,
      refl,
      λ u e at.
          gone s i run.workflow_id u ∙ if_no _ _ (unused_other i r run s.runs.rows unused is) ∙ at,
    ),
  )
