-- ===== src/Workflow/Service/Kept.antt =====
-- The requests on runs of backend/app/services/workflow_service.py leave the workflows and their
-- versions alone, and remove no run.
use mathlib.Core.Path.{subst}
use lark_plat.Prelude.{
  if_yes, if_no, some_injective, ℕ, ◌≡◌, refl, sym, ap, ◌∙◌, arith, String, Bool, true, false,
  Option, none, some, List, ◌==◌, nat_eq, string_eq, nat_beq_iff, if◌then◌else◌, Bool-cases, inl,
  inr,
}
use lark_plat.Json.{Fields, get}
use lark_plat.Errors.{ok, err, bad_request, conflict, ◌>>=◌, >>=-eq-ok}
use lark_plat.Session.{CurrentUser}
use lark_plat.Table.{Table, find, put, add, IsKeyed, find-put, find-add}
use lark_plat.Table.Keyed.{add-IsKeyed, put-IsKeyed, find-below}
use lark_plat.Workflow.Model.{WorkflowRun, WorkflowRow, VersionRow, NodeRow, TriggerType}
use lark_plat.Workflow.Service.Model.{WorkflowDb, version_row}
use lark_plat.Workflow.Service.Runs.{
  RunAction, apply_run_transition, nodes_of, add_nodes, new_run, start_workflow_run, WorkflowRunIn,
  trigger_of, find_key, start_keyed, run_body, cancel_run_body, run_allowed, run_target,
}
use lark_plat.Workflow.Service.Callback.{complete_rows, complete}
use lark_plat.Exec.Held.{ok-injective}

-- the workflows and versions are the same, and a run that was there stays, with its workflow and
-- version
abbrev pub SameHistory : WorkflowDb → WorkflowDb → Type 0
SameHistory s s' =
    (s'.workflows ≡ s.workflows)
    × (s'.versions ≡ s.versions)
    × (IsKeyed s.runs → IsKeyed s'.runs)
    × (IsKeyed s.runs
        → (r : ℕ) (run : WorkflowRun) → find s.runs r ≡ some run
        → (run' : WorkflowRun) × (find s'.runs r ≡ some run')
          × (run'.workflow_id ≡ run.workflow_id)
          × (run'.workflow_version ≡ run.workflow_version))

same_history : (s : WorkflowDb) → SameHistory s s
same_history s = (refl, refl, λ k. k, λ k r run is. (run, is, refl, refl))

-- a run that is added, with a fresh key
find-add_old :
    (t : Table WorkflowRun) (x run : WorkflowRun) (r : ℕ)
    → IsKeyed t
    → find t r ≡ some run
    → find (add t x) r ≡ some run
find-add_old t x run r keyed is =
    let lt = find-below t r keyed is in ground (arith, lt, find-add t x r keyed, is)

-- a run that is changed
find-put_old :
    (t : Table WorkflowRun) (i r : ℕ) (x x' run : WorkflowRun)
    → find t i ≡ some x
    → x'.workflow_id ≡ x.workflow_id
    → x'.workflow_version ≡ x.workflow_version
    → find t r ≡ some run
    → (run' : WorkflowRun) × (find (put t i x') r ≡ some run')
      × (run'.workflow_id ≡ run.workflow_id)
      × (run'.workflow_version ≡ run.workflow_version)
find-put_old t i r x x' run x_is e₁ e₂ is = elim (Bool-cases (i == r)) [
  | inl same ↦
      let at = subst (λ k. find t k ≡ some run) (sym ((nat_beq_iff i r).0 same)) is in
      let e = some_injective (sym x_is ∙ at) in
      (
        x',
        find-put t i r x' x_is ∙ if_yes _ _ same,
        e₁ ∙ ap (λ (y : WorkflowRun). y.workflow_id) e,
        e₂ ∙ ap (λ (y : WorkflowRun). y.workflow_version) e,
      )
  | inr other ↦ (run, find-put t i r x' x_is ∙ if_no _ _ other ∙ is, refl, refl)
]

apply_run_transition-same :
    (run : WorkflowRun) (action : RunAction) {moved : WorkflowRun}
    → apply_run_transition run action ≡ ok moved
    → (moved.workflow_id ≡ run.workflow_id) × (moved.workflow_version ≡ run.workflow_version)
unfolding apply_run_transition
apply_run_transition-same run action h = moved_by (run_allowed action run.status) h
  where
    moved_by :
        (b : Bool) {moved : WorkflowRun}
        → (if b then ok (record run { status = run_target action }) else err conflict) ≡ ok moved
        → (moved.workflow_id ≡ run.workflow_id) × (moved.workflow_version ≡ run.workflow_version)
    moved_by true h =
        let e = sym (ok-injective h) in
        (ap (λ (y : WorkflowRun). y.workflow_id) e, ap (λ (y : WorkflowRun). y.workflow_version) e)
    moved_by false h = cc

module _ (s : WorkflowDb) where
  pub start_workflow_run-SameHistory :
      (user : CurrentUser) (i : ℕ) (w : WorkflowRow) (d : Fields) (t : TriggerType)
      (ref ctx : Fields) {k : ℕ} {s' : WorkflowDb}
      → start_workflow_run user i w d t ref ctx s ≡ ok (k, s')
      → SameHistory s s'
  unfolding start_workflow_run
  start_workflow_run-SameHistory user i w d t ref ctx h =
      let (defs, e, more) = >>=-eq-ok (nodes_of (get d "nodes")) _ h in
      let (nodes, f, done) = >>=-eq-ok (add_nodes s.runs.next_id defs s.nodes) _ more in
      subst (λ x. SameHistory s x) (ap (λ x. x.1) (ok-injective done))
        (
          refl,
          refl,
          λ k. add-IsKeyed s.runs (new_run user s.runs.next_id i w t ref ctx) k,
          λ k r run is. (
            run,
            find-add_old s.runs (new_run user s.runs.next_id i w t ref ctx) run r k is,
            refl,
            refl,
          ),
        )

  start_keyed-SameHistory :
      (user : CurrentUser) (i : ℕ) (w : WorkflowRow) (d : Fields) (t : TriggerType) (key : String)
      (input : WorkflowRunIn) (found : Option ℕ) {k : ℕ} {s' : WorkflowDb}
      → start_keyed user i w d t key input found s ≡ ok (k, s')
      → SameHistory s s'
  unfolding start_keyed
  start_keyed-SameHistory user i w d t key input (some x) h =
      subst (λ x. SameHistory s x) (ap (λ x. x.1) (ok-injective h)) (same_history s)
  start_keyed-SameHistory user i w d t key input none h =
      start_workflow_run-SameHistory user i w d t _ input.context h

  pub run_body-SameHistory :
      (user : CurrentUser) (i : ℕ) (w : WorkflowRow) (key : String) (input : WorkflowRunIn) {k : ℕ}
      {s' : WorkflowDb}
      → run_body user i w key input s ≡ ok (k, s')
      → SameHistory s s'
  unfolding run_body
  run_body-SameHistory user i w key input h =
      started (version_row i w.current_version s.versions.rows) h
    where
      with_type :
          (d : Fields) (t : TriggerType) (b : Bool) {k : ℕ} {s' : WorkflowDb}
          → (if b
              then start_workflow_run user i w d t input.trigger_ref input.context s
              else start_keyed user i w d t key input (find_key i key s.runs.rows) s)
            ≡ ok (k, s')
          → SameHistory s s'
      with_type d t true h =
          start_workflow_run-SameHistory user i w d t input.trigger_ref input.context h
      with_type d t false h =
          start_keyed-SameHistory user i w d t key input (find_key i key s.runs.rows) h

      started :
          (v : Option VersionRow) {k : ℕ} {s' : WorkflowDb}
          → elim v [
            | none ↦ err bad_request
            | some v ↦ trigger_of input.trigger_type >>= λ type.
                if key == ""
                then start_workflow_run user i w v.definition type input.trigger_ref input.context s
                else start_keyed user i w v.definition type key input (find_key i key s.runs.rows) s
          ]
            ≡ ok (k, s')
          → SameHistory s s'
      started none h = cc
      started (some v) h =
          let (t, e, more) = >>=-eq-ok (trigger_of input.trigger_type) _ h in
          with_type v.definition t (key == "") more

  pub cancel_run_body-SameHistory :
      (now r : ℕ) (run : WorkflowRun) {s' : WorkflowDb}
      → find s.runs r ≡ some run
      → cancel_run_body now r run s ≡ ok s'
      → SameHistory s s'
  unfolding cancel_run_body
  cancel_run_body-SameHistory now r run is h =
      let (moved, e, done) = >>=-eq-ok (apply_run_transition run RunAction.cancel) _ h in
      let (e₁, e₂) = apply_run_transition-same run RunAction.cancel e in
      let x = record moved { finished_at = some now } in
      subst (λ y. SameHistory s y) (ok-injective done)
        (
          refl,
          refl,
          λ k. put-IsKeyed s.runs r x k,
          λ k q old q_is. find-put_old s.runs r q run x old is e₁ e₂ q_is,
        )

  pub complete-SameHistory :
      (now run : ℕ) (key : String) (out : Fields) {s' : WorkflowDb}
      → complete now run key out s ≡ ok s'
      → SameHistory s s'
  unfolding complete
  complete-SameHistory now run key out h =
      let (n, rows) = complete_rows now run key out s.nodes.rows in counted n rows (n == 1) h
    where
      counted :
          (n : ℕ) (rows : List (ℕ × NodeRow)) (b : Bool) {s' : WorkflowDb}
          → (if b then ok (record s { nodes = record s.nodes { rows = rows } }) else err conflict)
            ≡ ok s'
          → SameHistory s s'
      counted n rows true h = subst (λ y. SameHistory s y) (ok-injective h) (same_history s)
      counted n rows false h = cc
