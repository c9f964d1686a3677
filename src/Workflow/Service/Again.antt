-- ===== src/Workflow/Service/Again.antt =====
-- A run of backend/app/services/workflow_service.py that is asked for again with its idempotency key.
use lark_plat.Prelude.{
  ℕ, ◌≡◌, refl, ap, ◌∙◌, arith, String, Bool, true, false, Option, none, some, List, [], ◌∷◌, ◌++◌,
  ◌==◌, nat_eq, string_eq, nat_beq_iff, if◌then◌else◌,
}
use mathlib.Core.Path.{subst}
use lark_plat.Json.{Json, Fields, field, end, str, get, put as set_field}
use lark_plat.Errors.{AppError, Result, ok, err, bad_request, >>=-eq-ok}
use lark_plat.Session.{
  CurrentUser, has_perm, request, ◌>>=◌, ◌>>◌, require_perm, commit, query, pure, modify, fetch,
  require,
}
use lark_plat.Session.After.{Leaves}
use lark_plat.Features.{feature_on, require_feature}
use lark_plat.Table.{Table, find, add}
use lark_plat.Workflow.Model.{WorkflowRun, WorkflowRow, VersionRow, TriggerType}
use lark_plat.Workflow.Service.Model.{
  WorkflowDb, version_row, workflow_gate, get_workflow_row, save_workflow,
}
use lark_plat.Workflow.Service.Runs.{
  nodes_of, add_nodes, new_run, start_workflow_run, WorkflowRunIn, trigger_of, is_text, find_key,
  start_keyed, run_body,
}
use lark_plat.Workflow.Service.Requests.{run_workflow}
use lark_plat.Workflow.Service.After.{after-workflow_gate, after-workflow, after-save_workflow}
use lark_plat.Exec.Held.{ok-injective}

pub raised_answers : {B : Type 0} (e : AppError) {k : ℕ} → ◌≡◌ {A = Result ℕ} (err e) (ok k) → B
raised_answers e h = cc

-- what a request that starts a run, or finds one, has read
abbrev Read : CurrentUser → ℕ → String → WorkflowRunIn → WorkflowDb → ℕ → WorkflowDb → Type 0
Read user i key input s k s' =
    (feature_on s.feature ≡ true)
    × (has_perm user "workflow:run" ≡ true)
    × (w : WorkflowRow) × (find s.workflows i ≡ some w)
    × (run_body user i w key input s ≡ ok (k, s'))

abbrev ReadBy :
    CurrentUser → ℕ → String → WorkflowRunIn → WorkflowDb → Result ℕ × WorkflowDb → Type 0
ReadBy user i key input s out = (k : ℕ) → out.0 ≡ ok k → Read user i key input s k out.1

ok_same : {a b : ℕ} → ok a ≡ ok b → a ≡ b
ok_same h = ok-injective h

module _ (user : CurrentUser) (i : ℕ) (key : String) (input : WorkflowRunIn) (s : WorkflowDb) where
  run_workflow-Read : Leaves (ReadBy user i key input s) (run_workflow user i key input) s
  unfolding run_workflow
  run_workflow-Read =
      after-workflow_gate (ReadBy user i key input s) s user _ _ (λ e k h. raised_answers e h)
        λ on may.
          after-workflow (ReadBy user i key input s) s i _ (λ e k h. raised_answers e h)
            λ w is.
              after-save_workflow (ReadBy user i key input s) s _ (λ e k h. raised_answers e h)
                λ k s' done q answers. (
                  on,
                  may,
                  w,
                  is,
                  subst (λ n. run_body user i w key input s ≡ ok (n, s')) (ok_same answers) done,
                )

  run_workflow-answers :
      (w : WorkflowRow) (k : ℕ) (s' : WorkflowDb)
      → feature_on s.feature ≡ true
      → has_perm user "workflow:run" ≡ true
      → find s.workflows i ≡ some w
      → run_body user i w key input s ≡ ok (k, s')
      → request (run_workflow user i key input) s ≡ (ok k, s')
  unfolding run_workflow workflow_gate get_workflow_row save_workflow require_feature require_perm
      lark_plat.Session.◌>>=◌
  run_workflow-answers w k s' on may is done = rw (on, may, is, done) refl

string_same : (k : String) → (k == k) ≡ true
string_same k = (string_eq.test_iff k k).1 refl

get-put : (f : Fields) (k : String) (v : Json) → get (set_field f k v) k ≡ v
unfolding get set_field
get-put end k v = ground (arith, string_same k)
get-put (field l x f) k v = ground (arith, string_same k, get-put f k v)

find_key-append :
    (i : ℕ) (key : String) (rows : List (ℕ × WorkflowRun)) (k : ℕ) (run : WorkflowRun)
    → find_key i key rows ≡ none
    → run.workflow_id ≡ i
    → is_text (get run.trigger_ref "idempotency_key") key ≡ true
    → find_key i key (rows ++ (k, run) ∷ []) ≡ some k
unfolding find_key
find_key-append i key [] k run free e is =
    let same = (nat_beq_iff run.workflow_id i).1 e in ground (arith, same, is)
find_key-append i key ((m, x) ∷ rows) k run free e is =
    ground (arith, free, find_key-append i key rows k run)

-- what a run with a key leaves: the run is found by its key, and nothing else that a request reads
-- is new
abbrev Keyed : ℕ → String → ℕ → WorkflowDb → WorkflowDb → Type 0
Keyed i key k s s' =
    (find_key i key s'.runs.rows ≡ some k)
    × (s'.versions ≡ s.versions)
    × (s'.workflows ≡ s.workflows)
    × (s'.feature ≡ s.feature)

module _ (user : CurrentUser) (i : ℕ) (w : WorkflowRow) (key : String) (input : WorkflowRunIn)
    (s : WorkflowDb) where
  start_keyed-Keyed :
      (d : Fields) (t : TriggerType) (found : Option ℕ) {k : ℕ} {s' : WorkflowDb}
      → find_key i key s.runs.rows ≡ found
      → start_keyed user i w d t key input found s ≡ ok (k, s')
      → Keyed i key k s s'
  unfolding start_keyed start_workflow_run add new_run
  start_keyed-Keyed d t (some x) is h =
      let e = ok-injective h in
      subst (λ (y : ℕ × WorkflowDb). Keyed i key y.0 s y.1) e (is, refl, refl, refl)
  start_keyed-Keyed d t none is h =
      let (defs, e, more) = >>=-eq-ok (nodes_of (get d "nodes")) _ h in
      let (nodes, f, done) = >>=-eq-ok (add_nodes s.runs.next_id defs s.nodes) _ more in
      subst (λ (y : ℕ × WorkflowDb). Keyed i key y.0 s y.1) (ok-injective done)
        (
          find_key-append i key s.runs.rows s.runs.next_id
              (new_run user s.runs.next_id i w t
                (set_field input.trigger_ref "idempotency_key" (str key)) input.context)
              is refl
              (ap (λ x. is_text x key) (get-put input.trigger_ref "idempotency_key" (str key))
                ∙ string_same key),
          refl,
          refl,
          refl,
        )

  -- the version was there, and the run is found by its key
  run_body-Keyed :
      {k : ℕ} {s' : WorkflowDb}
      → (key == "") ≡ false
      → run_body user i w key input s ≡ ok (k, s')
      → (v : VersionRow) × (version_row i w.current_version s.versions.rows ≡ some v)
        × Keyed i key k s s'
  unfolding run_body
  run_body-Keyed named h = with_version (version_row i w.current_version s.versions.rows) refl h
    where
      with_key :
          (d : Fields) (t : TriggerType) (b : Bool) {k : ℕ} {s' : WorkflowDb}
          → b ≡ false
          → (if b
              then start_workflow_run user i w d t input.trigger_ref input.context s
              else start_keyed user i w d t key input (find_key i key s.runs.rows) s)
            ≡ ok (k, s')
          → Keyed i key k s s'
      with_key d t true named h = cc
      with_key d t false named h = start_keyed-Keyed d t (find_key i key s.runs.rows) refl h

      with_version :
          (v : Option VersionRow) {k : ℕ} {s' : WorkflowDb}
          → version_row i w.current_version s.versions.rows ≡ v
          → elim v [
            | none ↦ err bad_request
            | some v ↦ lark_plat.Errors.◌>>=◌ (trigger_of input.trigger_type) λ type.
                if key == ""
                then start_workflow_run user i w v.definition type input.trigger_ref input.context s
                else start_keyed user i w v.definition type key input (find_key i key s.runs.rows) s
          ]
            ≡ ok (k, s')
          → (v : VersionRow) × (version_row i w.current_version s.versions.rows ≡ some v)
            × Keyed i key k s s'
      with_version none is h = cc
      with_version (some v) is h =
          let (t, e, more) = >>=-eq-ok (trigger_of input.trigger_type) _ h in
          (v, is, with_key v.definition t (key == "") named more)

  -- a run that is found by its key
  run_body-found :
      (v : VersionRow) (t : TriggerType) (k : ℕ)
      → (key == "") ≡ false
      → version_row i w.current_version s.versions.rows ≡ some v
      → trigger_of input.trigger_type ≡ ok t
      → find_key i key s.runs.rows ≡ some k
      → run_body user i w key input s ≡ ok (k, s)
  unfolding run_body start_keyed
  run_body-found v t k named v_is t_is found =
      ap
        (λ (o : Option VersionRow). elim o as (λ o. Result (ℕ × WorkflowDb)) [
          | none ↦ err bad_request
          | some v ↦ lark_plat.Errors.◌>>=◌ (trigger_of input.trigger_type) λ type.
              if key == ""
              then start_workflow_run user i w v.definition type input.trigger_ref input.context s
              else start_keyed user i w v.definition type key input (find_key i key s.runs.rows) s
        ])
        v_is
      ∙ rw (t_is, named, found) refl

-- Once a request to run a workflow with a nonempty idempotency key has been answered, any further one
-- with the same key for the same workflow, by anyone who may run workflows and with any input whose
-- trigger type is known, is answered with the same run and changes nothing.
pub run_workflow-again :
    (user user' : CurrentUser) (i : ℕ) (key : String) (input input' : WorkflowRunIn) (k : ℕ)
    (s s' : WorkflowDb) (t : TriggerType)
    → (key == "") ≡ false
    → request (run_workflow user i key input) s ≡ (ok k, s')
    → has_perm user' "workflow:run" ≡ true
    → trigger_of input'.trigger_type ≡ ok t
    → request (run_workflow user' i key input') s' ≡ (ok k, s')
unfolding Leaves
run_workflow-again user user' i key input input' k s s' t named h may' t_is =
    let (on, may, w, is, done) =
      subst (ReadBy user i key input s) h (run_workflow-Read user i key input s) k refl in
    let (v, v_is, keyed) = run_body-Keyed user i w key input s named done in
    let (found, e₁, e₂, e₃) = keyed in
    run_workflow-answers user' i key input' s' w k s' (ap feature_on e₃ ∙ on) may'
      (ap (λ (t : Table WorkflowRow). find t i) e₂ ∙ is)
      (run_body-found user' i w key input' s' v t k named
        (ap (λ (t : Table VersionRow). version_row i w.current_version t.rows) e₁ ∙ v_is) t_is
        found)
