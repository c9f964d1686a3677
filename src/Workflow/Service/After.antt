-- ===== src/Workflow/Service/After.antt =====
-- What the requests of backend/app/services/workflow_service.py answer and leave: the rules for their
-- first steps.
use lark_plat.Prelude.{ℕ, ◌≡◌, refl, String, true, some}
use lark_plat.Errors.{AppError, Result, ok, err}
use lark_plat.Session.{Db, CurrentUser, has_perm, query, ◌>>=◌, ◌>>◌}
use lark_plat.Session.After.{Leaves, after-fetch}
use lark_plat.Features.{feature_on}
use lark_plat.Features.After.{after-feature_gate}
use lark_plat.Table.{find}
use lark_plat.Workflow.Model.{WorkflowRow, WorkflowRun}
use lark_plat.Workflow.Service.Model.{WorkflowDb, workflow_gate, get_workflow_row, save_workflow}
use lark_plat.Workflow.Service.Requests.{get_run_row}

module _ {A : Type 0} (P : Result A × WorkflowDb → Type 0) (db : WorkflowDb) where
  pub after-workflow_gate :
      (user : CurrentUser) (perm : String) (m : Db WorkflowDb A)
      → ((e : AppError) → P (err e, db))
      → (feature_on db.feature ≡ true → has_perm user perm ≡ true → Leaves P m db)
      → Leaves P (workflow_gate user perm >> m) db
  unfolding workflow_gate
  after-workflow_gate user perm m h k =
      after-feature_gate P db (λ (s : WorkflowDb). s.feature) user perm m h k

  pub after-workflow :
      (i : ℕ) (k : WorkflowRow → Db WorkflowDb A)
      → ((e : AppError) → P (err e, db))
      → ((w : WorkflowRow) → find db.workflows i ≡ some w → Leaves P (k w) db)
      → Leaves P (get_workflow_row i >>= k) db
  unfolding get_workflow_row
  after-workflow i k h g = after-fetch P db _ _ k (h _) g

  pub after-run :
      (r : ℕ) (k : WorkflowRun → Db WorkflowDb A)
      → ((e : AppError) → P (err e, db))
      → ((run : WorkflowRun) → find db.runs r ≡ some run → Leaves P (k run) db)
      → Leaves P (get_run_row r >>= k) db
  unfolding get_run_row
  after-run r k h g = after-fetch P db _ _ k (h _) g

  saved :
      (x : Result (A × WorkflowDb))
      → ((e : AppError) → P (err e, db))
      → ((a : A) (s : WorkflowDb) → x ≡ ok (a, s) → P (ok a, s))
      → Leaves P ((λ s. (x, s)) >>= save_workflow) db
  unfolding Leaves save_workflow ◌>>=◌
  saved (err e) h g = h e
  saved (ok (a, s)) h g = g a s refl

  -- a computation that is saved as a whole
  pub after-save_workflow :
      (body : WorkflowDb → Result (A × WorkflowDb))
      → ((e : AppError) → P (err e, db))
      → ((a : A) (s : WorkflowDb) → body db ≡ ok (a, s) → P (ok a, s))
      → Leaves P (query body >>= save_workflow) db
  unfolding Leaves save_workflow ◌>>=◌
  after-save_workflow body h g = saved (body db) h g
