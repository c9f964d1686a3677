-- ===== src/Exec/After.antt =====
-- What the requests of backend/app/services/exec_service.py answer and leave: one rule for each of
-- the three, from the computations that they save.
use lark_plat.Prelude.{
  ℕ, ◌≡◌, refl, Bool, true, false, ◌||◌, Option, none, some, if◌then◌else◌, Bool-cases, inl, inr,
}
use lark_plat.Errors.{AppError, not_found, forbidden, Result, ok, err}
use lark_plat.Statuses.{TaskStatus}
use lark_plat.Session.{Db, CurrentUser, pure, query, or_raise, require, has_perm, ◌>>=◌, ◌>>◌}
use lark_plat.Session.After.{Leaves, after-require, after-require_perm, after-written_save}
use lark_plat.Table.{find}
use lark_plat.Approval.Model.{ExecTask}
use lark_plat.Exec.Model.{ExecDb, queued, is_running}
use lark_plat.Exec.Create.{ExecEnv, ExecRequest, Created}
use lark_plat.Exec.Hold.{create_body}
use lark_plat.Exec.Cancel.{cancel_or_conflict, retry_body}
use lark_plat.Exec.Service.{
  save_all, create_exec_task_record, kick_off_exec, scoped, create_task, is_own, own_task,
  is_stoppable, stop_task, can_retry, retry_task,
}

module _ {A B : Type 0} (P : Result B × ExecDb → Type 0) (db : ExecDb) where
  saved :
      (x : Result (A × ExecDb)) (k : A → Db ExecDb B)
      → ((e : AppError) → P (err e, db))
      → ((a : A) (s : ExecDb) → x ≡ ok (a, s) → Leaves P (k a) s)
      → Leaves P (((λ s. (x, s)) >>= save_all) >>= k) db
  unfolding Leaves save_all ◌>>=◌
  saved (err e) k h g = h e
  saved (ok (a, s)) k h g = g a s refl

  -- a computation that is saved as a whole
  pub after-save_all :
      (body : ExecDb → Result (A × ExecDb)) (k : A → Db ExecDb B)
      → ((e : AppError) → P (err e, db))
      → ((a : A) (s : ExecDb) → body db ≡ ok (a, s) → Leaves P (k a) s)
      → Leaves P ((query body >>= save_all) >>= k) db
  unfolding Leaves save_all ◌>>=◌
  after-save_all body k h g = saved (body db) k h g

module _ {B : Type 0} (P : Result B × ExecDb → Type 0) (db : ExecDb) where
  pub after-kick_off :
      (i : ℕ) (m : Db ExecDb B) → Leaves P m (queued i db) → Leaves P (kick_off_exec i >> m) db
  unfolding Leaves kick_off_exec ◌>>=◌
  after-kick_off i m h = h

  -- the answer, after the task was handed over or not
  after-started :
      (b : Bool) (i : ℕ) (a : B)
      → P (ok a, db)
      → P (ok a, queued i db)
      → Leaves P ((if b then kick_off_exec i else pure tt) >> pure a) db
  unfolding Leaves kick_off_exec ◌>>=◌
  after-started true i a h k = k
  after-started false i a h k = h

  found_own :
      (user : CurrentUser) (o : Option ExecTask) (k : ExecTask → Db ExecDb B)
      → ((e : AppError) → P (err e, db))
      → ((x : ExecTask)
          → o ≡ some x
          → (user.is_admin || is_own x.created_by user.id) ≡ true
          → Leaves P (k x) db)
      → Leaves P
          (((λ s. or_raise not_found s o) >>= λ (x : ExecTask).
              require (user.is_admin || is_own x.created_by user.id) forbidden >> pure x)
            >>= k)
          db
  unfolding Leaves ◌>>=◌
  found_own user none k h g = h _
  found_own user (some x) k h g = elim (Bool-cases (user.is_admin || is_own x.created_by user.id)) [
    | inl e ↦ rw e (g x refl e)
    | inr e ↦ rw e (h _)
  ]

  pub after-own_task :
      (user : CurrentUser) (i : ℕ) (k : ExecTask → Db ExecDb B)
      → ((e : AppError) → P (err e, db))
      → ((x : ExecTask)
          → find db.shared.tasks i ≡ some x
          → (user.is_admin || is_own x.created_by user.id) ≡ true
          → Leaves P (k x) db)
      → Leaves P (own_task user i >>= k) db
  unfolding Leaves own_task ◌>>=◌
  after-own_task user i k h g = found_own user (find db.shared.tasks i) k h g

recorded :
    (P : Result Created × ExecDb → Type 0) (db : ExecDb) (x : Result (Created × ExecDb))
    → ((e : AppError) → P (err e, db))
    → ((c : Created) (s : ExecDb) → x ≡ ok (c, s) → P (ok c, s))
    → Leaves P ((λ s. (x, s)) >>= save_all) db
unfolding Leaves save_all ◌>>=◌
recorded P db (err e) h g = h e
recorded P db (ok (c, s)) h g = g c s refl

pub after-create_exec_task_record :
    (P : Result Created × ExecDb → Type 0) (env : ExecEnv) (r : ExecRequest) (db : ExecDb)
    → ((e : AppError) → P (err e, db))
    → ((c : Created) (s : ExecDb) → create_body env r db ≡ ok (c, s) → P (ok c, s))
    → Leaves P (create_exec_task_record env r) db
unfolding Leaves create_exec_task_record save_all ◌>>=◌
after-create_exec_task_record P env r db h g = recorded P db (create_body env r db) h g

pub after-create_task :
    (P : Result Created × ExecDb → Type 0) (env : ExecEnv) (user : CurrentUser) (r : ExecRequest)
    (db : ExecDb)
    → ((e : AppError) → P (err e, db))
    → ((c : Created) (s : ExecDb)
        → has_perm user "exec:task:run" ≡ true
        → create_body env (scoped user r) db ≡ ok (c, s)
        → P (ok c, s) × P (ok c, queued c.id s))
    → Leaves P (create_task env user r) db
unfolding create_task create_exec_task_record
after-create_task P env user r db h g = after-require_perm P db user _ _ h λ may.
    after-save_all P db (create_body env (scoped user r)) _ h λ c s made.
      after-started P s (is_running c.status) c.id c (g c s may made).0 (g c s may made).1

pub after-stop_task :
    (P : Result (Unit {0}) × ExecDb → Type 0) (user : CurrentUser) (now i : ℕ) (db : ExecDb)
    → ((e : AppError) → P (err e, db))
    → ((x : ExecTask) (s : ExecDb)
        → find db.shared.tasks i ≡ some x
        → (user.is_admin || is_own x.created_by user.id) ≡ true
        → is_stoppable x.status ≡ true
        → cancel_or_conflict now i x db ≡ ok s
        → P (ok tt, s))
    → Leaves P (stop_task user now i) db
unfolding stop_task
after-stop_task P user now i db h g = after-require_perm P db user _ _ h λ may.
    after-own_task P db user i _ h λ x is own.
      after-require P db _ _ _ h λ can.
        after-written_save P db (cancel_or_conflict now i x) h λ s made. g x s is own can made

pub after-retry_task :
    (P : Result TaskStatus × ExecDb → Type 0) (env : ExecEnv) (user : CurrentUser) (i : ℕ)
    (db : ExecDb)
    → ((e : AppError) → P (err e, db))
    → ((x : ExecTask) (status : TaskStatus) (s : ExecDb)
        → find db.shared.tasks i ≡ some x
        → can_retry x.status ≡ true
        → retry_body env user.id i x db ≡ ok (status, s)
        → P (ok status, s) × P (ok status, queued i s))
    → Leaves P (retry_task env user i) db
unfolding retry_task
after-retry_task P env user i db h g = after-require_perm P db user _ _ h λ may.
    after-own_task P db user i _ h λ x is own. after-require P db _ _ _ h λ can.
      after-save_all P db (retry_body env user.id i x) _ h λ status s made.
        after-started P s (is_running status) i status (g x status s is can made).0
          (g x status s is can made).1
