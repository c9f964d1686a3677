-- ===== src/Exec/Service.antt =====
-- The requests create_task, stop_task and retry_task of backend/app/services/exec_service.py.
use lark_plat.Prelude.{ℕ, Bool, true, false, ◌||◌, Option, none, some, ◌==◌, nat_eq, if◌then◌else◌}
use lark_plat.Json.{Json}
use lark_plat.Errors.{bad_request, forbidden, not_found, ok}
use lark_plat.Statuses.{TaskStatus}
use lark_plat.Session.{
  Db, pure, query, fetch, modify, write, commit, require, CurrentUser, require_perm, ◌>>=◌, ◌>>◌,
}
use lark_plat.Table.{find}
use lark_plat.Approval.Model.{ExecTask}
use lark_plat.Exec.Model.{ExecDb, queued, is_running}
use lark_plat.Exec.Create.{ExecEnv, ExecRequest, Created}
use lark_plat.Exec.Hold.{create_body}
use lark_plat.Exec.Cancel.{cancel_or_conflict, retry_body}

-- the new database of a computation, and its answer
unfoldable pub save_all : {A : Type 0} → (A × ExecDb) → Db ExecDb A
save_all (a, s) = modify (λ x. s) >> (commit >> pure a)

unfoldable pub create_exec_task_record : ExecEnv → ExecRequest → Db ExecDb Created
create_exec_task_record env r = query (create_body env r) >>= save_all

-- _kick_off_exec: the broker is no part of the transaction
unfoldable pub kick_off_exec : ℕ → Db ExecDb Unit
kick_off_exec i s = (ok tt, record { live = queued i s.live; saved = queued i s.saved })

-- the scope of the caller, who is also creator and requester; a request has no remediation
unfoldable pub scoped : CurrentUser → ExecRequest → ExecRequest
scoped user r = record r {
  created_by = some user.id;
  requester_id = some user.id;
  visible_group_ids = if user.is_admin then none else some user.visible_group_ids;
  remediation = Json.null;
}

unfoldable pub create_task : ExecEnv → CurrentUser → ExecRequest → Db ExecDb Created
create_task env user r = do
  require_perm user "exec:task:run"
  result ← create_exec_task_record env (scoped user r)
  if is_running result.status then kick_off_exec result.id else pure tt
  pure result

-- created_by == user.id
abbrev pub is_own : Option ℕ → ℕ → Bool
is_own none u = false
is_own (some v) u = v == u

unfoldable pub own_task : CurrentUser → ℕ → Db ExecDb ExecTask
own_task user i = do
  x ← fetch not_found (λ (s : ExecDb). find s.shared.tasks i)
  require (user.is_admin || is_own x.created_by user.id) forbidden
  pure x

abbrev pub is_stoppable : TaskStatus → Bool
is_stoppable TaskStatus.running = true
is_stoppable TaskStatus.pending = true
is_stoppable _ = false

unfoldable pub stop_task : CurrentUser → ℕ → ℕ → Db ExecDb Unit
stop_task user now i = do
  require_perm user "exec:task:stop"
  x ← own_task user i
  require (is_stoppable x.status) bad_request
  write (cancel_or_conflict now i x)
  commit

abbrev pub can_retry : TaskStatus → Bool
can_retry TaskStatus.failed = true
can_retry TaskStatus.timed_out = true
can_retry TaskStatus.canceled = true
can_retry _ = false

unfoldable pub retry_task : ExecEnv → CurrentUser → ℕ → Db ExecDb TaskStatus
retry_task env user i = do
  require_perm user "exec:task:retry"
  x ← own_task user i
  require (can_retry x.status) bad_request
  status ← query (retry_body env user.id i x) >>= save_all
  if is_running status then kick_off_exec i else pure tt
  pure status
