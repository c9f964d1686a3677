-- ===== src/Exec/Dispatch.antt =====
-- The run of a task on its hosts: `exec_dispatch` and `scan_timeouts` of
-- backend/app/tasks/exec_tasks.py, and `_persist_result` with `_maybe_finalize_task` of
-- backend/app/ws/agent_ws.py. A worker holds no lock while a host runs: each part that ends with a
-- commit is a function of the database at that time. The semaphores are in redis; `granted` says
-- which host rows get both of theirs.
use lark_plat.Prelude.{
  ℕ, ◌+◌, Bool, true, false, ◌&&◌, ◌||◌, Option, none, some, List, [], ◌∷◌, length, ltb, ◌==◌,
  nat_eq, string_eq, if◌then◌else◌,
}
use lark_plat.Json.{Json, Fields, str, get, has}
use lark_plat.Statuses.{TaskStatus}
use lark_plat.Table.{Table, find, put}
use lark_plat.Approval.Model.{ExecTask}
use lark_plat.Exec.Model.{
  HostStatus, ExecTaskHost, ExecDb, queued, is_running, optimistic_update, set_task, by_task,
}
use lark_plat.Exec.Cancel.{is_live, update_hosts, end_host}

abbrev pub host_code : HostStatus → ℕ
host_code HostStatus.pending = 0
host_code HostStatus.running = 1
host_code HostStatus.success = 2
host_code HostStatus.failed = 3
host_code HostStatus.timed_out = 4
host_code HostStatus.canceled = 5

abbrev pub has_status : HostStatus → ExecTaskHost → Bool
has_status s h = host_code h.status == host_code s

-- stats.get(status, 0)
unfoldable pub count : HostStatus → List (ℕ × ExecTaskHost) → ℕ
count s [] = 0
count s ((k, h) ∷ rows) = let rest = count s rows in if has_status s h then rest + 1 else rest

abbrev pub active : List (ℕ × ExecTaskHost) → ℕ
active hosts = count HostStatus.running hosts + count HostStatus.pending hosts

-- the status of a task that none of its hosts runs any more
unfoldable pub aggregate : List (ℕ × ExecTaskHost) → TaskStatus
aggregate hosts =
    let success = count HostStatus.success hosts in
    let ended_well = count HostStatus.failed hosts == 0 && count HostStatus.timed_out hosts == 0 in
    if ended_well && ltb 0 (length hosts) && success == length hosts
    then TaskStatus.success
    else if ended_well && ltb 0 success
    then TaskStatus.partial
    else TaskStatus.failed

abbrev pub save_aggregate : ℕ → ℕ → ExecDb → Option (Table ExecTask) → ExecDb
save_aggregate now i s none = s
save_aggregate now i s (some t) = record s {
  shared = record s.shared { tasks = set_task i (λ x. record x { finished_at = some now }) t };
}

-- a task with hosts that still wait is handed to the broker again, where there is one
abbrev pub redo : Bool → ℕ → List (ℕ × ExecTaskHost) → ExecDb → ExecDb
redo broker i hosts s = if ltb 0 (count HostStatus.pending hosts) && broker then queued i s else s

-- the end of exec_dispatch, from the second reading of the task
unfoldable pub fold_found : Bool → ℕ → ℕ → Option ExecTask → ExecDb → ExecDb
fold_found broker now i none s = s
fold_found broker now i (some x) s =
    let hosts = by_task i s.task_hosts.rows in
    let moved = optimistic_update i TaskStatus.running (aggregate hosts) x.version s.shared.tasks in
    if is_running x.status
    then if ltb 0 (active hosts) then redo broker i hosts s else save_aggregate now i s moved
    else s

unfoldable pub fold_dispatch : Bool → ℕ → ℕ → ExecDb → ExecDb
fold_dispatch broker now i s = fold_found broker now i (find s.shared.tasks i) s

abbrev pub can_finalize : TaskStatus → Bool
can_finalize TaskStatus.running = true
can_finalize TaskStatus.pending = true
can_finalize _ = false

abbrev pub no_hosts : List (ℕ × ExecTaskHost) → Bool
no_hosts [] = true
no_hosts (h ∷ hs) = false

-- the status of a task with the numbers of its rows by status, and of all its rows
unfoldable pub final_status : ℕ → ℕ → ℕ → ℕ → TaskStatus
final_status success failed timed total =
    if failed == 0 && (timed == 0 && (ltb 0 total && success == total))
    then TaskStatus.success
    else if failed == 0 && (timed == 0 && ltb 0 success)
    then TaskStatus.partial
    else TaskStatus.failed

abbrev pub final_of : List (ℕ × ExecTaskHost) → TaskStatus
final_of hosts =
    final_status (count HostStatus.success hosts) (count HostStatus.failed hosts)
      (count HostStatus.timed_out hosts) (length hosts)

unfoldable pub finalize_found : ℕ → ℕ → Option ExecTask → ExecDb → ExecDb
finalize_found now i none s = s
finalize_found now i (some x) s =
    let hosts = by_task i s.task_hosts.rows in
    let moved = optimistic_update i x.status (final_of hosts) x.version s.shared.tasks in
    if can_finalize x.status
    then if no_hosts hosts || ltb 0 (active hosts) then s else save_aggregate now i s moved
    else s

-- _maybe_finalize_task; a running or pending task never has the new status already
unfoldable pub maybe_finalize_task : ℕ → ℕ → ExecDb → ExecDb
maybe_finalize_task now i s = finalize_found now i (find s.shared.tasks i) s

-- the status that an agent reports
abbrev pub reported : Json → HostStatus
reported (str s) =
    if s == "success"
    then HostStatus.success
    else if s == "timed_out"
    then HostStatus.timed_out
    else if s == "canceled" || s == "stopped"
    then HostStatus.canceled
    else HostStatus.failed
reported _ = HostStatus.failed

unfoldable pub result_status : Fields → HostStatus
result_status frame =
    if has frame "status" then reported (get frame "status") else HostStatus.success

abbrev pub end_with : HostStatus → Option ℕ → ℕ → ExecTaskHost → ExecTaskHost
end_with status exit_code now h = record h {
  status = status;
  exit_code = exit_code;
  finished_at = some now;
}

unfoldable pub persist_found : ℕ → ℕ → HostStatus → Option ℕ → Option ExecTaskHost → ExecDb → ExecDb
persist_found now k status exit_code none s = s
persist_found now k status exit_code (some h) s =
    maybe_finalize_task now h.exec_task_id
      (record s { task_hosts = put s.task_hosts k (end_with status exit_code now h) })

-- _persist_result, for the row k
unfoldable pub persist_result : ℕ → ℕ → Fields → Option ℕ → ExecDb → ExecDb
persist_result now k frame exit_code s =
    persist_found now k (result_status frame) exit_code (find s.task_hosts k) s

-- the first loop of exec_dispatch: the rows in their order, until a semaphore is full
unfoldable pub start_rows : (ℕ → Bool) → ℕ → ℕ → List (ℕ × ExecTaskHost) → List (ℕ × ExecTaskHost)
start_rows granted now i [] = []
start_rows granted now i ((k, h) ∷ rows) =
    let rest = start_rows granted now i rows in
    if h.exec_task_id == i && has_status HostStatus.pending h
    then if granted k
      then (k, record h { status = HostStatus.running; started_at = some now }) ∷ rest
      else (k, h) ∷ rows
    else (k, h) ∷ rest

unfoldable pub start_found : (ℕ → Bool) → ℕ → ℕ → Option ExecTask → ExecDb → ExecDb
start_found granted now i none s = s
start_found granted now i (some x) s =
    let rows = start_rows granted now i s.task_hosts.rows in
    if is_running x.status then record s { task_hosts = record s.task_hosts { rows = rows } } else s

unfoldable pub start_hosts : (ℕ → Bool) → ℕ → ℕ → ExecDb → ExecDb
start_hosts granted now i s = start_found granted now i (find s.shared.tasks i) s

-- the guarded update at the end of `_execute_via_mock` and `_run_ssh_executor`: 0 is success
unfoldable pub finish_found : ℕ → ℕ → Bool → Option ExecTaskHost → ExecDb → ExecDb
finish_found now k succeeded none s = s
finish_found now k succeeded (some h) s =
    let status = if succeeded then HostStatus.success else HostStatus.failed in
    if has_status HostStatus.running h
    then record s {
      task_hosts = put s.task_hosts k (end_with status (some (if succeeded then 0 else 1)) now h);
    }
    else s

unfoldable pub finish_host : ℕ → ℕ → Bool → ExecDb → ExecDb
finish_host now k succeeded s = finish_found now k succeeded (find s.task_hosts k) s

-- task.started_at or task.created_at
abbrev pub start_of : ExecTask → ℕ
start_of x = elim x.started_at [ none ↦ x.created_at | some t ↦ t ]

abbrev pub is_overdue : ℕ → ExecTask → Bool
is_overdue now x = ltb (start_of x + x.timeout_sec) now

abbrev pub time_out : ℕ → ℕ → ExecDb → Option (Table ExecTask) → ExecDb
time_out now i s none = s
time_out now i s (some t) = record s {
  shared = record s.shared { tasks = set_task i (λ x. record x { finished_at = some now }) t };
  task_hosts = record s.task_hosts {
    rows = update_hosts i is_live (end_host HostStatus.timed_out now) s.task_hosts.rows;
  };
}

-- one turn of the loop of scan_timeouts, for a row that was read as running
unfoldable pub sweep_task : ℕ → ℕ × ExecTask → ExecDb → ExecDb
sweep_task now (i, x) s =
    let moved = optimistic_update i x.status TaskStatus.timed_out x.version s.shared.tasks in
    if is_overdue now x then time_out now i s moved else s

unfoldable pub running_rows : List (ℕ × ExecTask) → List (ℕ × ExecTask)
running_rows [] = []
running_rows ((i, x) ∷ rows) =
    let rest = running_rows rows in if is_running x.status then (i, x) ∷ rest else rest

unfoldable pub sweep_all : ℕ → List (ℕ × ExecTask) → ExecDb → ExecDb
sweep_all now [] s = s
sweep_all now (r ∷ rows) s = sweep_all now rows (sweep_task now r s)

-- scan_timeouts
unfoldable pub scan_timeouts : ℕ → ExecDb → ExecDb
scan_timeouts now s = sweep_all now (running_rows s.shared.tasks.rows) s
