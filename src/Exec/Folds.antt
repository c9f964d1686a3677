-- ===== src/Exec/Folds.antt =====
-- How the results of the hosts become the status of the task: the end of `exec_dispatch`
-- (backend/app/tasks/exec_tasks.py) and `_maybe_finalize_task` (backend/app/ws/agent_ws.py).
use lark_plat.Prelude.{
  ℕ, ◌+◌, ◌≤◌, ◌<◌, ◌≡◌, refl, sym, ap, ◌∙◌, arith, Bool, true, ◌↔◌, ◌⊎◌, inl, inr, some, List, [],
  ◌∷◌, length, ltb, All, nat_eq, nat_beq_iff, Bool-cases,
}
use mathlib.Core.Path.{subst}
use lark_plat.Statuses.{TaskStatus}
use lark_plat.Table.{Table, find, put}
use lark_plat.Table.Keyed.{find-put_same}
use lark_plat.Approval.Model.{ExecTask}
use lark_plat.Exec.Model.{
  HostStatus, ExecTaskHost, ExecDb, is_running, task_code, optimistic_update, by_task,
}
use lark_plat.Exec.SoundRows.{set_task-put}
use lark_plat.Exec.Dispatch.{
  redo, has_status, count, active, aggregate, final_status, final_of, save_aggregate, fold_found,
  fold_dispatch, no_hosts, finalize_found, maybe_finalize_task,
}

-- all host rows ended with success
abbrev pub AllSucceeded : List (ℕ × ExecTaskHost) → Type 0
AllSucceeded hosts = All (λ (r : ℕ × ExecTaskHost). has_status HostStatus.success r.1 ≡ true) hosts

count-length : (s : HostStatus) (hosts : List (ℕ × ExecTaskHost)) → count s hosts ≤ length hosts
unfolding count
count-length s [] = omega arith
count-length s ((k, h) ∷ hosts) = ground (arith, count-length s hosts)

count-All :
    (hosts : List (ℕ × ExecTaskHost))
    → count HostStatus.success hosts ≡ length hosts
    → AllSucceeded hosts
unfolding count
count-All [] e = tt
count-All ((k, h) ∷ hosts) e = elim (Bool-cases (has_status HostStatus.success h)) [
  | inl same ↦ (same, count-All hosts (ground (arith, same, e)))
  | inr other ↦ ground (arith, other, e, count-length HostStatus.success hosts)
]

All-count :
    (hosts : List (ℕ × ExecTaskHost))
    → AllSucceeded hosts
    → (count HostStatus.success hosts ≡ length hosts)
      × (count HostStatus.failed hosts ≡ 0)
      × (count HostStatus.timed_out hosts ≡ 0)
unfolding count
All-count [] all = (refl, refl, refl)
All-count ((k, h) ∷ hosts) all =
    let (a, b, c) = All-count hosts all.1 in
    (ground (arith, all.0, a), ground (arith, all.0, b), ground (arith, all.0, c))

aggregate-success :
    (hosts : List (ℕ × ExecTaskHost)) → aggregate hosts ≡ TaskStatus.success → AllSucceeded hosts
unfolding aggregate
aggregate-success hosts h = count-All hosts (ground (arith, h))

aggregate-nonempty :
    (hosts : List (ℕ × ExecTaskHost)) → aggregate hosts ≡ TaskStatus.success → 0 < length hosts
unfolding aggregate
aggregate-nonempty hosts h = ground (arith, h)

success-aggregate :
    (hosts : List (ℕ × ExecTaskHost))
    → 0 < length hosts
    → AllSucceeded hosts
    → aggregate hosts ≡ TaskStatus.success
unfolding aggregate
success-aggregate hosts some_host all =
    let (a, b, c) = All-count hosts all in ground (arith, a, b, c, some_host)

aggregate-success_iff :
    (hosts : List (ℕ × ExecTaskHost))
    → (aggregate hosts ≡ TaskStatus.success) ↔ ((0 < length hosts) × AllSucceeded hosts)
aggregate-success_iff hosts = (
  λ h. (aggregate-nonempty hosts h, aggregate-success hosts h),
  λ (some_host, all). success-aggregate hosts some_host all,
)

no_hosts-nil : (hosts : List (ℕ × ExecTaskHost)) → no_hosts hosts ≡ true → hosts ≡ []
no_hosts-nil [] h = refl
no_hosts-nil (r ∷ hosts) h = cc

-- the row of a task that was folded
abbrev pub folded : ℕ → List (ℕ × ExecTaskHost) → ExecTask → ExecTask
folded now hosts x = record x {
  status = aggregate hosts;
  version = x.version + 1;
  finished_at = some now;
}

pub record Folds (now i : ℕ) (x : ExecTask) (s s' : ExecDb) : Type 0 where
  pub none_active : active (by_task i s.task_hosts.rows) ≡ 0
  pub task : find s'.shared.tasks i ≡ some (folded now (by_task i s.task_hosts.rows) x)
  pub hosts : s'.task_hosts ≡ s.task_hosts
  pub approvals : s'.shared.approvals ≡ s.shared.approvals

module _ (broker : Bool) (now i : ℕ) (x : ExecTask) (s : ExecDb)
    (is : find s.shared.tasks i ≡ some x) (runs : x.status ≡ TaskStatus.running) where
  hosts_of : List (ℕ × ExecTaskHost)
  hosts_of = by_task i s.task_hosts.rows

  y : ExecTask
  y = record x { status = aggregate hosts_of; version = x.version + 1 }

  moved :
      optimistic_update i TaskStatus.running (aggregate hosts_of) x.version s.shared.tasks
      ≡ some (put s.shared.tasks i y)
  unfolding optimistic_update y
  moved = ground (arith, is, ap task_code runs, (nat_beq_iff x.version x.version).1 refl)

  saved :
      active hosts_of ≡ 0 → Folds now i x s (save_aggregate now i s (some (put s.shared.tasks i y)))
  unfolding hosts_of y
  saved idle =
      let y_is = find-put_same s.shared.tasks i y is in
      record {
        none_active = idle;
        task =
            ap (λ (u : Table ExecTask). find u i)
              (set_task-put i (λ z. record z { finished_at = some now }) (put s.shared.tasks i y)
                y_is)
            ∙ find-put_same (put s.shared.tasks i y) i (folded now hosts_of x) y_is;
        hosts = refl;
        approvals = refl;
      }

  -- Folding a running task: while a host row of it is pending or running no row changes, and the
  -- task is handed to the broker again if one is pending and there is a broker; else the task ends
  -- with the aggregate of its host rows, at its next version, which is success exactly if there is
  -- a host row and all ended with success.
  pub fold_dispatch-Folds :
      ((ltb 0 (active (by_task i s.task_hosts.rows)) ≡ true)
        × (fold_dispatch broker now i s ≡ redo broker i (by_task i s.task_hosts.rows) s))
      ⊎ (Folds now i x s (fold_dispatch broker now i s)
          × ((aggregate (by_task i s.task_hosts.rows) ≡ TaskStatus.success) ↔ (
              (0 < length (by_task i s.task_hosts.rows))
              × AllSucceeded (by_task i s.task_hosts.rows))))
  unfolding fold_dispatch fold_found hosts_of y
  fold_dispatch-Folds = elim (Bool-cases (ltb 0 (active (by_task i s.task_hosts.rows)))) [
    | inl busy ↦ let run = ap is_running runs in inl (busy, rw (is, run, busy) refl)
    | inr idle ↦
        let row = moved in
        let run = ap is_running runs in
        inr (
          rw (is, run, idle, row) (saved (ground (arith, idle))),
          aggregate-success_iff (by_task i s.task_hosts.rows),
        )
  ]

final_of-aggregate : (hosts : List (ℕ × ExecTaskHost)) → final_of hosts ≡ aggregate hosts
unfolding final_status aggregate
final_of-aggregate hosts = ground arith

-- After the result of a host of a running task: where the task has no host rows, or one that is
-- pending or running, nothing changes; else the task ends with the aggregate that the worker would
-- give it, at its next version, which is success exactly if there is a host row and all ended with
-- success.
pub maybe_finalize_task-Folds :
    (now i : ℕ) (x : ExecTask) (s : ExecDb)
    → find s.shared.tasks i ≡ some x
    → x.status ≡ TaskStatus.running
    → (((by_task i s.task_hosts.rows ≡ []) ⊎ (0 < active (by_task i s.task_hosts.rows)))
        × (maybe_finalize_task now i s ≡ s))
      ⊎ (Folds now i x s (maybe_finalize_task now i s)
          × ((final_of (by_task i s.task_hosts.rows) ≡ TaskStatus.success) ↔ (
              (0 < length (by_task i s.task_hosts.rows))
              × AllSucceeded (by_task i s.task_hosts.rows))))
unfolding maybe_finalize_task finalize_found hosts_of
maybe_finalize_task-Folds now i x s is runs =
    elim (Bool-cases (no_hosts (by_task i s.task_hosts.rows))) [
      | inl none_there ↦ inl (
        inl (no_hosts-nil (by_task i s.task_hosts.rows) none_there),
        rw (is, runs, none_there) refl,
      )
      | inr there ↦ elim (Bool-cases (ltb 0 (active (by_task i s.task_hosts.rows)))) [
        | inl busy ↦ inl (inr (ground (arith, busy)), rw (is, runs, there, busy) refl)
        | inr idle ↦
            let same = final_of-aggregate (by_task i s.task_hosts.rows) in
            let row = moved true now i x s is runs in
            let ends : maybe_finalize_task now i s
                ≡ save_aggregate now i s (some (put s.shared.tasks i (y true now i x s is runs))) =
              rw (is, runs, there, idle, same, row) refl in
            inr (
              subst (λ s'. Folds now i x s s') (sym ends)
                  (saved true now i x s is runs (ground (arith, idle))),
              rw same (aggregate-success_iff (by_task i s.task_hosts.rows)),
            )
      ]
    ]
