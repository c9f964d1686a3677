-- ===== src/Exec/Kept.antt =====
-- The operations of backend/app/services/exec_service.py, the worker
-- (backend/app/tasks/exec_tasks.py) and the agents (backend/app/ws/agent_ws.py) keep the
-- correspondence of tasks and approvals.
use lark_plat.Prelude.{
  ℕ, ◌≡◌, refl, arith, Bool, true, false, Option, none, some, List, [], ◌∷◌, ltb, All, nat_eq,
  if◌then◌else◌, Bool-cases, inl, inr, ◌||◌,
}
use lark_plat.Json.{Fields}
use lark_plat.Statuses.{TaskStatus}
use lark_plat.Table.{Table, find, put}
use lark_plat.Approval.Model.{ExecTask}
use lark_plat.Approval.Service.{is_awaiting}
use lark_plat.Exec.Model.{ExecTaskHost, ExecDb, queued, is_running, optimistic_update, by_task}
use lark_plat.Exec.Dispatch.{
  redo, aggregate, final_status, final_of, save_aggregate, fold_found, fold_dispatch,
  finalize_found, maybe_finalize_task, persist_found, persist_result, start_found, start_hosts,
  finish_found, finish_host, time_out, sweep_task, sweep_all, scan_timeouts, active, can_finalize,
  no_hosts, end_with, result_status, running_rows, is_overdue,
}
use lark_plat.Exec.Sound.{IsSound-moved}
use lark_plat.Exec.SoundRows.{IsSound}

abbrev pub IsSoundDb : ExecDb → Type 0
IsSoundDb s = IsSound s.shared.tasks s.shared.approvals

running-quiet : (s : TaskStatus) → is_running s ≡ true → is_awaiting s ≡ false
running-quiet s h = ground (arith, h)

save_aggregate-IsSound :
    (now i : ℕ) (s : ExecDb) (source target : TaskStatus) (version : ℕ)
    → IsSoundDb s
    → is_awaiting source ≡ false
    → is_awaiting target ≡ false
    → (o : Option (Table ExecTask)) → optimistic_update i source target version s.shared.tasks ≡ o
    → IsSoundDb (save_aggregate now i s o)
save_aggregate-IsSound now i s source target version sound before after none h = sound
save_aggregate-IsSound now i s source target version sound before after (some t) h =
    IsSound-moved s.shared.tasks s.shared.approvals i source target version _ sound h before after
      λ x. (refl, refl)

aggregate-quiet : (hosts : List (ℕ × ExecTaskHost)) → is_awaiting (aggregate hosts) ≡ false
unfolding aggregate
aggregate-quiet hosts = ground arith

final_of-quiet : (hosts : List (ℕ × ExecTaskHost)) → is_awaiting (final_of hosts) ≡ false
unfolding final_status
final_of-quiet hosts = ground arith

if-IsSound :
    (b : Bool) (s s' : ExecDb) → IsSoundDb s → IsSoundDb s' → IsSoundDb (if b then s else s')
if-IsSound true s s' h k = h
if-IsSound false s s' h k = k

pub fold_dispatch-IsSound :
    (broker : Bool) (now i : ℕ) (s : ExecDb)
    → IsSoundDb s
    → IsSoundDb (fold_dispatch broker now i s)
unfolding fold_dispatch fold_found
fold_dispatch-IsSound broker now i s sound = folded (find s.shared.tasks i)
  where
    folded : (o : Option ExecTask) → IsSoundDb (fold_found broker now i o s)
    folded none = sound
    folded (some x) =
        let hosts = by_task i s.task_hosts.rows in
        if-IsSound (is_running x.status) _ s
          (if-IsSound (ltb 0 (active hosts)) (redo broker i hosts s) _
            (if-IsSound _ (queued i s) s sound sound)
            (save_aggregate-IsSound now i s TaskStatus.running (aggregate hosts) x.version sound
              refl (aggregate-quiet hosts) _ refl))
          sound

finalizable-quiet : (s : TaskStatus) → can_finalize s ≡ true → is_awaiting s ≡ false
finalizable-quiet s h = ground (arith, h)

pub maybe_finalize_task-IsSound :
    (now i : ℕ) (s : ExecDb) → IsSoundDb s → IsSoundDb (maybe_finalize_task now i s)
unfolding maybe_finalize_task finalize_found
maybe_finalize_task-IsSound now i s sound = folded (find s.shared.tasks i)
  where
    ended :
        (x : ExecTask)
        → can_finalize x.status ≡ true
        → (hosts : List (ℕ × ExecTaskHost))
        → IsSoundDb (
            save_aggregate now i s
              (optimistic_update i x.status (final_of hosts) x.version s.shared.tasks))
    ended x can hosts =
        save_aggregate-IsSound now i s x.status (final_of hosts) x.version sound
          (finalizable-quiet x.status can) (final_of-quiet hosts) _ refl

    folded : (o : Option ExecTask) → IsSoundDb (finalize_found now i o s)
    folded none = sound
    folded (some x) = elim (Bool-cases (can_finalize x.status)) [
      | inl can ↦
          let hosts = by_task i s.task_hosts.rows in
          rw can (if-IsSound (no_hosts hosts || ltb 0 (active hosts)) s _ sound (ended x can hosts))
      | inr bad ↦ rw bad sound
    ]

pub persist_result-IsSound :
    (now k : ℕ) (frame : Fields) (exit_code : Option ℕ) (s : ExecDb)
    → IsSoundDb s
    → IsSoundDb (persist_result now k frame exit_code s)
unfolding persist_result persist_found
persist_result-IsSound now k frame exit_code s sound = found (find s.task_hosts k)
  where
    found :
        (o : Option ExecTaskHost)
        → IsSoundDb (persist_found now k (result_status frame) exit_code o s)
    found none = sound
    found (some h) =
        maybe_finalize_task-IsSound now h.exec_task_id
          (record s {
            task_hosts = put s.task_hosts k (end_with (result_status frame) exit_code now h);
          })
          sound

pub start_hosts-IsSound :
    (granted : ℕ → Bool) (now i : ℕ) (s : ExecDb)
    → IsSoundDb s
    → IsSoundDb (start_hosts granted now i s)
unfolding start_hosts start_found
start_hosts-IsSound granted now i s sound = found (find s.shared.tasks i)
  where
    found : (o : Option ExecTask) → IsSoundDb (start_found granted now i o s)
    found none = sound
    found (some x) = if-IsSound (is_running x.status) _ s sound sound

pub finish_host-IsSound :
    (now k : ℕ) (succeeded : Bool) (s : ExecDb)
    → IsSoundDb s
    → IsSoundDb (finish_host now k succeeded s)
unfolding finish_host finish_found
finish_host-IsSound now k succeeded s sound = found (find s.task_hosts k)
  where
    found : (o : Option ExecTaskHost) → IsSoundDb (finish_found now k succeeded o s)
    found none = sound
    found (some h) = if-IsSound _ _ s sound sound

-- the rows of the sweep were running when they were read
AllRunning : List (ℕ × ExecTask) → Type 0
AllRunning rows = All (λ (r : ℕ × ExecTask). is_running r.1.status ≡ true) rows

running_rows-AllRunning : (rows : List (ℕ × ExecTask)) → AllRunning (running_rows rows)
unfolding running_rows AllRunning
running_rows-AllRunning [] = tt
running_rows-AllRunning ((i, x) ∷ rows) = elim (Bool-cases (is_running x.status)) [
  | inl e ↦ rw e (e, running_rows-AllRunning rows)
  | inr e ↦ rw e (running_rows-AllRunning rows)
]

sweep_task-IsSound :
    (now i : ℕ) (x : ExecTask) (s : ExecDb)
    → is_running x.status ≡ true
    → IsSoundDb s
    → IsSoundDb (sweep_task now (i, x) s)
unfolding sweep_task
sweep_task-IsSound now i x s runs sound = if-IsSound (is_overdue now x) _ s (timed _ refl) sound
  where
    timed :
        (o : Option (Table ExecTask))
        → optimistic_update i x.status TaskStatus.timed_out x.version s.shared.tasks ≡ o
        → IsSoundDb (time_out now i s o)
    timed none h = sound
    timed (some t) h =
        IsSound-moved s.shared.tasks s.shared.approvals i x.status TaskStatus.timed_out x.version _
          sound h (running-quiet x.status runs) refl λ y. (refl, refl)

sweep_all-IsSound :
    (now : ℕ) (rows : List (ℕ × ExecTask)) (s : ExecDb)
    → AllRunning rows
    → IsSoundDb s
    → IsSoundDb (sweep_all now rows s)
unfolding sweep_all AllRunning
sweep_all-IsSound now [] s run sound = sound
sweep_all-IsSound now ((i, x) ∷ rows) s run sound =
    sweep_all-IsSound now rows _ run.1 (sweep_task-IsSound now i x s run.0 sound)

pub scan_timeouts-IsSound : (now : ℕ) (s : ExecDb) → IsSoundDb s → IsSoundDb (scan_timeouts now s)
unfolding scan_timeouts
scan_timeouts-IsSound now s sound =
    sweep_all-IsSound now (running_rows s.shared.tasks.rows) s
      (running_rows-AllRunning s.shared.tasks.rows) sound
