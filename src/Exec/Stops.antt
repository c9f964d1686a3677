-- ===== src/Exec/Stops.antt =====
-- What `cancel_exec_task_record` of backend/app/services/exec_service.py leaves.
use lark_plat.Prelude.{
  ℕ, suc, ◌+◌, ◌≡◌, refl, sym, ap, ◌∙◌, arith, true, false, ◌⊎◌, inl, inr, Option, none, some, List,
  [], ◌∷◌, All, ◌==◌, nat_eq, nat_beq_iff, Bool-cases,
}
use lark_plat.Statuses.{TaskStatus, ApprovalStatus}
use lark_plat.Table.{Table, find, put}
use lark_plat.Table.Keyed.{find-put_same}
use lark_plat.Approval.Model.{Approval, ExecTask}
use lark_plat.Approval.Service.{is_pending, update_approval}
use lark_plat.Exec.Model.{HostStatus, ExecTaskHost, ExecDb, task_code, optimistic_update, by_task}
use lark_plat.Exec.Cancel.{
  is_cancellable, is_live, close_orphan_approval, close_found, update_hosts, end_host, cancel_rest,
  cancel_exec_task_record,
}
use lark_plat.Exec.SoundRows.{set_task-put}

-- no host row of the task is pending or running
abbrev pub AllEnded : ℕ → List (ℕ × ExecTaskHost) → Type 0
AllEnded i rows = All (λ (r : ℕ × ExecTaskHost). is_live r.1.status ≡ false) (by_task i rows)

-- the row of a task that was canceled
abbrev pub canceled : ℕ → ExecTask → ExecTask
canceled now x = record x {
  status = TaskStatus.canceled;
  version = x.version + 1;
  finished_at = some now;
}

pub record Stopped (now i : ℕ) (x : ExecTask) (s s' : ExecDb) : Type 0 where
  pub task : find s'.shared.tasks i ≡ some (canceled now x)
  pub ended : AllEnded i s'.task_hosts.rows
  pub others :
      (j : ℕ) → (i == j) ≡ false → by_task j s'.task_hosts.rows ≡ by_task j s.task_hosts.rows
  pub closed :
      (n : ℕ) (p : Approval)
      → x.approval_id ≡ some (suc n)
      → find s'.shared.approvals (suc n) ≡ some p
      → is_pending p.status ≡ false
  pub queue : s'.shared.queue ≡ s.shared.queue

module _ (now i : ℕ) where
  update_hosts-AllEnded :
      (rows : List (ℕ × ExecTaskHost))
      → AllEnded i (update_hosts i is_live (end_host HostStatus.canceled now) rows)
  unfolding update_hosts by_task
  update_hosts-AllEnded [] = tt
  update_hosts-AllEnded ((k, h) ∷ rows) = elim (Bool-cases (h.exec_task_id == i)) [
    | inr e ↦ rw (e, e) (update_hosts-AllEnded rows)
    | inl e ↦ elim (Bool-cases (is_live h.status)) [
      | inl live ↦ rw (e, live, e) (refl, update_hosts-AllEnded rows)
      | inr over ↦ rw (e, over, e) (over, update_hosts-AllEnded rows)
    ]
  ]

  update_hosts-others :
      (j : ℕ) (rows : List (ℕ × ExecTaskHost))
      → (i == j) ≡ false
      → by_task j (update_hosts i is_live (end_host HostStatus.canceled now) rows) ≡ by_task j rows
  unfolding update_hosts by_task
  update_hosts-others j [] ne = refl
  update_hosts-others j ((k, h) ∷ rows) ne = ground (arith, ne, update_hosts-others j rows ne)

close_found-shut :
    (n : ℕ) (t : Table Approval) (o : Option Approval) (p : Approval)
    → find t n ≡ o
    → find (close_found n o t) n ≡ some p
    → is_pending p.status ≡ false
unfolding update_approval
close_found-shut n t none p e is = cc
close_found-shut n t (some a) p e is = elim (Bool-cases (is_pending a.status)) [
  | inr shut ↦ ground (arith, e, is, shut)
  | inl live ↦
      let q = record a { status = ApprovalStatus.canceled; version = a.version + 1 } in
      ground (arith, e, is, live, (nat_beq_iff a.version a.version).1 refl, find-put_same t n q e)
]

close_orphan-shut :
    (n : ℕ) (o : Option ℕ) (t : Table Approval) (p : Approval)
    → o ≡ some (suc n)
    → find (close_orphan_approval o t) (suc n) ≡ some p
    → is_pending p.status ≡ false
unfolding close_orphan_approval
close_orphan-shut n o t p e is =
    close_found-shut (suc n) t (find t (suc n)) p refl
      (ap (λ u. find (close_orphan_approval u t) (suc n)) (sym e) ∙ is)

moved :
    (i : ℕ) (x : ExecTask) (t : Table ExecTask)
    → find t i ≡ some x
    → optimistic_update i x.status TaskStatus.canceled x.version t
      ≡ some (put t i (record x { status = TaskStatus.canceled; version = x.version + 1 }))
unfolding optimistic_update
moved i x t is = ground (
  arith,
  is,
  (nat_beq_iff (task_code x.status) (task_code x.status)).1 refl,
  (nat_beq_iff x.version x.version).1 refl,
)

cancel_rest-Stopped :
    (now i : ℕ) (x : ExecTask) (s : ExecDb)
    → find s.shared.tasks i ≡ some x
    → Stopped now i x s (
        cancel_rest now i x s (
          put s.shared.tasks i
            (record x { status = TaskStatus.canceled; version = x.version + 1 })))
unfolding cancel_rest
cancel_rest-Stopped now i x s is =
    let y = record x { status = TaskStatus.canceled; version = x.version + 1 } in
    let t = put s.shared.tasks i y in
    let y_is = find-put_same s.shared.tasks i y is in
    record {
      task =
          ap (λ (u : Table ExecTask). find u i)
            (set_task-put i (λ z. record z { finished_at = some now }) t y_is)
          ∙ find-put_same t i (canceled now x) y_is;
      ended = update_hosts-AllEnded now i s.task_hosts.rows;
      others = λ j ne. update_hosts-others now i j s.task_hosts.rows ne;
      closed = λ n p named at. close_orphan-shut n x.approval_id s.shared.approvals p named at;
      queue = refl;
    }

-- For a task that was just read, `cancel_exec_task_record` moves it in each of the statuses
-- created, awaiting_approval, approved, running and pending: the task is canceled, at its next
-- version and with its end; none of its host rows is pending or running, and those of other tasks
-- are as before; the approval that it names is not pending. In any other status it reports that,
-- and changes nothing.
pub cancel_exec_task_record-Stopped :
    (now i : ℕ) (x : ExecTask) (s : ExecDb)
    → find s.shared.tasks i ≡ some x
    → ((is_cancellable x.status ≡ true)
        × ((cancel_exec_task_record now i x s).0 ≡ true)
        × Stopped now i x s (cancel_exec_task_record now i x s).1)
      ⊎ ((is_cancellable x.status ≡ false) × (cancel_exec_task_record now i x s ≡ (false, s)))
unfolding cancel_exec_task_record
cancel_exec_task_record-Stopped now i x s is = elim (Bool-cases (is_cancellable x.status)) [
  | inl can ↦
      let e = moved i x s.shared.tasks is in
      rw (can, e) (inl (refl, refl, cancel_rest-Stopped now i x s is))
  | inr over ↦ rw over (inr (refl, refl))
]
