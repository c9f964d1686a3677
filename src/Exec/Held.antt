-- ===== src/Exec/Held.antt =====
-- Cancelling, retrying and creating a task (backend/app/services/exec_service.py) keep the
-- correspondence of tasks and approvals.
use mathlib.Core.Path.{subst}
use lark_plat.Prelude.{
  some_injective, ℕ, ◌+◌, ◌≡◌, refl, sym, ap, ◌∙◌, arith, Bool, true, false, Option, none, some,
  length, nat_eq, string_eq, if◌then◌else◌, Bool-cases, inl, inr,
}
use lark_plat.Errors.{ok, err, >>=-eq-ok}
use lark_plat.Statuses.{TaskStatus, ApprovalStatus}
use lark_plat.Table.{Table, find, put, add}
use lark_plat.Table.Keyed.{find-put_same}
use lark_plat.Approval.Model.{Approval, ExecTask}
use lark_plat.Approval.Service.{is_awaiting}
use lark_plat.Exec.Model.{ExecDb, optimistic_update, set_task}
use lark_plat.Exec.Sensitive.{is_sensitive, detect_sensitive}
use lark_plat.Exec.Create.{ExecEnv}
use lark_plat.Exec.Hold.{new_approval, insert_approval, has_biz, move_task}
use lark_plat.Exec.Cancel.{
  is_cancellable, close_orphan_approval, cancel_rest, cancel_if_moved, cancel_exec_task_record,
  hold_again, run_again, retry_body, retry_content,
}
use lark_plat.Exec.Service.{can_retry}
use lark_plat.Exec.Sound.{
  IsSound-moved, IsSound-put, IsSound-hold, IsSound-release, close_orphan-quiet, close_orphan-waits,
}
use lark_plat.Exec.SoundRows.{
  IsSound, optimistic_update_lem, move_task-some, set_task-put, same_code,
}
use lark_plat.Exec.Kept.{IsSoundDb}

abbrev left : Bool × ExecDb → ExecDb
left r = r.1

abbrev ended : ℕ → ExecTask → ExecTask
ended now y = record y { finished_at = some now }

-- a task is canceled, and then its approval
cancel_tables-IsSound :
    (now i : ℕ) (x : ExecTask) (t : Table ExecTask) (a : Table Approval) {t' : Table ExecTask}
    → IsSound t a
    → find t i ≡ some x
    → optimistic_update i x.status TaskStatus.canceled x.version t ≡ some t'
    → IsSound (set_task i (ended now) t') (close_orphan_approval x.approval_id a)
cancel_tables-IsSound now i x t a {t'} sound is h = elim (Bool-cases (is_awaiting x.status)) [
  | inr quiet ↦
      subst (λ b. IsSound (set_task i (ended now) t') b)
        (sym (close_orphan-quiet sound i x is quiet))
        (IsSound-moved t a i x.status TaskStatus.canceled x.version (ended now) sound h quiet refl
          λ y. (refl, refl))
  | inl waits ↦
      let (n, p, named, at, about, closed) = close_orphan-waits sound i x is waits in
      let (z, z_is, code, e) = optimistic_update_lem i x.status TaskStatus.canceled x.version t h in
      let y = record x { status = TaskStatus.canceled; version = x.version + 1 } in
      let same = some_injective (sym z_is ∙ is) in
      let e_x =
        e
        ∙ ap
            (λ (u : ExecTask).
              put t i (record u { status = TaskStatus.canceled; version = x.version + 1 }))
            same in
      let y_is = find-put_same t i y is in
      let q = record p { status = ApprovalStatus.canceled; version = p.version + 1 } in
      let one = IsSound-release sound i n x y p q is named at about refl (refl, refl) refl refl in
      let two = IsSound-put one i y (ended now y) y_is refl refl refl in
      let tasks =
        set_task-put i (ended now) t' (ap (λ (u : Table ExecTask). find u i) e_x ∙ y_is)
        ∙ ap (λ (u : Table ExecTask). put u i (ended now y)) e_x in
      subst (λ u. IsSound u (close_orphan_approval x.approval_id a)) (sym tasks)
        (subst (λ b. IsSound (put (put t i y) i (ended now y)) b) (sym closed) two)
]

pub cancel_exec_task_record-IsSound :
    (now i : ℕ) (x : ExecTask) (s : ExecDb)
    → find s.shared.tasks i ≡ some x
    → IsSoundDb s
    → IsSoundDb (cancel_exec_task_record now i x s).1
unfolding cancel_exec_task_record cancel_rest
cancel_exec_task_record-IsSound now i x s is sound =
    chosen (is_cancellable x.status) _ (moved _ refl)
  where
    chosen :
        (b : Bool) (r : Bool × ExecDb)
        → IsSoundDb r.1
        → IsSoundDb (left (if b then r else (false, s)))
    chosen false r h = sound
    chosen true r h = h

    moved :
        (o : Option (Table ExecTask))
        → optimistic_update i x.status TaskStatus.canceled x.version s.shared.tasks ≡ o
        → IsSoundDb (cancel_if_moved now i x s o).1
    moved none h = sound
    moved (some t) h = cancel_tables-IsSound now i x s.shared.tasks s.shared.approvals sound is h

pub insert_approval-ok :
    (q : Approval) (a : Table Approval) {a' : Table Approval}
    → insert_approval q a ≡ ok a'
    → (has_biz q.biz_id a.rows ≡ false) × (a' ≡ add a q)
unfolding insert_approval
insert_approval-ok q a h = (ground (arith, h), ground (arith, h))

abbrev named_again : ℕ → ExecTask → ExecTask
named_again n t = record t { approval_id = some n; sensitive_flag = 1 }

-- a task that does not wait is moved to awaiting_approval and gets a new approval
hold_tables-IsSound :
    (i by : ℕ) (source : TaskStatus) (version : ℕ) (change : ExecTask → ExecTask)
    (t : Table ExecTask) (a : Table Approval) {t' : Table ExecTask} {a' : Table Approval}
    → IsSound t a
    → is_awaiting source ≡ false
    → optimistic_update i source TaskStatus.awaiting_approval version t ≡ some t'
    → insert_approval (new_approval i by) a ≡ ok a'
    → ((x : ExecTask) → ((change x).status ≡ x.status) × ((change x).approval_id ≡ some a.next_id))
    → IsSound (set_task i change t') a'
unfolding new_approval
hold_tables-IsSound i by source version change t a {t'} {a'} sound quiet h ins keeps =
    let (x, is, code, e) =
      optimistic_update_lem i source TaskStatus.awaiting_approval version t h in
    let y = record x { status = TaskStatus.awaiting_approval; version = version + 1 } in
    let y_is = find-put_same t i y is in
    let tasks =
      set_task-put i change t' (ap (λ (u : Table ExecTask). find u i) e ∙ y_is)
      ∙ ap (λ (u : Table ExecTask). put u i (change y)) e in
    let held =
      IsSound-hold sound i x y (change y) (new_approval i by) is
        (same_code x.status source code ∙ quiet) (ap is_awaiting (keeps y).0) (keeps y).1 refl refl
        refl in
    subst (λ u. IsSound u a') (sym tasks)
      (subst (λ b. IsSound (put (put t i y) i (change y)) b)
        (sym (insert_approval-ok (new_approval i by) a ins).1) held)

retryable-quiet : (s : TaskStatus) → can_retry s ≡ true → is_awaiting s ≡ false
retryable-quiet s h = ground (arith, h)

pub ok-injective : {A : Type 0} {x y : A} → ok x ≡ ok y → x ≡ y
ok-injective {x = x} h = ap (λ r. elim r [ err e ↦ x | ok z ↦ z ]) h

hold_again-IsSound :
    (by i : ℕ) (x : ExecTask) (s : ExecDb) {out : TaskStatus × ExecDb}
    → find s.shared.tasks i ≡ some x
    → is_awaiting x.status ≡ false
    → IsSoundDb s
    → hold_again by i x s ≡ ok out
    → IsSoundDb out.1
unfolding hold_again
hold_again-IsSound by i x s {out} is quiet sound h =
    let closed = close_orphan-quiet sound i x is quiet in
    let (t', moved, h₂) =
      >>=-eq-ok (move_task i x.status TaskStatus.awaiting_approval x.version s.shared.tasks) _ h in
    let (a', inserted, h₃) =
      >>=-eq-ok
        (insert_approval (new_approval i by)
          (close_orphan_approval x.approval_id s.shared.approvals))
        _ h₂ in
    let held =
      hold_tables-IsSound i by x.status x.version
        (named_again (close_orphan_approval x.approval_id s.shared.approvals).next_id)
        s.shared.tasks (close_orphan_approval x.approval_id s.shared.approvals) {t' = t'} {a' = a'}
        (subst (λ b. IsSound s.shared.tasks b) (sym closed) sound) quiet
        (move_task-some i x.status TaskStatus.awaiting_approval x.version s.shared.tasks moved)
        inserted (λ y. (refl, refl)) in
    subst (λ (o : TaskStatus × ExecDb). IsSoundDb o.1) (ok-injective h₃) held

run_again-IsSound :
    (now i : ℕ) (x : ExecTask) (s : ExecDb) {out : TaskStatus × ExecDb}
    → find s.shared.tasks i ≡ some x
    → is_awaiting x.status ≡ false
    → IsSoundDb s
    → run_again now i x s ≡ ok out
    → IsSoundDb out.1
unfolding run_again
run_again-IsSound now i x s {out} is quiet sound h =
    let closed = close_orphan-quiet sound i x is quiet in
    let (t', moved, h₂) =
      >>=-eq-ok (move_task i x.status TaskStatus.running x.version s.shared.tasks) _ h in
    let held =
      IsSound-moved s.shared.tasks s.shared.approvals i x.status TaskStatus.running x.version
        (λ t. record t { started_at = some now; finished_at = none }) {t' = t'} sound
        (move_task-some i x.status TaskStatus.running x.version s.shared.tasks moved) quiet refl
        (λ y. (refl, refl)) in
    subst (λ (o : TaskStatus × ExecDb). IsSoundDb o.1) (ok-injective h₂)
      (subst
        (λ b.
          IsSound (set_task i (λ t. record t { started_at = some now; finished_at = none }) t') b)
        (sym closed) held)

pub retry_body-IsSound :
    (env : ExecEnv) (by i : ℕ) (x : ExecTask) (s : ExecDb) {out : TaskStatus × ExecDb}
    → find s.shared.tasks i ≡ some x
    → can_retry x.status ≡ true
    → IsSoundDb s
    → retry_body env by i x s ≡ ok out
    → IsSoundDb out.1
unfolding retry_body
retry_body-IsSound env by i x s {out} is can sound h =
    let (reasons, found, h₂) =
      >>=-eq-ok
        (detect_sensitive env.lower s.rule x.command (retry_content x s) (length x.target_host_ids))
        _ h in
    chosen (is_sensitive reasons) h₂
  where
    quiet : is_awaiting x.status ≡ false
    quiet = retryable-quiet x.status can

    chosen :
        (b : Bool)
        → (if b then hold_again by i x s else run_again env.now i x s) ≡ ok out
        → IsSoundDb out.1
    chosen true h = hold_again-IsSound by i x s is quiet sound h
    chosen false h = run_again-IsSound env.now i x s is quiet sound h
