-- ===== src/Exec/Acts.antt =====
-- The linkages of the three decisions of backend/app/services/approval_service.py on the tasks.
use mathlib.Core.Path.{subst}
use lark_plat.Prelude.{
  ℕ, ◌+◌, ◌≡◌, refl, sym, ap, ◌∙◌, true, false, none, some, ◌==◌, nat_eq, string_eq, if◌then◌else◌,
  Bool-cases, inl, inr, eq_iff,
}
use lark_plat.Errors.{ok, >>=-eq-ok}
use lark_plat.Statuses.{ApprovalStatus}
use lark_plat.Session.{CurrentUser}
use lark_plat.Table.{Table, find, put}
use lark_plat.Approval.Model.{Approval, ExecTask, ApprovalDb}
use lark_plat.Approval.Service.{
  is_pending, is_awaiting, decide_row, approve_linkages, cancel_exec, cancel_linkages, cancel_task,
  start_task, Decision, decide,
}
use lark_plat.Approval.Decided.{
  outcome, decider, approve_linkages-approvals, cancel_linkages-approvals, rejected-approvals,
}
use lark_plat.Exec.SoundRows.{IsSound, IsSound-along}
use lark_plat.Exec.Held.{ok-injective}
use lark_plat.Exec.Decides.{
  Rows, decide_row-Rows, other-IsSound, task-IsSound, drop_task-tasks, rejected_other-tasks,
  cancelled_other-tasks, linked_other-tasks, linked_exec-tasks, cancelled_exec, rejected_exec,
}

-- what a decision does to the tasks
record Acts (a : Approval) (s s' : ApprovalDb) : Type 0 where
  approvals : s'.approvals ≡ s.approvals
  other : (a.biz_type == "exec") ≡ false → s'.tasks ≡ s.tasks
  exec :
      (x : ExecTask)
      → a.biz_type ≡ "exec"
      → find s.tasks a.biz_id ≡ some x
      → is_awaiting x.status ≡ true
      → (y : ExecTask) × (s'.tasks ≡ put s.tasks a.biz_id y)
        × (y.approval_id ≡ x.approval_id)
        × (is_awaiting y.status ≡ false)

approve-Acts :
    (now : ℕ) (a : Approval) (s s' : ApprovalDb) → approve_linkages now a s ≡ ok s' → Acts a s s'
approve-Acts now a s s' h = record {
  approvals = approve_linkages-approvals now a s h;
  other = λ other. linked_other-tasks now a s other h;
  exec = λ x e is waits. (
    record (start_task now x) { version = x.version + 1 },
    linked_exec-tasks now a s x e is h,
    refl,
    refl,
  );
}

abbrev rejected : ℕ → Approval → ApprovalDb → ApprovalDb
rejected now a s = if a.biz_type == "exec" then cancel_exec now a s else s

reject-Acts : (now : ℕ) (a : Approval) (s : ApprovalDb) → Acts a s (rejected now a s)
reject-Acts now a s = record {
  approvals = rejected-approvals now a s;
  other = λ other. rejected_other-tasks now a s other;
  exec = λ x e is waits. (
    record (cancel_task now x) { version = x.version + 1 },
    ap (λ (u : ApprovalDb). u.tasks) (rejected_exec now a s e)
        ∙ drop_task-tasks a.biz_id now s x is waits,
    refl,
    refl,
  );
}

cancel-Acts : (now : ℕ) (a : Approval) (s : ApprovalDb) → Acts a s (cancel_linkages now a s)
cancel-Acts now a s = record {
  approvals = cancel_linkages-approvals now a s;
  other = λ other. cancelled_other-tasks now a s other;
  exec = λ x e is waits. (
    record (cancel_task now x) { version = x.version + 1 },
    ap (λ (u : ApprovalDb). u.tasks) (cancelled_exec now a s e)
        ∙ drop_task-tasks a.biz_id now s x is waits,
    refl,
    refl,
  );
}

module _ (user : CurrentUser) (i now : ℕ) (a : Approval) (s s' : ApprovalDb)
    (is : find s.approvals i ≡ some a) where
  parts :
      (d : Decision)
      → decide user i now d a s ≡ ok s'
      → (mid : ApprovalDb) × Rows i (outcome d) (decider user d) now a s mid × Acts a mid s'
  unfolding decide
  parts (Decision.approve c) h =
      let (mid, made, rest) =
        >>=-eq-ok (decide_row i ApprovalStatus.approved (some user.id) now _ a s) _ h in
      (mid, decide_row-Rows i _ _ now _ a s is made, approve-Acts now a mid s' rest)
  parts (Decision.reject c) h =
      let (mid, made, rest) =
        >>=-eq-ok (decide_row i ApprovalStatus.rejected (some user.id) now _ a s) _ h in
      (
        mid,
        decide_row-Rows i _ _ now _ a s is made,
        subst (Acts a mid) (ok-injective rest) (reject-Acts now a mid),
      )
  parts Decision.cancel h =
      let (mid, made, rest) = >>=-eq-ok (decide_row i ApprovalStatus.canceled none now _ a s) _ h in
      (
        mid,
        decide_row-Rows i _ _ now _ a s is made,
        subst (Acts a mid) (ok-injective rest) (cancel-Acts now a mid),
      )

  outcome-shut : (d : Decision) → is_pending (outcome d) ≡ false
  outcome-shut (Decision.approve c) = refl
  outcome-shut (Decision.reject c) = refl
  outcome-shut Decision.cancel = refl

  pub decide-IsSound :
      (d : Decision)
      → IsSound s.tasks s.approvals
      → decide user i now d a s ≡ ok s'
      → IsSound s'.tasks s'.approvals
  decide-IsSound d sound h =
      let (mid, rows, acts) = parts d h in
      let shut = outcome-shut d in
      elim (Bool-cases (a.biz_type == "exec")) [
        | inr other ↦
            IsSound-along (sym (acts.other other ∙ rows.tasks)) (sym acts.approvals)
              (other-IsSound i now a (outcome d) (decider user d) s mid is rows sound shut other)
        | inl same ↦
            let e = (eq_iff a.biz_type "exec").0 same in
            let w = sound.paired.awaits i a is rows.was_open e in
            let (y, tasks, names, quiet) =
              acts.exec w.task e (ap (λ (t : Table ExecTask). find t a.biz_id) rows.tasks ∙ w.found)
                w.waits in
            IsSound-along (sym (tasks ∙ ap (λ (t : Table ExecTask). put t a.biz_id y) rows.tasks))
              (sym acts.approvals)
              (task-IsSound i now a (outcome d) (decider user d) s mid is rows sound shut w.task y
                w.found w.named names quiet)
      ]
