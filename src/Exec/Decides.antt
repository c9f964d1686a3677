-- ===== src/Exec/Decides.antt =====
-- The decisions of backend/app/services/approval_service.py keep the correspondence of tasks and
-- approvals.
use lark_plat.Prelude.{
  some_injective, ℕ, ◌+◌, ◌≡◌, refl, sym, ap, ◌∙◌, arith, true, false, ◌&&◌, Option, none, some,
  ◌==◌, nat_eq, string_eq, if◌then◌else◌, Bool-cases, inl, inr, eq_iff,
}
use lark_plat.Errors.{ok}
use lark_plat.Statuses.{ApprovalStatus}
use lark_plat.Table.{Table, find, put}
use lark_plat.Table.Keyed.{find-put_same}
use lark_plat.Approval.Model.{Approval, ApprovalRecord, ExecTask, TerminalSession, ApprovalDb}
use lark_plat.Approval.Service.{
  is_pending, is_awaiting, update_approval, stamp, decide_row, approve_linkages,
  activate_on_approval, open_session, close_on_cancel, close_session, cancel_exec, cancel_linkages,
  drop_task, cancel_task, start_task,
}
use lark_plat.Exec.Sound.{IsSound-approval, IsSound-release}
use lark_plat.Exec.SoundRows.{IsSound, IsSound-along}
use lark_plat.Exec.Made.{run_task-Starts, linkage_exec}

-- the two writes of a decision to the row that it read
pub record Rows (i : ℕ) (to : ApprovalStatus) (by : Option ℕ) (now : ℕ) (a : Approval)
    (s s' : ApprovalDb) : Type 0 where
  pub was_open : is_pending a.status ≡ true
  pub approvals :
      s'.approvals
      ≡ put
          (put s.approvals i (record a { status = to; version = a.version + 1 }))
          i
          (stamp by now (record a { status = to; version = a.version + 1 }))
  pub tasks : s'.tasks ≡ s.tasks

pub decide_row-Rows :
    (i : ℕ) (to : ApprovalStatus) (by : Option ℕ) (now : ℕ) (line : ApprovalRecord) (a : Approval)
    (s : ApprovalDb) {s' : ApprovalDb}
    → find s.approvals i ≡ some a
    → decide_row i to by now line a s ≡ ok s'
    → Rows i to by now a s s'
unfolding decide_row update_approval
decide_row-Rows i to by now line a s {s'} is h =
    elim (Bool-cases (is_pending a.status && a.version == a.version)) [
      | inr e ↦ ground (arith, is, h, e)
      | inl e ↦
          let q = record a { status = to; version = a.version + 1 } in
          let at = find-put_same s.approvals i q is in
          record {
            was_open = ground (arith, e);
            approvals = ground (arith, is, h, e, at);
            tasks = ground (arith, is, h, e, at);
          }
    ]

stamp-same :
    (by : Option ℕ) (now : ℕ) (a : Approval)
    → (is_pending (stamp by now a).status ≡ is_pending a.status)
      × ((stamp by now a).biz_type ≡ a.biz_type)
      × ((stamp by now a).biz_id ≡ a.biz_id)
stamp-same none now a = (refl, refl, refl)
stamp-same (some u) now a = (refl, refl, refl)

module _ (i now : ℕ) (a : Approval) (to : ApprovalStatus) (by : Option ℕ) (s mid : ApprovalDb)
    (is : find s.approvals i ≡ some a) (rows : Rows i to by now a s mid)
    (sound : IsSound s.tasks s.approvals) (shut : is_pending to ≡ false) where
  q : Approval
  q = record a { status = to; version = a.version + 1 }

  q_is : find (put s.approvals i q) i ≡ some q
  q_is = find-put_same s.approvals i q is

  -- the columns of the decision, over any tasks
  stamped : (t : Table ExecTask) → IsSound t (put s.approvals i q) → IsSound t mid.approvals
  unfolding q
  stamped t h =
      let (open_, types, ids) = stamp-same by now q in
      IsSound-along refl (sym rows.approvals)
        (IsSound-approval h i q (stamp by now q) q_is (types, ids) (λ e. shut) (λ e. open_ ∙ shut))

  -- a decision about something else than a task
  pub other-IsSound : (a.biz_type == "exec") ≡ false → IsSound s.tasks mid.approvals
  unfolding q
  other-IsSound other = stamped s.tasks (
      IsSound-approval sound i a q is (refl, refl) (λ e. cc (other, (eq_iff a.biz_type "exec").1 e))
        (λ e. cc (other, (eq_iff a.biz_type "exec").1 e)))

  -- a decision about a task that leaves it in another status
  pub task-IsSound :
      (x y : ExecTask)
      → find s.tasks a.biz_id ≡ some x
      → x.approval_id ≡ some i
      → y.approval_id ≡ x.approval_id
      → is_awaiting y.status ≡ false
      → IsSound (put s.tasks a.biz_id y) mid.approvals
  unfolding q
  task-IsSound x y found named same quiet =
      stamped (put s.tasks a.biz_id y)
        (IsSound-release sound a.biz_id i x y a q found named is refl same (refl, refl) quiet shut)

pub drop_task-tasks :
    (id now : ℕ) (s : ApprovalDb) (x : ExecTask)
    → find s.tasks id ≡ some x
    → is_awaiting x.status ≡ true
    → (drop_task id now (find s.tasks id) s).tasks
      ≡ put s.tasks id (record (cancel_task now x) { version = x.version + 1 })
drop_task-tasks id now s x is waits = ground (arith, is, waits)

pub rejected_other-tasks :
    (now : ℕ) (a : Approval) (s : ApprovalDb)
    → (a.biz_type == "exec") ≡ false
    → (if a.biz_type == "exec" then cancel_exec now a s else s).tasks ≡ s.tasks
rejected_other-tasks now a s other = rw other refl

close_session-tasks :
    (id now : ℕ) (o : Option TerminalSession) (s : ApprovalDb)
    → (close_session id now o s).tasks ≡ s.tasks
close_session-tasks id now none s = refl
close_session-tasks id now (some x) s = ground arith

open_session-tasks :
    (id now : ℕ) (o : Option TerminalSession) (s : ApprovalDb)
    → (open_session id now o s).tasks ≡ s.tasks
open_session-tasks id now none s = refl
open_session-tasks id now (some x) s = ground arith

pub cancelled_other-tasks :
    (now : ℕ) (a : Approval) (s : ApprovalDb)
    → (a.biz_type == "exec") ≡ false
    → (cancel_linkages now a s).tasks ≡ s.tasks
unfolding cancel_linkages close_on_cancel
cancelled_other-tasks now a s other =
    ground (arith, other, close_session-tasks a.biz_id now (find s.sessions a.biz_id) s)

pub linked_other-tasks :
    (now : ℕ) (a : Approval) (s : ApprovalDb) {s' : ApprovalDb}
    → (a.biz_type == "exec") ≡ false
    → approve_linkages now a s ≡ ok s'
    → s'.tasks ≡ s.tasks
unfolding approve_linkages activate_on_approval
linked_other-tasks now a s other h =
    ground (arith, other, h, open_session-tasks a.biz_id now (find s.sessions a.biz_id) s)

pub linked_exec-tasks :
    (now : ℕ) (a : Approval) (s : ApprovalDb) {s' : ApprovalDb} (x : ExecTask)
    → a.biz_type ≡ "exec"
    → find s.tasks a.biz_id ≡ some x
    → approve_linkages now a s ≡ ok s'
    → s'.tasks ≡ put s.tasks a.biz_id (record (start_task now x) { version = x.version + 1 })
linked_exec-tasks now a s {s'} x e is h =
    let st = run_task-Starts now a.biz_id s {s' = s'} (sym (linkage_exec now a s e) ∙ h) in
    st.tasks
    ∙ ap
        (λ (u : ExecTask).
          put s.tasks a.biz_id (record (start_task now u) { version = u.version + 1 }))
        (some_injective (sym st.found ∙ is))

pub cancelled_exec :
    (now : ℕ) (a : Approval) (s : ApprovalDb)
    → a.biz_type ≡ "exec"
    → cancel_linkages now a s ≡ drop_task a.biz_id now (find s.tasks a.biz_id) s
unfolding cancel_linkages cancel_exec
cancelled_exec now a s e = rw e refl

pub rejected_exec :
    (now : ℕ) (a : Approval) (s : ApprovalDb)
    → a.biz_type ≡ "exec"
    → (if a.biz_type == "exec" then cancel_exec now a s else s)
      ≡ drop_task a.biz_id now (find s.tasks a.biz_id) s
unfolding cancel_exec
rejected_exec now a s e = rw e refl
