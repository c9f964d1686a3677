-- ===== src/Approval/Decided.antt =====
-- One decision for one approval, and what it does to the task or the session that it is about.
use lark_plat.Prelude.{
  ℕ, ◌≡◌, refl, sym, ap, ◌∙◌, arith, true, false, Option, none, some, ◌==◌, nat_eq, string_eq,
  if◌then◌else◌,
}
use lark_plat.Errors.{conflict, ok, err, >>=-eq-ok}
use lark_plat.Statuses.{ApprovalStatus}
use lark_plat.Session.{CurrentUser}
use lark_plat.Table.{find}
use lark_plat.Approval.Model.{Approval, ExecTask, TerminalSession, ApprovalDb}
use lark_plat.Approval.Service.{
  is_pending, update_approval, decide_row, run_task, approve_exec, activate_on_approval,
  open_session, close_on_cancel, close_session, approve_linkages, drop_task, cancel_exec,
  cancel_linkages, Decision, decide,
}
use lark_plat.Approval.Row.{decided, Decides, decide_row-Decides, ok-injective}

-- the linkages leave the approvals as they are
open_session-approvals :
    (id now : ℕ) (o : Option TerminalSession) (s : ApprovalDb)
    → (open_session id now o s).approvals ≡ s.approvals
open_session-approvals id now none s = refl
open_session-approvals id now (some x) s = ground arith

close_session-approvals :
    (id now : ℕ) (o : Option TerminalSession) (s : ApprovalDb)
    → (close_session id now o s).approvals ≡ s.approvals
close_session-approvals id now none s = refl
close_session-approvals id now (some x) s = ground arith

drop_task-approvals :
    (id now : ℕ) (o : Option ExecTask) (s : ApprovalDb)
    → (drop_task id now o s).approvals ≡ s.approvals
drop_task-approvals id now none s = refl
drop_task-approvals id now (some x) s = ground arith

run_task-approvals :
    (id now : ℕ) (o : Option ExecTask) (s : ApprovalDb) {s' : ApprovalDb}
    → run_task id now o s ≡ ok s'
    → s'.approvals ≡ s.approvals
unfolding run_task
run_task-approvals id now none s h = cc
run_task-approvals id now (some x) s h = ground (arith, h)

pub approve_linkages-approvals :
    (now : ℕ) (a : Approval) (s : ApprovalDb) {s' : ApprovalDb}
    → approve_linkages now a s ≡ ok s'
    → s'.approvals ≡ s.approvals
unfolding approve_linkages approve_exec activate_on_approval
approve_linkages-approvals now a s {s'} h = ground (
  arith,
  h,
  open_session-approvals a.biz_id now (find s.sessions a.biz_id) s,
  run_task-approvals a.biz_id now (find s.tasks a.biz_id) s {s' = s'},
)

pub cancel_linkages-approvals :
    (now : ℕ) (a : Approval) (s : ApprovalDb) → (cancel_linkages now a s).approvals ≡ s.approvals
unfolding cancel_linkages cancel_exec close_on_cancel
cancel_linkages-approvals now a s = ground (
  arith,
  close_session-approvals a.biz_id now (find s.sessions a.biz_id) s,
  drop_task-approvals a.biz_id now (find s.tasks a.biz_id) s,
)

pub rejected-approvals :
    (now : ℕ) (a : Approval) (s : ApprovalDb)
    → (if a.biz_type == "exec" then cancel_exec now a s else s).approvals ≡ s.approvals
unfolding cancel_exec
rejected-approvals now a s =
    ground (arith, drop_task-approvals a.biz_id now (find s.tasks a.biz_id) s)

abbrev pub outcome : Decision → ApprovalStatus
outcome (Decision.approve c) = ApprovalStatus.approved
outcome (Decision.reject c) = ApprovalStatus.rejected
outcome Decision.cancel = ApprovalStatus.canceled

abbrev pub decider : CurrentUser → Decision → Option ℕ
decider user Decision.cancel = none
decider user _ = some user.id

pending_is : (x : ApprovalStatus) → is_pending x ≡ true → x ≡ ApprovalStatus.pending
pending_is ApprovalStatus.pending h = refl
pending_is _ h = cc

module _ (user : CurrentUser) (i now : ℕ) (a : Approval) (s : ApprovalDb) where
  decide-Decides :
      (d : Decision) {s' : ApprovalDb}
      → decide user i now d a s ≡ ok s'
      → (mid : ApprovalDb) × (Decides i (outcome d) (decider user d) now a.version s mid)
        × (s'.approvals ≡ mid.approvals)
  unfolding decide
  decide-Decides (Decision.approve c) {s'} h =
      let (mid, made, rest) =
        >>=-eq-ok (decide_row i ApprovalStatus.approved (some user.id) now _ a s) _ h in
      (mid, decide_row-Decides i _ _ now a _ s made, approve_linkages-approvals now a mid rest)
  decide-Decides (Decision.reject c) {s'} h =
      let (mid, made, rest) =
        >>=-eq-ok (decide_row i ApprovalStatus.rejected (some user.id) now _ a s) _ h in
      (
        mid,
        decide_row-Decides i _ _ now a _ s made,
        ap (λ (x : ApprovalDb). x.approvals) (sym (ok-injective rest))
            ∙ rejected-approvals now a mid,
      )
  decide-Decides Decision.cancel {s'} h =
      let (mid, made, rest) = >>=-eq-ok (decide_row i ApprovalStatus.canceled none now _ a s) _ h in
      (
        mid,
        decide_row-Decides i _ _ now a _ s made,
        ap (λ (x : ApprovalDb). x.approvals) (sym (ok-injective rest))
            ∙ cancel_linkages-approvals now a mid,
      )

  -- What a decision that goes through leaves: the approval was pending and had the version that was
  -- read; it has the outcome and one version more; no other approval has changed.
  pub decide_lem :
      (d : Decision) {s' : ApprovalDb}
      → decide user i now d a s ≡ ok s'
      → (cur : Approval) × (find s.approvals i ≡ some cur)
        × (cur.status ≡ ApprovalStatus.pending)
        × (cur.version ≡ a.version)
        × (find s'.approvals i ≡ some (decided (outcome d) (decider user d) now cur))
        × ((j : ℕ) → (i == j) ≡ false → find s'.approvals j ≡ find s.approvals j)
  decide_lem d {s'} h =
      let (mid, m, e) = decide-Decides d h in
      (
        m.before,
        m.found,
        pending_is m.before.status m.was_pending,
        m.was_read,
        rw e m.after,
        λ j ne. rw e (m.others j ne),
      )

no_second :
    (user : CurrentUser) (i now : ℕ) (d : Decision) (a : Approval) (s : ApprovalDb) {cur : Approval}
    → find s.approvals i ≡ some cur
    → is_pending cur.status ≡ false
    → decide user i now d a s ≡ err conflict
unfolding decide decide_row update_approval
no_second user i now (Decision.approve c) a s is over = ground (arith, is, over)
no_second user i now (Decision.reject c) a s is over = ground (arith, is, over)
no_second user i now Decision.cancel a s is over = ground (arith, is, over)

pub decided-IsOver :
    (user : CurrentUser) (now : ℕ) (d : Decision) (cur : Approval)
    → is_pending (decided (outcome d) (decider user d) now cur).status ≡ false
decided-IsOver user now (Decision.approve c) cur = refl
decided-IsOver user now (Decision.reject c) cur = refl
decided-IsOver user now Decision.cancel cur = refl

-- Once a decision on an approval has gone through, any decision on it that follows at once, by
-- whomever and from whatever reading of the row, is refused as a conflict.
pub decide-once :
    (user user' : CurrentUser) (i now now' : ℕ) (d d' : Decision) (a a' : Approval)
    (s s' : ApprovalDb)
    → decide user i now d a s ≡ ok s'
    → decide user' i now' d' a' s' ≡ err conflict
decide-once user user' i now now' d d' a a' s s' h =
    let (cur, _, _, _, after, _) = decide_lem user i now a s d h in
    no_second user' i now' d' a' s' after (decided-IsOver user now d cur)
