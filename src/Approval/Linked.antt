-- ===== src/Approval/Linked.antt =====
-- What a decision does to the execution task or the terminal session that the approval is about.
use lark_plat.Prelude.{
  ℕ, ◌+◌, ◌≡◌, refl, sym, ap, ◌∙◌, String, true, some, [], ◌∷◌, ◌++◌, ◌==◌, nat_eq, string_eq,
  if◌then◌else◌,
}
use lark_plat.Errors.{ok, err, conflict, >>=-eq-ok}
use lark_plat.Statuses.{ApprovalStatus}
use lark_plat.Session.{CurrentUser}
use lark_plat.Table.{Table, find}
use lark_plat.Approval.Model.{Approval, ExecTask, ApprovalDb}
use lark_plat.Approval.Service.{is_awaiting, start_task, decide_row, cancel_exec, Decision, decide}
use lark_plat.Approval.Decided.{decide_lem, decide-once}
use lark_plat.Approval.Row.{decided, decide_row-Decides, ok-injective}

-- the task of an approval that went through
pub record Runs (id now : ℕ) (s s' : ApprovalDb) : Type 0 where
  pub task : ExecTask
  pub found : find s.tasks id ≡ some task
  pub was_awaiting : is_awaiting task.status ≡ true
  pub runs : find s'.tasks id ≡ some (record (start_task now task) { version = task.version + 1 })
  pub queued : s'.queue ≡ (if s.broker id now then s.queue ++ id ∷ [] else s.queue)

rejected-terminal :
    (now : ℕ) (a : Approval) (s : ApprovalDb)
    → a.biz_type ≡ "terminal"
    → (if a.biz_type == "exec" then cancel_exec now a s else s) ≡ s
rejected-terminal now a s e = rw e refl

same_sessions :
    (user : CurrentUser) (i now : ℕ) (comment : String) (a : Approval) (s s' : ApprovalDb)
    → decide user i now (Decision.reject comment) a s ≡ ok s'
    → a.biz_type ≡ "terminal"
    → s'.sessions ≡ s.sessions
unfolding decide
same_sessions user i now comment a s s' h e =
    let (mid, made, rest) =
      >>=-eq-ok (decide_row i ApprovalStatus.rejected (some user.id) now _ a s) _ h in
    let m = decide_row-Decides i _ _ now a _ s made in
    ap (λ (x : ApprovalDb). x.sessions) (sym (ok-injective rest) ∙ rejected-terminal now a mid e)
    ∙ m.same_sessions

-- Rejecting an approval of a terminal session leaves all terminal sessions as they are: the session
-- that awaited the approval awaits it still. The approval is rejected, and any decision on it that
-- follows at once is refused as a conflict.
pub reject-terminal :
    (user : CurrentUser) (i now : ℕ) (comment : String) (a : Approval) (s s' : ApprovalDb)
    → decide user i now (Decision.reject comment) a s ≡ ok s'
    → a.biz_type ≡ "terminal"
    → (s'.sessions ≡ s.sessions)
      × ((p : Approval) × (find s'.approvals i ≡ some p) × (p.status ≡ ApprovalStatus.rejected))
      × ((user' : CurrentUser) (now' : ℕ) (d : Decision) (b : Approval)
          → decide user' i now' d b s' ≡ err conflict)
reject-terminal user i now comment a s s' h e =
    let (cur, _, _, _, after, _) = decide_lem user i now a s (Decision.reject comment) h in
    (
      same_sessions user i now comment a s s' h e,
      (decided ApprovalStatus.rejected (some user.id) now cur, after, refl),
      λ user' now' d b. decide-once user user' i now now' (Decision.reject comment) d a b s s' h,
    )
