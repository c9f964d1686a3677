-- ===== src/Approval/Requests.antt =====
-- The requests approve, reject and cancel of backend/app/services/approval_service.py.
use lark_plat.Prelude.{ℕ, Bool, true, ◌||◌, elem, ◌==◌, nat_eq, string_eq}
use lark_plat.Errors.{forbidden, not_found, conflict}
use lark_plat.Session.{
  Db, pure, fetch, write, commit, require, CurrentUser, require_perm, ◌>>=◌, ◌>>◌,
}
use lark_plat.Table.{find}
use lark_plat.Approval.Model.{Approval, ApprovalDb, known_biz_types}
use lark_plat.Approval.Service.{is_pending, Decision, decide}

unfoldable pub require_pending : ℕ → Db ApprovalDb Approval
require_pending i = do
  a ← fetch not_found (λ (s : ApprovalDb). find s.approvals i)
  require (is_pending a.status) conflict
  pure a

abbrev pub may_decide : CurrentUser → Decision → Approval → Bool
may_decide user Decision.cancel a = a.requester_id == user.id || user.is_admin
may_decide user _ a = true

abbrev pub perm_gate : CurrentUser → Decision → Db ApprovalDb Unit
perm_gate user Decision.cancel = pure tt
perm_gate user _ = require_perm user "approval:approve"

-- approve, reject and cancel
unfoldable pub decide_request : CurrentUser → ℕ → ℕ → Decision → Db ApprovalDb Unit
decide_request user i now d = do
  perm_gate user d
  a ← require_pending i
  require (elem a.biz_type known_biz_types) not_found
  require (may_decide user d a) forbidden
  write (decide user i now d a)
  commit
