-- ===== src/Exec/Blocked.antt =====
-- A second approval of a sensitive task cannot be created: `retry_task` of
-- backend/app/services/exec_service.py.
use lark_plat.Prelude.{
  if_yes, if_no, some_injective, ℕ, zero, suc, ◌+◌, ◌≡◌, ◌≢◌, refl, sym, ap, ◌∙◌, arith, true,
  Option, none, some, List, [], ◌∷◌, length, ◌==◌, nat_eq, nat_beq_iff, Bool-cases, inl, inr,
}
use mathlib.Core.Path.{subst}
use lark_plat.Errors.{AppError, ok, err, >>=-eq-ok}
use lark_plat.Statuses.{TaskStatus, ApprovalStatus}
use lark_plat.Session.{CurrentUser, request}
use lark_plat.Session.After.{Leaves}
use lark_plat.Table.{Table, find_row, find, find-put}
use lark_plat.Approval.Model.{Approval, ExecTask}
use lark_plat.Approval.Service.{is_pending, update_approval}
use lark_plat.Exec.Model.{ExecDb}
use lark_plat.Exec.Sensitive.{Reason, is_sensitive, detect_sensitive}
use lark_plat.Exec.Create.{ExecEnv}
use lark_plat.Exec.Hold.{new_approval, has_biz, insert_approval, move_task}
use lark_plat.Exec.Cancel.{
  close_found, close_orphan_approval, hold_again, retry_body, retry_content,
}
use lark_plat.Exec.Service.{retry_task}
use lark_plat.Exec.After.{after-retry_task}
use lark_plat.Exec.Held.{ok-injective, insert_approval-ok}

find-has_biz :
    (i n : ℕ) (p : Approval) (rows : List (ℕ × Approval))
    → find_row n rows ≡ some p
    → p.biz_id ≡ i
    → has_biz i rows ≡ true
unfolding has_biz find_row
find-has_biz i n p [] at about = cc
find-has_biz i n p ((k, c) ∷ rows) at about = elim (Bool-cases (k == n)) [
  | inl e ↦
      let same = some_injective (sym (if_yes _ _ e) ∙ at) in
      let ids = ap (λ (z : Approval). z.biz_id) same ∙ about in
      ground (arith, (nat_beq_iff c.biz_id i).1 ids)
  | inr e ↦ ground (arith, find-has_biz i n p rows (sym (if_no _ _ e) ∙ at) about)
]

find-has_biz_in :
    (i n : ℕ) (p : Approval) (t : Table Approval)
    → find t n ≡ some p
    → p.biz_id ≡ i
    → has_biz i t.rows ≡ true
unfolding find
find-has_biz_in i n p t at about = find-has_biz i n p t.rows at about

new_biz : (i by : ℕ) → (new_approval i by).biz_id ≡ i
unfolding new_approval
new_biz i by = refl

-- closing an approval leaves every approval about the same task
close_found-biz :
    (m n : ℕ) (o : Option Approval) (t : Table Approval) (p : Approval)
    → find t m ≡ o
    → find t n ≡ some p
    → (q : Approval) × (find (close_found m o t) n ≡ some q) × (q.biz_id ≡ p.biz_id)
unfolding update_approval
close_found-biz m n none t p e at = (p, at, refl)
close_found-biz m n (some a) t p e at = elim (Bool-cases (is_pending a.status)) [
  | inr shut ↦ (p, ground (arith, e, shut, at), refl)
  | inl live ↦
      let q = record a { status = ApprovalStatus.canceled; version = a.version + 1 } in
      let version = (nat_beq_iff a.version a.version).1 refl in
      let puts = find-put t m n q e in
      elim (Bool-cases (m == n)) [
        | inr ne ↦ (p, ground (arith, e, live, version, puts, ne, at), refl)
        | inl same ↦
            let eq = some_injective (sym e ∙ ap (find t) ((nat_beq_iff m n).0 same) ∙ at) in
            (q, ground (arith, e, live, version, puts, same), ap (λ (z : Approval). z.biz_id) eq)
      ]
]

close_orphan-biz :
    (o : Option ℕ) (n : ℕ) (t : Table Approval) (p : Approval)
    → find t n ≡ some p
    → (q : Approval) × (find (close_orphan_approval o t) n ≡ some q) × (q.biz_id ≡ p.biz_id)
unfolding close_orphan_approval
close_orphan-biz none n t p at = (p, at, refl)
close_orphan-biz (some zero) n t p at = (p, at, refl)
close_orphan-biz (some (suc m)) n t p at = close_found-biz (suc m) n (find t (suc m)) t p refl at

hold_again-refused :
    (by i n : ℕ) (x : ExecTask) (s : ExecDb) (p : Approval) {out : TaskStatus × ExecDb}
    → find s.shared.approvals n ≡ some p
    → p.biz_id ≡ i
    → hold_again by i x s ≢ ok out
unfolding hold_again
hold_again-refused by i n x s p at about h =
    let (t', moved, h₂) =
      >>=-eq-ok (move_task i x.status TaskStatus.awaiting_approval x.version s.shared.tasks) _ h in
    let closed = close_orphan_approval x.approval_id s.shared.approvals in
    let (a', inserted, h₃) = >>=-eq-ok (insert_approval (new_approval i by) closed) _ h₂ in
    let (q, q_at, ids) = close_orphan-biz x.approval_id n s.shared.approvals p at in
    let clash = find-has_biz_in i n q closed q_at (ids ∙ about) in
    cc (clash, (insert_approval-ok (new_approval i by) closed inserted).0, new_biz i by)

retry_body-refused :
    (env : ExecEnv) (by i n : ℕ) (x : ExecTask) (s : ExecDb) (p : Approval) (reasons : List Reason)
    {out : TaskStatus × ExecDb}
    → find s.shared.approvals n ≡ some p
    → p.biz_id ≡ i
    → detect_sensitive env.lower s.rule x.command (retry_content x s) (length x.target_host_ids)
      ≡ ok reasons
    → is_sensitive reasons ≡ true
    → retry_body env by i x s ≢ ok out
unfolding retry_body
retry_body-refused env by i n x s p reasons {out} at about found sensitive h =
    let (rs, is, h₂) =
      >>=-eq-ok
        (detect_sensitive env.lower s.rule x.command (retry_content x s) (length x.target_host_ids))
        _ h in
    let same = ok-injective (sym is ∙ found) in
    hold_again-refused by i n x s p {out = out} at about
      (sym (if_yes _ _ (ap is_sensitive same ∙ sensitive)) ∙ h₂)

-- A task about which there is an approval is never retried while its content is sensitive: the new
-- approval would be the second one with its id, so every such request of a retry is refused and
-- changes nothing.
pub retry_task-second_approval :
    (env : ExecEnv) (user : CurrentUser) (i n : ℕ) (db : ExecDb) (x : ExecTask) (p : Approval)
    (reasons : List Reason)
    → find db.shared.tasks i ≡ some x
    → find db.shared.approvals n ≡ some p
    → p.biz_id ≡ i
    → detect_sensitive env.lower db.rule x.command (retry_content x db) (length x.target_host_ids)
      ≡ ok reasons
    → is_sensitive reasons ≡ true
    → (e : AppError) × (request (retry_task env user i) db ≡ (err e, db))
unfolding Leaves
retry_task-second_approval env user i n db x p reasons is at about found sensitive =
    after-retry_task (λ out. (e : AppError) × (out ≡ (err e, db))) env user i db (λ e. (e, refl))
      λ z status s z_is can made.
        elim (retry_body-refused env user.id i n z db p reasons at about
          (subst
            (λ (u : ExecTask).
              detect_sensitive env.lower db.rule u.command (retry_content u db)
                (length u.target_host_ids)
              ≡ ok reasons)
            (some_injective (sym is ∙ z_is)) found)
          sensitive made) [ ]
