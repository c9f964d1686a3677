-- ===== src/Approval/Traces.antt =====
-- Sequences of the requests of backend/app/services/approval_service.py.
use lark_plat.Prelude.{
  ℕ, ◌≡◌, refl, ◌∙◌, arith, true, false, Option, none, some, List, [], ◌∷◌, ◌==◌, nat_eq, string_eq,
  Bool-cases, inl, inr,
}
use lark_plat.Errors.{AppError, not_found, conflict, Result, ok, err}
use lark_plat.Session.{CurrentUser}
use lark_plat.Table.{find}
use lark_plat.Approval.Model.{Approval, ApprovalDb}
use lark_plat.Approval.Service.{is_pending, Decision, decide}
use lark_plat.Session.{Db, request, pure, or_raise, require, ◌>>=◌, ◌>>◌}
use lark_plat.Session.After.{
  Leaves, after-require, after-require_perm, after-skip, after-written_save,
}
use lark_plat.Approval.Requests.{require_pending, decide_request, may_decide, perm_gate}
use lark_plat.Approval.Decided.{decide_lem}

-- a request is refused and leaves the database as it was, or its decision goes through
pub data Outcome (user : CurrentUser) (i now : ℕ) (d : Decision) (s : ApprovalDb)
    : Result (Unit {0}) × ApprovalDb → Type 0 where
  refused : (e : AppError) → Outcome user i now d s (err e, s)
  went_through :
      (a : Approval) (s' : ApprovalDb)
      → find s.approvals i ≡ some a
      → may_decide user d a ≡ true
      → decide user i now d a s ≡ ok s'
      → Outcome user i now d s (ok tt, s')

module _ {A : Type 0} (P : Result A × ApprovalDb → Type 0) (s : ApprovalDb) where
  after-perm :
      (user : CurrentUser) (d : Decision) (m : Db ApprovalDb A)
      → ((e : AppError) → P (err e, s))
      → Leaves P m s
      → Leaves P (perm_gate user d >> m) s
  after-perm user (Decision.approve c) m h k = after-require_perm P s user _ m h λ _. k
  after-perm user (Decision.reject c) m h k = after-require_perm P s user _ m h λ _. k
  after-perm user Decision.cancel m h k = after-skip P s m k

  found_pending :
      (o : Option Approval) (k : Approval → Db ApprovalDb A)
      → ((e : AppError) → P (err e, s))
      → ((a : Approval) → o ≡ some a → is_pending a.status ≡ true → Leaves P (k a) s)
      → Leaves P
          (((λ x. or_raise not_found x o) >>= λ a. require (is_pending a.status) conflict >> pure a)
            >>= k)
          s
  unfolding Leaves ◌>>=◌
  found_pending none k h g = h _
  found_pending (some a) k h g = elim (Bool-cases (is_pending a.status)) [
    | inl e ↦ rw e (g a refl e)
    | inr e ↦ rw e (h _)
  ]

  after-pending :
      (i : ℕ) (k : Approval → Db ApprovalDb A)
      → ((e : AppError) → P (err e, s))
      → ((a : Approval) → find s.approvals i ≡ some a → Leaves P (k a) s)
      → Leaves P (require_pending i >>= k) s
  unfolding Leaves require_pending ◌>>=◌
  after-pending i k h g = found_pending (find s.approvals i) k h λ a is _. g a is

module _ (user : CurrentUser) (i now : ℕ) (d : Decision) (s : ApprovalDb) where
  leaves : Leaves (Outcome user i now d s) (decide_request user i now d) s
  unfolding decide_request
  leaves = after-perm (Outcome user i now d s) s user d _ refused (
      after-pending (Outcome user i now d s) s i _ refused λ a is.
        after-require (Outcome user i now d s) s _ _ _ refused λ known.
          after-require (Outcome user i now d s) s _ _ _ refused λ may.
            after-written_save (Outcome user i now d s) s _ refused
              λ s' made. went_through a s' is may made)

  pub decide_request-Outcome : Outcome user i now d s (request (decide_request user i now d) s)
  unfolding Leaves
  decide_request-Outcome = leaves

-- one call of the API
pub record Call : Type 0 where
  pub user : CurrentUser
  pub approval : ℕ
  pub now : ℕ
  pub decision : Decision

unfoldable pub serve_all : List Call → ApprovalDb → ApprovalDb
serve_all [] s = s
serve_all (c ∷ cs) s =
    serve_all cs (request (decide_request c.user c.approval c.now c.decision) s).1

-- one request keeps a decided approval
kept_decided :
    (user : CurrentUser) (j now : ℕ) (d : Decision) (s : ApprovalDb)
    {r : Result (Unit {0}) × ApprovalDb} (i : ℕ) (a : Approval)
    → find s.approvals i ≡ some a
    → is_pending a.status ≡ false
    → Outcome user j now d s r
    → find r.1.approvals i ≡ some a
kept_decided user j now d s i a is over (refused e) = is
kept_decided user j now d s i a is over (went_through b s' is' may made) =
    let (cur, found, pending, _, _, others) = decide_lem user j now b s d made in
    elim (Bool-cases (j == i)) [
      | inl same ↦ ground (arith, same, found, is, pending, over)
      | inr ne ↦ others i ne ∙ is
    ]

-- However many requests follow, by any callers, an approval that was decided stays as it was decided:
-- its outcome, its approver, its time and its version.
pub serve_all-decided :
    (calls : List Call) (s : ApprovalDb) (i : ℕ) (a : Approval)
    → find s.approvals i ≡ some a
    → is_pending a.status ≡ false
    → find (serve_all calls s).approvals i ≡ some a
unfolding serve_all
serve_all-decided [] s i a is over = is
serve_all-decided (c ∷ cs) s i a is over =
    serve_all-decided cs _ i a
      (kept_decided c.user c.approval c.now c.decision s i a is over
        (decide_request-Outcome c.user c.approval c.now c.decision s))
      over
