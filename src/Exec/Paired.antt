-- ===== src/Exec/Paired.antt =====
-- The tasks that wait for an approval and the pending approvals of tasks correspond to each other:
-- the invariant of backend/app/services/exec_service.py and
-- backend/app/services/approval_service.py on the rows that both write, one rule for each kind of
-- change.
use lark_plat.Prelude.{
  if_yes, if_no, some_injective, ℕ, ◌<◌, ◌≡◌, sym, ap, ◌∙◌, true, Option, some, ◌==◌, nat_eq,
  nat_beq_iff, if◌then◌else◌, Bool-cases, inl, inr,
}
use lark_plat.Approval.Model.{Approval, ExecTask}
use lark_plat.Approval.Service.{is_pending, is_awaiting}

-- the rows as functions of their keys
abbrev pub Tasks : Type 0
Tasks = ℕ → Option ExecTask

abbrev pub Approvals : Type 0
Approvals = ℕ → Option Approval

-- the pending approval a of the task i
pub record Holds (qs : Approvals) (i : ℕ) (x : ExecTask) : Type 0 where
  pub approval : ℕ
  pub row_of : Approval
  pub named : x.approval_id ≡ some approval
  pub positive : 0 < approval
  pub found : qs approval ≡ some row_of
  pub is_open : is_pending row_of.status ≡ true
  pub of_exec : row_of.biz_type ≡ "exec"
  pub about : row_of.biz_id ≡ i

pub record Awaits (ts : Tasks) (a : ℕ) (p : Approval) : Type 0 where
  pub task : ExecTask
  pub found : ts p.biz_id ≡ some task
  pub waits : is_awaiting task.status ≡ true
  pub named : task.approval_id ≡ some a

-- the approval that a task names is about that task
abbrev pub Owns : Approvals → ℕ → ℕ → Type 0
Owns qs i a = (p : Approval) × (qs a ≡ some p) × (p.biz_type ≡ "exec") × (p.biz_id ≡ i)

pub record Paired (ts : Tasks) (qs : Approvals) : Type 0 where
  pub holds : (i : ℕ) (x : ExecTask) → ts i ≡ some x → is_awaiting x.status ≡ true → Holds qs i x
  pub awaits :
      (a : ℕ) (p : Approval)
      → qs a ≡ some p
      → is_pending p.status ≡ true
      → p.biz_type ≡ "exec"
      → Awaits ts a p
  pub owns : (i : ℕ) (x : ExecTask) (a : ℕ) → ts i ≡ some x → x.approval_id ≡ some a → Owns qs i a

-- one row has changed, or is new
abbrev pub Puts : {A : Type 0} → ℕ → A → (ℕ → Option A) → (ℕ → Option A) → Type 0
Puts i a f g = (j : ℕ) → g j ≡ (if i == j then some a else f j)

-- the row that was put, at its key
pub put_at :
    {A : Type 0} (i : ℕ) (a : A) (f g : ℕ → Option A)
    → Puts i a f g
    → (j : ℕ) (b : A) → (i == j) ≡ true
    → g j ≡ some b
    → b ≡ a
put_at i a f g puts j b same is = some_injective (sym is ∙ puts j ∙ if_yes _ _ same)

pub Holds-kept :
    (qs qs' : Approvals) (i : ℕ) (x : ExecTask) (h : Holds qs i x)
    → qs' h.approval ≡ qs h.approval
    → Holds qs' i x
Holds-kept qs qs' i x h e = record {
  approval = h.approval;
  row_of = h.row_of;
  named = h.named;
  positive = h.positive;
  found = e ∙ h.found;
  is_open = h.is_open;
  of_exec = h.of_exec;
  about = h.about;
}

pub Awaits-kept :
    (ts ts' : Tasks) (a : ℕ) (p : Approval)
    → Awaits ts a p
    → ts' p.biz_id ≡ ts p.biz_id
    → Awaits ts' a p
Awaits-kept ts ts' a p w e = record {
  task = w.task;
  found = e ∙ w.found;
  waits = w.waits;
  named = w.named;
}

pub Owns-kept :
    (qs qs' : Approvals) (a : ℕ) (q : Approval)
    → Puts a q qs qs'
    → ((p : Approval) → qs a ≡ some p → (q.biz_type ≡ p.biz_type) × (q.biz_id ≡ p.biz_id))
    → (i b : ℕ) → Owns qs i b
    → Owns qs' i b
Owns-kept qs qs' a q puts same_biz i b (p, is, exec, about) = elim (Bool-cases (a == b)) [
  | inl same ↦
      let (types, ids) = same_biz p (ap qs ((nat_beq_iff a b).0 same) ∙ is) in
      (q, puts b ∙ if_yes _ _ same, types ∙ exec, ids ∙ about)
  | inr ne ↦ (p, (puts b ∙ if_no _ _ ne) ∙ is, exec, about)
]
