-- ===== src/Exec/Sound.antt =====
-- The correspondence of tasks and approvals over the tables of
-- backend/app/services/exec_service.py, and what its parts keep of it.
use lark_plat.Prelude.{
  some_injective, ℕ, zero, suc, ◌+◌, ◌<◌, ◌≡◌, refl, sym, ap, ◌∙◌, arith, true, false, Option, none,
  some, nat_eq, nat_beq_iff, Bool-cases, inl, inr,
}
use mathlib.Core.Path.{subst}
use lark_plat.Statuses.{TaskStatus, ApprovalStatus}
use lark_plat.Table.{Table, find, put, add, find-put, find-add}
use lark_plat.Table.Keyed.{add-IsKeyed, put-IsKeyed, find-next_id, find-put_same}
use lark_plat.Approval.Model.{Approval, ExecTask}
use lark_plat.Approval.Service.{is_pending, is_awaiting, update_approval}
use lark_plat.Exec.Model.{optimistic_update, set_task}
use lark_plat.Exec.Cancel.{close_orphan_approval, close_found}
use lark_plat.Exec.PairedMoves.{
  as_before, Paired-task, Paired-approval, Paired-release, Paired-hold,
}
use lark_plat.Exec.SoundRows.{IsSound, optimistic_update_lem, same_code, set_task-put, put-put}

module _ {t : Table ExecTask} {a : Table Approval} (sound : IsSound t a) where
  -- a new task
  pub IsSound-add :
      (y : ExecTask) → is_awaiting y.status ≡ false → y.approval_id ≡ none → IsSound (add t y) a
  IsSound-add y quiet free = record {
    keyed_t = add-IsKeyed t y sound.keyed_t;
    keyed_a = sound.keyed_a;
    positive = sound.positive;
    paired =
        Paired-task (find t) (find (add t y)) (find a) sound.paired t.next_id y
          (λ j. find-add t y j sound.keyed_t) (λ x is. cc (sym (find-next_id t sound.keyed_t) ∙ is))
          quiet (λ b named. cc (sym free ∙ named));
  }

  -- a task that does not wait, before or after, and names the same approval
  pub IsSound-put :
      (i : ℕ) (x y : ExecTask)
      → find t i ≡ some x
      → is_awaiting x.status ≡ false
      → is_awaiting y.status ≡ false
      → y.approval_id ≡ x.approval_id
      → IsSound (put t i y) a
  IsSound-put i x y is before after same = record {
    keyed_t = put-IsKeyed t i y sound.keyed_t;
    keyed_a = sound.keyed_a;
    positive = sound.positive;
    paired =
        Paired-task (find t) (find (put t i y)) (find a) sound.paired i y (λ j. find-put t i j y is)
          (λ z z_is. cc (z_is, is, before)) after
          (λ b named. sound.paired.owns i x b is (sym same ∙ named));
  }

  next_id_kept : (n : ℕ) (q : Approval) → 0 < (put a n q).next_id
  unfolding put
  next_id_kept n q = sound.positive

  next_id_add : (q : Approval) → 0 < (add a q).next_id
  unfolding add
  next_id_add q = omega arith

  -- an approval that changes none of its pairing columns is decided before and after, or is not about
  -- a task
  pub IsSound-approval :
      (n : ℕ) (p q : Approval)
      → find a n ≡ some p
      → (q.biz_type ≡ p.biz_type) × (q.biz_id ≡ p.biz_id)
      → (p.biz_type ≡ "exec" → is_pending p.status ≡ false)
      → (p.biz_type ≡ "exec" → is_pending q.status ≡ false)
      → IsSound t (put a n q)
  IsSound-approval n p q is same before after = record {
    keyed_t = sound.keyed_t;
    keyed_a = put-IsKeyed a n q sound.keyed_a;
    positive = next_id_kept n q;
    paired =
        Paired-approval (find t) (find a) (find (put a n q)) sound.paired n q
          (λ j. find-put a n j q is) (as_before (find a) n p q is same)
          (λ r at exec.
            let e = some_injective (sym is ∙ at) in
            ap (λ (z : Approval). is_pending z.status) (sym e)
            ∙ before (ap (λ (z : Approval). z.biz_type) e ∙ exec))
          (λ exec. after (sym same.0 ∙ exec));
  }

  -- the approval of a task is decided, and the task does not wait any more
  pub IsSound-release :
      (i n : ℕ) (x y : ExecTask) (p q : Approval)
      → find t i ≡ some x
      → x.approval_id ≡ some n
      → find a n ≡ some p
      → p.biz_id ≡ i
      → y.approval_id ≡ x.approval_id
      → (q.biz_type ≡ p.biz_type) × (q.biz_id ≡ p.biz_id)
      → is_awaiting y.status ≡ false
      → is_pending q.status ≡ false
      → IsSound (put t i y) (put a n q)
  IsSound-release i n x y p q is named at about same_name same after shut = record {
    keyed_t = put-IsKeyed t i y sound.keyed_t;
    keyed_a = put-IsKeyed a n q sound.keyed_a;
    positive = next_id_kept n q;
    paired =
        Paired-release (find t) (find (put t i y)) (find a) (find (put a n q)) sound.paired i n x y
          p q is named at about same_name same (λ j. find-put t i j y is) (λ j. find-put a n j q at)
          after shut;
  }

  -- a task begins to wait for a new approval
  pub IsSound-hold :
      (i : ℕ) (x y₁ y : ExecTask) (q : Approval)
      → find t i ≡ some x
      → is_awaiting x.status ≡ false
      → is_awaiting y.status ≡ true
      → y.approval_id ≡ some a.next_id
      → is_pending q.status ≡ true
      → q.biz_type ≡ "exec"
      → q.biz_id ≡ i
      → IsSound (put (put t i y₁) i y) (add a q)
  IsSound-hold i x y₁ y q is before waits named live exec about = record {
    keyed_t = put-IsKeyed _ i y (put-IsKeyed t i y₁ sound.keyed_t);
    keyed_a = add-IsKeyed a q sound.keyed_a;
    positive = next_id_add q;
    paired =
        Paired-hold (find t) (find (put (put t i y₁) i y)) (find a) (find (add a q)) sound.paired i
          a.next_id x y q is before (find-next_id a sound.keyed_a) sound.positive
          (put-put t i x y₁ y is) (λ j. find-add a q j sound.keyed_a) waits named live exec about;
  }

  -- an approval that a task names is decided, where the task does not wait
  owned-shut :
      (i n : ℕ) (x : ExecTask)
      → find t i ≡ some x
      → is_awaiting x.status ≡ false
      → x.approval_id ≡ some n
      → (p : Approval) × (find a n ≡ some p) × (is_pending p.status ≡ false)
  owned-shut i n x is quiet named =
      let (p, at, exec, about) = sound.paired.owns i x n is named in
      elim (Bool-cases (is_pending p.status)) [
        | inl live ↦
            let w = sound.paired.awaits n p at live exec in
            let e = some_injective (sym is ∙ ap (find t) (sym about) ∙ w.found) in
            cc (e, quiet, w.waits)
        | inr shut ↦ (p, at, shut)
      ]

  close_found-shut :
      (n : ℕ) (p : Approval)
      → find a n ≡ some p
      → is_pending p.status ≡ false
      → close_found n (find a n) a ≡ a
  unfolding update_approval
  close_found-shut n p at shut = ground (arith, at, shut)

  close_found-live :
      (n : ℕ) (p : Approval)
      → find a n ≡ some p
      → is_pending p.status ≡ true
      → close_found n (find a n) a
        ≡ put a n (record p { status = ApprovalStatus.canceled; version = p.version + 1 })
  unfolding update_approval
  close_found-live n p at live = ground (arith, at, live, (nat_beq_iff p.version p.version).1 refl)

  -- the approval that a task names, where the task does not wait, is closed already
  pub close_orphan-quiet :
      (i : ℕ) (x : ExecTask)
      → find t i ≡ some x
      → is_awaiting x.status ≡ false
      → close_orphan_approval x.approval_id a ≡ a
  unfolding close_orphan_approval
  close_orphan-quiet i x is quiet = closed x.approval_id refl
    where
      closed : (o : Option ℕ) → x.approval_id ≡ o → close_orphan_approval o a ≡ a
      closed none e = refl
      closed (some zero) e = refl
      closed (some (suc n)) e =
          let (p, at, shut) = owned-shut i (suc n) x is quiet e in
          close_found-shut (suc n) p at shut

  -- the approval of a task that waits, after `_close_orphan_approval`
  pub close_orphan-waits :
      (i : ℕ) (x : ExecTask)
      → find t i ≡ some x
      → is_awaiting x.status ≡ true
      → (n : ℕ) × (p : Approval) × (x.approval_id ≡ some n)
        × (find a n ≡ some p)
        × (p.biz_id ≡ i)
        × (close_orphan_approval x.approval_id a
            ≡ put a n (record p { status = ApprovalStatus.canceled; version = p.version + 1 }))
  unfolding close_orphan_approval
  close_orphan-waits i x is waits =
      let h = sound.paired.holds i x is waits in
      (
        h.approval,
        h.row_of,
        h.named,
        h.found,
        h.about,
        ap (λ o. close_orphan_approval o a) h.named
            ∙ close_suc h.approval h.positive
            ∙ close_found-live h.approval h.row_of h.found h.is_open,
      )
    where
      close_suc : (n : ℕ) → 0 < n → close_orphan_approval (some n) a ≡ close_found n (find a n) a
      close_suc zero pos = ground (arith, pos)
      close_suc (suc n) pos = refl

-- a task that leaves a status other than awaiting_approval for another, and columns that are set then
pub IsSound-moved :
    (t : Table ExecTask) (a : Table Approval) (i : ℕ) (source target : TaskStatus) (version : ℕ)
    (change : ExecTask → ExecTask) {t' : Table ExecTask}
    → IsSound t a
    → optimistic_update i source target version t ≡ some t'
    → is_awaiting source ≡ false
    → is_awaiting target ≡ false
    → ((x : ExecTask) → ((change x).status ≡ x.status) × ((change x).approval_id ≡ x.approval_id))
    → IsSound (set_task i change t') a
IsSound-moved t a i source target version change {t'} sound h before after keeps =
    let (x, is, code, e) = optimistic_update_lem i source target version t h in
    let y = record x { status = target; version = version + 1 } in
    let y_is = find-put_same t i y is in
    let one = IsSound-put sound i x y is (same_code x.status source code ∙ before) after refl in
    subst (λ u. IsSound u a)
      (sym (set_task-put i change t' (ap (λ (u : Table ExecTask). find u i) e ∙ y_is)))
      (subst (λ u. IsSound (put u i (change y)) a) (sym e)
        (IsSound-put one i y (change y) y_is after (ap is_awaiting (keeps y).0 ∙ after)
          (keeps y).1))
