-- ===== src/Exec/PairedMoves.antt =====
-- The changes of task and approval rows that keep tasks and approvals in correspondence
-- (backend/app/services/exec_service.py).
use lark_plat.Prelude.{
  if_yes, if_no, some_injective, ℕ, ◌<◌, ◌≡◌, refl, sym, ap, ◌∙◌, true, false, none, some, ◌==◌,
  nat_eq, nat_beq_iff, Bool-cases, inl, inr,
}
use mathlib.Core.Path.{subst}
use lark_plat.Approval.Model.{Approval, ExecTask}
use lark_plat.Approval.Service.{is_pending, is_awaiting}
use lark_plat.Exec.Paired.{
  Tasks, Approvals, Owns, Paired, Puts, put_at, Holds-kept, Awaits-kept, Owns-kept,
}

module _ (ts ts' : Tasks) (qs : Approvals) (paired : Paired ts qs) where
  -- a task that does not wait is new, or had not waited before
  pub Paired-task :
      (i : ℕ) (y : ExecTask)
      → Puts i y ts ts'
      → ((x : ExecTask) → ts i ≡ some x → is_awaiting x.status ≡ false)
      → is_awaiting y.status ≡ false
      → ((a : ℕ) → y.approval_id ≡ some a → Owns qs i a)
      → Paired ts' qs
  Paired-task i y puts before after owned = record {
    holds = λ j x is waits. elim (Bool-cases (i == j)) [
      | inl same ↦ let e = put_at i y ts ts' puts j x same is in cc (e, waits, after)
      | inr ne ↦ paired.holds j x (sym (puts j ∙ if_no _ _ ne) ∙ is) waits
    ];
    awaits = λ a p is live exec.
        let w = paired.awaits a p is live exec in
        elim (Bool-cases (i == p.biz_id)) [
          | inl same ↦
              let e = (nat_beq_iff i p.biz_id).0 same in
              let quiet = before w.task (ap ts e ∙ w.found) in cc (quiet, w.waits)
          | inr ne ↦ Awaits-kept ts ts' a p w (puts p.biz_id ∙ if_no _ _ ne)
        ];
    owns = λ j x a is named. elim (Bool-cases (i == j)) [
      | inl same ↦
          let e = put_at i y ts ts' puts j x same is in
          subst (λ k. Owns qs k a) ((nat_beq_iff i j).0 same)
            (owned a (ap (λ (z : ExecTask). z.approval_id) (sym e) ∙ named))
      | inr ne ↦ paired.owns j x a (sym (puts j ∙ if_no _ _ ne) ∙ is) named
    ];
  }

module _ (ts : Tasks) (qs qs' : Approvals) (paired : Paired ts qs) where
  -- an approval that is decided, or not about a task, has changed its other columns
  pub Paired-approval :
      (a : ℕ) (q : Approval)
      → Puts a q qs qs'
      → ((p : Approval) → qs a ≡ some p → (q.biz_type ≡ p.biz_type) × (q.biz_id ≡ p.biz_id))
      → ((p : Approval) → qs a ≡ some p → p.biz_type ≡ "exec" → is_pending p.status ≡ false)
      → (q.biz_type ≡ "exec" → is_pending q.status ≡ false)
      → Paired ts qs'
  Paired-approval a q puts same_biz before after = record {
    holds = λ j x is waits.
        let h = paired.holds j x is waits in
        elim (Bool-cases (a == h.approval)) [
          | inl same ↦
              let e = (nat_beq_iff a h.approval).0 same in
              let shut = before h.row_of (ap qs e ∙ h.found) h.of_exec in cc (shut, h.is_open)
          | inr ne ↦ Holds-kept qs qs' j x h (puts h.approval ∙ if_no _ _ ne)
        ];
    awaits = λ b p is live exec. elim (Bool-cases (a == b)) [
      | inl same ↦
          let e = put_at a q qs qs' puts b p same is in
          let shut = after (ap (λ (z : Approval). z.biz_type) (sym e) ∙ exec) in cc (e, shut, live)
      | inr ne ↦ paired.awaits b p (sym (puts b ∙ if_no _ _ ne) ∙ is) live exec
    ];
    owns = λ j x b is named. Owns-kept qs qs' a q puts same_biz j b (paired.owns j x b is named);
  }

pub as_before :
    (qs : Approvals) (a : ℕ) (p q : Approval)
    → qs a ≡ some p
    → (q.biz_type ≡ p.biz_type) × (q.biz_id ≡ p.biz_id)
    → (r : Approval) → qs a ≡ some r
    → (q.biz_type ≡ r.biz_type) × (q.biz_id ≡ r.biz_id)
as_before qs a p q at same r is =
    subst (λ (k : Approval). (q.biz_type ≡ k.biz_type) × (q.biz_id ≡ k.biz_id))
      (some_injective (sym at ∙ is)) same

module _ (ts ts' : Tasks) (qs qs' : Approvals) (paired : Paired ts qs) where
  -- the approval of a task that waits is decided, and the task waits no more
  pub Paired-release :
      (i a : ℕ) (x y : ExecTask) (p q : Approval)
      → ts i ≡ some x
      → x.approval_id ≡ some a
      → qs a ≡ some p
      → p.biz_id ≡ i
      → y.approval_id ≡ x.approval_id
      → (q.biz_type ≡ p.biz_type) × (q.biz_id ≡ p.biz_id)
      → Puts i y ts ts'
      → Puts a q qs qs'
      → is_awaiting y.status ≡ false
      → is_pending q.status ≡ false
      → Paired ts' qs'
  Paired-release i a x y p q is named at about same_name same_biz puts_t puts_a after shut =
      record {
        holds = λ j z z_is z_waits. elim (Bool-cases (i == j)) [
          | inl same ↦ let e = put_at i y ts ts' puts_t j z same z_is in cc (e, z_waits, after)
          | inr ne ↦
              let h = paired.holds j z (sym (puts_t j ∙ if_no _ _ ne) ∙ z_is) z_waits in
              elim (Bool-cases (a == h.approval)) [
                | inl same ↦
                    let e = (nat_beq_iff a h.approval).0 same in
                    let eq = some_injective (sym at ∙ ap qs e ∙ h.found) in
                    let ids = sym about ∙ ap (λ (z : Approval). z.biz_id) eq ∙ h.about in
                    cc (ne, (nat_beq_iff i j).1 ids)
                | inr other ↦ Holds-kept qs qs' j z h (puts_a h.approval ∙ if_no _ _ other)
              ]
        ];
        awaits = λ b r r_is live exec. elim (Bool-cases (a == b)) [
          | inl same ↦ let e = put_at a q qs qs' puts_a b r same r_is in cc (e, live, shut)
          | inr ne ↦
              let w = paired.awaits b r (sym (puts_a b ∙ if_no _ _ ne) ∙ r_is) live exec in
              elim (Bool-cases (i == r.biz_id)) [
                | inl same ↦
                    let e = (nat_beq_iff i r.biz_id).0 same in
                    let eq = some_injective (sym is ∙ ap ts e ∙ w.found) in
                    let ids =
                      some_injective
                        (sym named ∙ ap (λ (z : ExecTask). z.approval_id) eq ∙ w.named) in
                    cc (ne, (nat_beq_iff a b).1 ids)
                | inr other ↦ Awaits-kept ts ts' b r w (puts_t r.biz_id ∙ if_no _ _ other)
              ]
        ];
        owns = λ j z b z_is z_names.
            Owns-kept qs qs' a q puts_a (as_before qs a p q at same_biz) j b
              (elim (Bool-cases (i == j)) [
                | inl same ↦
                    let e = put_at i y ts ts' puts_t j z same z_is in
                    paired.owns j x b (ap ts (sym ((nat_beq_iff i j).0 same)) ∙ is)
                      (sym same_name ∙ ap (λ (k : ExecTask). k.approval_id) (sym e) ∙ z_names)
                | inr ne ↦ paired.owns j z b (sym (puts_t j ∙ if_no _ _ ne) ∙ z_is) z_names
              ]);
      }

  -- a task begins to wait for a new approval
  pub Paired-hold :
      (i a : ℕ) (x y : ExecTask) (q : Approval)
      → ts i ≡ some x
      → is_awaiting x.status ≡ false
      → qs a ≡ none
      → 0 < a
      → Puts i y ts ts'
      → Puts a q qs qs'
      → is_awaiting y.status ≡ true
      → y.approval_id ≡ some a
      → is_pending q.status ≡ true
      → q.biz_type ≡ "exec"
      → q.biz_id ≡ i
      → Paired ts' qs'
  Paired-hold i a x y q is before fresh pos puts_t puts_a waits named live exec about = record {
    holds = λ j z z_is z_waits. elim (Bool-cases (i == j)) [
      | inl same ↦
          let e = put_at i y ts ts' puts_t j z same z_is in
          record {
            approval = a;
            row_of = q;
            named = ap (λ (z : ExecTask). z.approval_id) e ∙ named;
            positive = pos;
            found = puts_a a ∙ if_yes _ _ ((nat_beq_iff a a).1 refl);
            is_open = live;
            of_exec = exec;
            about = about ∙ (nat_beq_iff i j).0 same;
          }
      | inr ne ↦
          let h = paired.holds j z (sym (puts_t j ∙ if_no _ _ ne) ∙ z_is) z_waits in
          elim (Bool-cases (a == h.approval)) [
            | inl same ↦
                let e = (nat_beq_iff a h.approval).0 same in
                let clash = sym fresh ∙ ap qs e ∙ h.found in cc clash
            | inr other ↦ Holds-kept qs qs' j z h (puts_a h.approval ∙ if_no _ _ other)
          ]
    ];
    awaits = λ b r r_is r_live r_exec. elim (Bool-cases (a == b)) [
      | inl same ↦
          let e = put_at a q qs qs' puts_a b r same r_is in
          record {
            task = y;
            found =
                puts_t r.biz_id
                ∙ if_yes _ _
                    ((nat_beq_iff i r.biz_id).1 (sym (ap (λ (z : Approval). z.biz_id) e ∙ about)));
            waits = waits;
            named = named ∙ ap some ((nat_beq_iff a b).0 same);
          }
      | inr ne ↦
          let w = paired.awaits b r (sym (puts_a b ∙ if_no _ _ ne) ∙ r_is) r_live r_exec in
          elim (Bool-cases (i == r.biz_id)) [
            | inl same ↦
                let e = (nat_beq_iff i r.biz_id).0 same in
                let eq = some_injective (sym is ∙ ap ts e ∙ w.found) in cc (eq, before, w.waits)
            | inr other ↦ Awaits-kept ts ts' b r w (puts_t r.biz_id ∙ if_no _ _ other)
          ]
    ];
    owns = λ j z b z_is z_names. elim (Bool-cases (i == j)) [
      | inl same ↦
          let e = put_at i y ts ts' puts_t j z same z_is in
          let b_is =
            some_injective (sym named ∙ ap (λ (k : ExecTask). k.approval_id) (sym e) ∙ z_names) in
          (
            q,
            puts_a b ∙ if_yes _ _ ((nat_beq_iff a b).1 b_is),
            exec,
            about ∙ (nat_beq_iff i j).0 same,
          )
      | inr ne ↦
          Owns-kept qs qs' a q puts_a (λ p at. cc (sym fresh ∙ at)) j b
            (paired.owns j z b (sym (puts_t j ∙ if_no _ _ ne) ∙ z_is) z_names)
    ];
  }
