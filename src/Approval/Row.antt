-- ===== src/Approval/Row.antt =====
-- What the optimistic update of a decision, its columns and its record do to the approval rows.
use lark_plat.Prelude.{
  ℕ, ◌+◌, ◌≡◌, refl, sym, ◌∙◌, arith, true, false, ◌&&◌, Option, some, ◌==◌, nat_eq, string_eq,
  if◌then◌else◌, Bool-cases, Option-cases, inl, inr,
}
use mathlib.Core.Path.{subst}
use lark_plat.Errors.{conflict, ok, err}
use lark_plat.Statuses.{ApprovalStatus}
use lark_plat.Table.{Table, find, put, add, find-put}
use lark_plat.Approval.Model.{Approval, ApprovalRecord, ApprovalDb}
use lark_plat.Approval.Service.{is_pending, update_approval, stamp, decide_row}

-- the row that a decision makes of the row it finds
abbrev pub decided : ApprovalStatus → Option ℕ → ℕ → Approval → Approval
decided to by now a = stamp by now (record a { status = to; version = a.version + 1 })

-- what the optimistic update, the columns and the record leave
pub record Decides (i : ℕ) (to : ApprovalStatus) (by : Option ℕ) (now version : ℕ)
    (s s' : ApprovalDb) : Type 0 where
  pub before : Approval
  pub found : find s.approvals i ≡ some before
  pub was_pending : is_pending before.status ≡ true
  pub was_read : before.version ≡ version
  pub after : find s'.approvals i ≡ some (decided to by now before)
  pub others : (j : ℕ) → (i == j) ≡ false → find s'.approvals j ≡ find s.approvals j
  pub same_tasks : s'.tasks ≡ s.tasks
  pub same_sessions : s'.sessions ≡ s.sessions
  pub same_queue : s'.queue ≡ s.queue
  pub same_broker : s'.broker ≡ s.broker

pub ok-injective {ℓ} : {A : Type ℓ} {a b : A} → ok a ≡ ok b → a ≡ b
ok-injective h = cc

module _ (i : ℕ) (to : ApprovalStatus) (by : Option ℕ) (now : ℕ) where
  abbrev updated : Approval → Approval
  updated a = record a { status = to; version = a.version + 1 }

  abbrev decided_db : Approval → ApprovalRecord → ApprovalDb → ApprovalDb
  decided_db cur line s = record s {
    approvals = put (put s.approvals i (updated cur)) i (decided to by now cur);
    records = add s.records line;
  }

  -- the rows after the update and after the columns
  find-updated :
      (cur : Approval) (t : Table Approval)
      → find t i ≡ some cur
      → find (put t i (updated cur)) i ≡ some (updated cur)
  find-updated cur t is = ground (arith, find-put t i i (updated cur) {b = cur} is)

  find-stamped :
      (cur : Approval) (t : Table Approval) (j : ℕ)
      → find t i ≡ some cur
      → find (put (put t i (updated cur)) i (decided to by now cur)) j
        ≡ (if i == j then some (decided to by now cur) else find t j)
  find-stamped cur t j is = ground (
    arith,
    find-put (put t i (updated cur)) i j (decided to by now cur) {b = updated cur}
        (find-updated cur t is),
    find-put t i j (updated cur) {b = cur} is,
  )

  taken :
      (cur : Approval) (line : ApprovalRecord) (s : ApprovalDb)
      → find s.approvals i ≡ some cur
      → is_pending cur.status ≡ true
      → decide_row i to by now line cur s ≡ ok (decided_db cur line s)
  unfolding decide_row update_approval
  taken cur line s is pending = ground (arith, is, pending, find-updated cur s.approvals is)

  matches :
      (a cur : Approval) (line : ApprovalRecord) (s : ApprovalDb)
      → find s.approvals i ≡ some cur
      → (is_pending cur.status && cur.version == a.version) ≡ false
      → decide_row i to by now line a s ≡ err conflict
  unfolding decide_row update_approval
  matches a cur line s is no' = ground (arith, is, no')

  same_version :
      (a cur : Approval) (line : ApprovalRecord) (s : ApprovalDb)
      → cur.version ≡ a.version
      → decide_row i to by now line a s ≡ decide_row i to by now line cur s
  unfolding decide_row
  same_version a cur line s e = rw e refl

  taken-Decides :
      (cur : Approval) (line : ApprovalRecord) (s : ApprovalDb)
      → find s.approvals i ≡ some cur
      → is_pending cur.status ≡ true
      → Decides i to by now cur.version s (decided_db cur line s)
  taken-Decides cur line s is pending = record {
    before = cur;
    found = is;
    was_pending = pending;
    was_read = refl;
    after = ground (arith, find-stamped cur s.approvals i is);
    others = λ j ne. ground (arith, ne, find-stamped cur s.approvals j is);
    same_tasks = refl;
    same_sessions = refl;
    same_queue = refl;
    same_broker = refl;
  }

  pub decide_row-Decides :
      (a : Approval) (line : ApprovalRecord) (s : ApprovalDb) {s' : ApprovalDb}
      → decide_row i to by now line a s ≡ ok s'
      → Decides i to by now a.version s s'
  decide_row-Decides a line s {s'} h = elim (Option-cases (find s.approvals i)) [
    | inl none_ ↦ unfold decide_row update_approval in ground (arith, none_, h)
    | inr (cur, is) ↦ elim (Bool-cases (is_pending cur.status && cur.version == a.version)) [
      | inl e ↦
          let pending : is_pending cur.status ≡ true = ground (arith, e) in
          let version : cur.version ≡ a.version = ground (arith, e) in
          let made =
            sym (taken cur line s is pending) ∙ sym (same_version a cur line s version) ∙ h in
          subst (λ x. Decides i to by now a.version s x) (ok-injective made)
            (subst (λ v. Decides i to by now v s (decided_db cur line s)) version
              (taken-Decides cur line s is pending))
      | inr e ↦ cc (matches a cur line s is e, h)
    ]
  ]
