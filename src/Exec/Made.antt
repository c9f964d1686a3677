-- ===== src/Exec/Made.antt =====
-- Creating a task (`create_exec_task_record` of backend/app/services/exec_service.py) keeps the
-- correspondence of tasks and approvals.
use mathlib.Core.Path.{subst}
use lark_plat.Prelude.{
  if_yes, some_injective, ℕ, ◌+◌, ◌≡◌, refl, sym, ap, ◌∙◌, arith, Bool, true, false, Option, none,
  some, nat_eq, string_eq, nat_beq_iff,
}
use lark_plat.Errors.{ok, >>=-eq-ok}
use lark_plat.Statuses.{TaskStatus}
use lark_plat.Table.{Table, find, put, add, find-add}
use lark_plat.Table.Keyed.{find-put_same}
use lark_plat.Approval.Model.{Approval, ExecTask, ApprovalDb}
use lark_plat.Approval.Service.{
  is_awaiting, run_task, update_task, start_task, approve_exec, approve_linkages,
}
use lark_plat.Automation.Policy.{resolve_auto_policy}
use lark_plat.Exec.Model.{ExecTaskHost, ExecDb, set_task}
use lark_plat.Exec.Create.{ExecEnv, ExecRequest, Created, new_task}
use lark_plat.Exec.Hold.{
  requester, new_approval, insert_approval, move_task, approved_by, auto_approve, resolve, hold,
  start, insert_task, prepare, proceed, create_body,
}
use lark_plat.Exec.Sound.{IsSound-add, IsSound-moved, IsSound-hold, IsSound-release}
use lark_plat.Exec.SoundRows.{
  IsSound, IsSound-along, optimistic_update_lem, move_task-some, set_task-put,
}
use lark_plat.Exec.Held.{ok-injective, insert_approval-ok}
use lark_plat.Exec.Kept.{IsSoundDb}

-- the task that the approval of an execution task starts
pub record Starts (now id : ℕ) (s s' : ApprovalDb) : Type 0 where
  pub task : ExecTask
  pub found : find s.tasks id ≡ some task
  pub waits : is_awaiting task.status ≡ true
  pub tasks :
      s'.tasks ≡ put s.tasks id (record (start_task now task) { version = task.version + 1 })
  pub approvals : s'.approvals ≡ s.approvals

pub run_task-Starts :
    (now id : ℕ) (s : ApprovalDb) {s' : ApprovalDb}
    → run_task id now (find s.tasks id) s ≡ ok s'
    → Starts now id s s'
unfolding run_task update_task
run_task-Starts now id s {s'} h = ran (find s.tasks id) refl h
  where
    ran :
        (o : Option ExecTask)
        → find s.tasks id ≡ o
        → run_task id now o s ≡ ok s'
        → Starts now id s s'
    ran none e h = cc
    ran (some x) e h = record {
      task = x;
      found = e;
      waits = ground (arith, e, h);
      tasks = ground (arith, e, h);
      approvals = ground (arith, e, h);
    }

pub linkage_exec :
    (now : ℕ) (a : Approval) (s : ApprovalDb)
    → a.biz_type ≡ "exec"
    → approve_linkages now a s ≡ run_task a.biz_id now (find s.tasks a.biz_id) s
unfolding approve_linkages approve_exec
linkage_exec now a s e = rw e refl

-- a new task that waits for its approval
abbrev waiting : ℕ → ExecTask → ExecTask
waiting n x = record x { approval_id = some n; status = TaskStatus.awaiting_approval; version = 1 }

module _ (env : ExecEnv) (r : ExecRequest) (i : ℕ) (s : ExecDb) where
  auto_approve-IsSound :
      (n policy by : ℕ) {s' : ExecDb}
      → IsSoundDb s
      → find s.shared.approvals n ≡ some (new_approval i by)
      → (x : ExecTask) → find s.shared.tasks i ≡ some x
      → x.approval_id ≡ some n
      → auto_approve env by n (new_approval i by) policy s ≡ ok s'
      → IsSoundDb s'
  unfolding auto_approve approved_by new_approval
  auto_approve-IsSound n policy by {s'} sound at x is named h =
      let q = approved_by policy (new_approval i by) in
      let approved = record s.shared { approvals = put s.shared.approvals n q } in
      let (shared, linked, h₂) = >>=-eq-ok (approve_linkages env.now q approved) _ h in
      let st =
        run_task-Starts env.now i approved (sym (linkage_exec env.now q approved refl) ∙ linked) in
      let e = some_injective (sym st.found ∙ is) in
      let y = record (start_task env.now x) { version = x.version + 1 } in
      let released =
        IsSound-release sound i n x y (new_approval i by) q is named at refl refl (refl, refl) refl
          refl in
      let tasks =
        st.tasks
        ∙ ap
            (λ (u : ExecTask).
              put s.shared.tasks i (record (start_task env.now u) { version = u.version + 1 }))
            e in
      subst IsSoundDb (ok-injective h₂) (IsSound-along (sym tasks) (sym st.approvals) released)

  resolve-IsSound :
      (n : ℕ) (policy : Option ℕ) {out : Created × ExecDb}
      → IsSoundDb s
      → find s.shared.approvals n ≡ some (new_approval i (requester r))
      → (x : ExecTask) → find s.shared.tasks i ≡ some x
      → x.approval_id ≡ some n
      → resolve env r i n policy s ≡ ok out
      → IsSoundDb out.1
  unfolding resolve
  resolve-IsSound n none sound at x is named h =
      subst (λ (o : Created × ExecDb). IsSoundDb o.1) (ok-injective h) sound
  resolve-IsSound n (some policy) sound at x is named h =
      let (s', approved, h₂) =
        >>=-eq-ok (auto_approve env (requester r) n (new_approval i (requester r)) policy s) _ h in
      subst (λ (o : Created × ExecDb). IsSoundDb o.1) (ok-injective h₂)
        (auto_approve-IsSound n policy (requester r) sound at x is named approved)

abbrev naming : ℕ → ExecTask → ExecTask
naming n t = record t { approval_id = some n }

module _ (env : ExecEnv) (r : ExecRequest) (i : ℕ) where
  hold-IsSound :
      (s : ExecDb) (x : ExecTask) {out : Created × ExecDb}
      → IsSoundDb s
      → find s.shared.tasks i ≡ some x
      → is_awaiting x.status ≡ false
      → hold env r i s ≡ ok out
      → IsSoundDb out.1
  unfolding hold new_approval
  hold-IsSound s x {out} sound is quiet h =
      let n = s.shared.approvals.next_id in
      let q = new_approval i (requester r) in
      let (a', inserted, h₂) = >>=-eq-ok (insert_approval q s.shared.approvals) _ h in
      let (t', moved, h₃) =
        >>=-eq-ok
          (move_task i TaskStatus.created TaskStatus.awaiting_approval 0
            (set_task i (naming n) s.shared.tasks))
          _ h₂ in
      let (policy, resolved, h₄) =
        >>=-eq-ok (resolve_auto_policy (s.rule "ai.auto_remediate") s.governance r.remediation) _
          h₃ in
      let (z, z_is, code, e) =
        optimistic_update_lem i TaskStatus.created TaskStatus.awaiting_approval 0
          (set_task i (naming n) s.shared.tasks)
          (move_task-some i TaskStatus.created TaskStatus.awaiting_approval 0
            (set_task i (naming n) s.shared.tasks) moved) in
      let named = set_task-put i (naming n) s.shared.tasks is in
      let named_is = find-put_same s.shared.tasks i (naming n x) is in
      let same =
        some_injective (sym z_is ∙ ap (λ (u : Table ExecTask). find u i) named ∙ named_is) in
      let tasks =
        e
        ∙ ap
            (λ (u : ExecTask).
              put (set_task i (naming n) s.shared.tasks) i
                (record u { status = TaskStatus.awaiting_approval; version = 1 }))
            same
        ∙ ap (λ (u : Table ExecTask). put u i (waiting n x)) named in
      let approvals = (insert_approval-ok q s.shared.approvals inserted).1 in
      let held =
        IsSound-hold sound i x (naming n x) (waiting n x) q is quiet refl refl refl refl refl in
      let at =
        ap (λ (u : Table Approval). find u n) approvals
        ∙ find-add s.shared.approvals q n sound.keyed_a
        ∙ if_yes _ _ ((nat_beq_iff n n).1 refl) in
      let waits =
        ap (λ (u : Table ExecTask). find u i) tasks
        ∙ find-put_same (put s.shared.tasks i (naming n x)) i (waiting n x) named_is in
      resolve-IsSound env r i (record s { shared = record s.shared { approvals = a'; tasks = t' } })
        n policy (IsSound-along (sym tasks) (sym approvals) held) at (waiting n x) waits refl h₄

  start-IsSound :
      (s : ExecDb) {out : Created × ExecDb} → IsSoundDb s → start env i s ≡ ok out → IsSoundDb out.1
  unfolding start
  start-IsSound s {out} sound h =
      let (t', moved, h₂) =
        >>=-eq-ok (move_task i TaskStatus.created TaskStatus.running 0 s.shared.tasks) _ h in
      subst (λ (o : Created × ExecDb). IsSoundDb o.1) (ok-injective h₂)
        (IsSound-moved s.shared.tasks s.shared.approvals i TaskStatus.created TaskStatus.running 0
          (λ t. record t { started_at = some env.now }) {t' = t'} sound
          (move_task-some i TaskStatus.created TaskStatus.running 0 s.shared.tasks moved) refl refl
          (λ y. (refl, refl)))

proceed-IsSound :
    (env : ExecEnv) (r : ExecRequest) (s : ExecDb) (sensitive : Bool)
    (task_hosts : Table ExecTaskHost) {out : Created × ExecDb}
    → IsSoundDb s
    → proceed env r s (sensitive, task_hosts) ≡ ok out
    → IsSoundDb out.1
unfolding proceed insert_task new_task
proceed-IsSound env r s sensitive task_hosts {out} sound h = chosen sensitive h
  where
    x : Bool → ExecTask
    x b = new_task env r b

    added : (b : Bool) → IsSound (add s.shared.tasks (x b)) s.shared.approvals
    added b = IsSound-add sound (x b) refl refl

    at : (b : Bool) → find (add s.shared.tasks (x b)) s.shared.tasks.next_id ≡ some (x b)
    at b =
        find-add s.shared.tasks (x b) s.shared.tasks.next_id sound.keyed_t
        ∙ if_yes _ _ ((nat_beq_iff s.shared.tasks.next_id s.shared.tasks.next_id).1 refl)

    chosen : (b : Bool) → proceed env r s (b, task_hosts) ≡ ok out → IsSoundDb out.1
    chosen true h =
        hold-IsSound env r s.shared.tasks.next_id (insert_task env r true s task_hosts) (x true)
          (added true) (at true) refl h
    chosen false h =
        start-IsSound env r s.shared.tasks.next_id (insert_task env r false s task_hosts)
          (added false) h

pub create_body-IsSound :
    (env : ExecEnv) (r : ExecRequest) (s : ExecDb) {out : Created × ExecDb}
    → IsSoundDb s
    → create_body env r s ≡ ok out
    → IsSoundDb out.1
unfolding create_body
create_body-IsSound env r s sound h =
    let ((sensitive, task_hosts), prepared, h₂) = >>=-eq-ok (prepare env r s) _ h in
    proceed-IsSound env r s sensitive task_hosts sound h₂
