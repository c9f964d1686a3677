-- ===== src/Exec/Traces.antt =====
-- Sequences of what happens to execution tasks: the requests of
-- backend/app/services/exec_service.py and backend/app/services/approval_service.py, the tasks that
-- the workflow engine creates and cancels, the worker and the sweep of
-- backend/app/tasks/exec_tasks.py, and the results of the agents.
use lark_plat.Prelude.{
  some_injective, ℕ, ◌≡◌, refl, sym, ap, ◌∙◌, arith, Bool, true, false, Option, none, some, List,
  [], ◌∷◌, Bool-cases, inl, inr, if◌then◌else◌,
}
use mathlib.Core.Path.{subst}
use lark_plat.Json.{Fields}
use lark_plat.Errors.{conflict, Result, ok, err}
use lark_plat.Statuses.{TaskStatus}
use lark_plat.Session.{CurrentUser, request}
use lark_plat.Session.After.{Leaves}
use lark_plat.Table.{find}
use lark_plat.Approval.Model.{Approval, ExecTask, ApprovalDb}
use lark_plat.Approval.Service.{is_pending, is_awaiting, Decision}
use lark_plat.Approval.Requests.{decide_request}
use lark_plat.Approval.Traces.{Outcome, decide_request-Outcome}
use lark_plat.Exec.Model.{ExecDb, is_running}
use lark_plat.Exec.Create.{ExecEnv, ExecRequest}
use lark_plat.Exec.Cancel.{cancel_exec_task_record, cancel_or_conflict}
use lark_plat.Exec.Service.{scoped, create_exec_task_record, create_task, stop_task, retry_task}
use lark_plat.Exec.Dispatch.{start_hosts, finish_host, fold_dispatch, persist_result, scan_timeouts}
use lark_plat.Exec.Kept.{
  IsSoundDb, start_hosts-IsSound, finish_host-IsSound, fold_dispatch-IsSound,
  persist_result-IsSound, scan_timeouts-IsSound,
}
use lark_plat.Exec.Held.{ok-injective, cancel_exec_task_record-IsSound, retry_body-IsSound}
use lark_plat.Exec.Made.{create_body-IsSound}
use lark_plat.Exec.Acts.{decide-IsSound}
use lark_plat.Exec.After.{
  after-create_task, after-stop_task, after-retry_task, after-create_exec_task_record,
}

pub data Event : Type 0 where
  creates : ExecEnv → CurrentUser → ExecRequest → Event
  engine_creates : ExecEnv → ExecRequest → Event
  stops : CurrentUser → ℕ → ℕ → Event
  engine_cancels : ℕ → ℕ → Event
  retries : ExecEnv → CurrentUser → ℕ → Event
  decides : CurrentUser → ℕ → ℕ → Decision → Event
  starts : (ℕ → Bool) → ℕ → ℕ → Event
  finishes : ℕ → ℕ → Bool → Event
  folds : Bool → ℕ → ℕ → Event
  reports : ℕ → ℕ → Fields → Option ℕ → Event
  sweeps : ℕ → Event

abbrev pub cancel_found : ℕ → ℕ → Option ExecTask → ExecDb → ExecDb
cancel_found now i none s = s
cancel_found now i (some x) s = (cancel_exec_task_record now i x s).1

-- what is left in the database
unfoldable pub happens : Event → ExecDb → ExecDb
happens (creates env user r) s = (request (create_task env user r) s).1
happens (engine_creates env r) s = (request (create_exec_task_record env r) s).1
happens (stops user now i) s = (request (stop_task user now i) s).1
happens (engine_cancels now i) s = cancel_found now i (find s.shared.tasks i) s
happens (retries env user i) s = (request (retry_task env user i) s).1
happens (decides user i now d) s = record s {
  shared = (request (decide_request user i now d) s.shared).1;
}
happens (starts granted now i) s = start_hosts granted now i s
happens (finishes now k succeeded) s = finish_host now k succeeded s
happens (folds broker now i) s = fold_dispatch broker now i s
happens (reports now k frame exit_code) s = persist_result now k frame exit_code s
happens (sweeps now) s = scan_timeouts now s

unfoldable pub happen_all : List Event → ExecDb → ExecDb
happen_all [] s = s
happen_all (e ∷ es) s = happen_all es (happens e s)

not_running : (s : TaskStatus) → is_awaiting s ≡ true → is_running s ≡ false
not_running s h = ground (arith, h)

-- the database of an answer
abbrev SoundAfter : {A : Type 0} → Result A × ExecDb → Type 0
SoundAfter out = IsSoundDb out.1

decided-IsSound :
    (user : CurrentUser) (i now : ℕ) (d : Decision) (s : ExecDb)
    {out : Result (Unit {0}) × ApprovalDb}
    → IsSoundDb s
    → Outcome user i now d s.shared out
    → IsSoundDb (record s { shared = out.1 })
decided-IsSound user i now d s sound (Outcome.refused e) = sound
decided-IsSound user i now d s sound (Outcome.went_through a s' is may made) =
    decide-IsSound user i now a s.shared s' is d sound made

created-IsSound :
    (env : ExecEnv) (user : CurrentUser) (r : ExecRequest) (s : ExecDb)
    → IsSoundDb s
    → Leaves SoundAfter (create_task env user r) s
created-IsSound env user r s sound =
    after-create_task SoundAfter env user r s (λ e. sound)
      λ c s' may made.
        let kept = create_body-IsSound env (scoped user r) s sound made in (kept, kept)

recorded-IsSound :
    (env : ExecEnv) (r : ExecRequest) (s : ExecDb)
    → IsSoundDb s
    → Leaves SoundAfter (create_exec_task_record env r) s
recorded-IsSound env r s sound =
    after-create_exec_task_record SoundAfter env r s (λ e. sound)
      λ c s' made. create_body-IsSound env r s sound made

canceled-IsSound :
    (now i : ℕ) (x : ExecTask) (s : ExecDb) {s' : ExecDb}
    → find s.shared.tasks i ≡ some x
    → IsSoundDb s
    → cancel_or_conflict now i x s ≡ ok s'
    → IsSoundDb s'
unfolding cancel_or_conflict
canceled-IsSound now i x s {s'} is sound h =
    subst IsSoundDb (went (cancel_exec_task_record now i x s) h)
      (cancel_exec_task_record-IsSound now i x s is sound)
  where
    went : (r : Bool × ExecDb) → (if r.0 then ok r.1 else err conflict) ≡ ok s' → r.1 ≡ s'
    went (true, d) h = ok-injective h
    went (false, d) h = cc

stopped-IsSound :
    (user : CurrentUser) (now i : ℕ) (s : ExecDb)
    → IsSoundDb s
    → Leaves SoundAfter (stop_task user now i) s
stopped-IsSound user now i s sound =
    after-stop_task SoundAfter user now i s (λ e. sound)
      λ x s' is own can made. canceled-IsSound now i x s is sound made

retried-IsSound :
    (env : ExecEnv) (user : CurrentUser) (i : ℕ) (s : ExecDb)
    → IsSoundDb s
    → Leaves SoundAfter (retry_task env user i) s
retried-IsSound env user i s sound =
    after-retry_task SoundAfter env user i s (λ e. sound)
      λ x status s' is can made.
        let kept = retry_body-IsSound env user.id i x s is can sound made in (kept, kept)

cancel_found-IsSound :
    (now i : ℕ) (o : Option ExecTask) (s : ExecDb)
    → find s.shared.tasks i ≡ o
    → IsSoundDb s
    → IsSoundDb (cancel_found now i o s)
cancel_found-IsSound now i none s is sound = sound
cancel_found-IsSound now i (some x) s is sound = cancel_exec_task_record-IsSound now i x s is sound

happens-IsSound : (e : Event) (s : ExecDb) → IsSoundDb s → IsSoundDb (happens e s)
unfolding happens Leaves
happens-IsSound (Event.creates env user r) s sound = created-IsSound env user r s sound
happens-IsSound (Event.engine_creates env r) s sound = recorded-IsSound env r s sound
happens-IsSound (Event.stops user now i) s sound = stopped-IsSound user now i s sound
happens-IsSound (Event.engine_cancels now i) s sound =
    cancel_found-IsSound now i (find s.shared.tasks i) s refl sound
happens-IsSound (Event.retries env user i) s sound = retried-IsSound env user i s sound
happens-IsSound (Event.decides user i now d) s sound =
    decided-IsSound user i now d s sound (decide_request-Outcome user i now d s.shared)
happens-IsSound (Event.starts granted now i) s sound = start_hosts-IsSound granted now i s sound
happens-IsSound (Event.finishes now k succeeded) s sound =
    finish_host-IsSound now k succeeded s sound
happens-IsSound (Event.folds broker now i) s sound = fold_dispatch-IsSound broker now i s sound
happens-IsSound (Event.reports now k frame exit_code) s sound =
    persist_result-IsSound now k frame exit_code s sound
happens-IsSound (Event.sweeps now) s sound = scan_timeouts-IsSound now s sound

-- Where the tasks that wait for an approval and the pending approvals of tasks correspond to each
-- other one to one, they do so after any sequence of requests, decisions, dispatches, host results
-- and sweeps, also where a request is refused: a task in awaiting_approval names a pending approval
-- about it, and the task of a pending approval is in awaiting_approval and names this approval.
pub happen_all-IsSound : (es : List Event) (s : ExecDb) → IsSoundDb s → IsSoundDb (happen_all es s)
unfolding happen_all
happen_all-IsSound [] s sound = sound
happen_all-IsSound (e ∷ es) s sound =
    happen_all-IsSound es (happens e s) (happens-IsSound e s sound)

-- From such a database no sequence of events lets a task run while the approval that it names is
-- undecided: it is there, is about this task, and is not pending.
pub happen_all-decided :
    (es : List Event) (s : ExecDb) (i n : ℕ) (x : ExecTask)
    → IsSoundDb s
    → find (happen_all es s).shared.tasks i ≡ some x
    → is_running x.status ≡ true
    → x.approval_id ≡ some n
    → (p : Approval) × (find (happen_all es s).shared.approvals n ≡ some p)
      × (p.biz_id ≡ i)
      × (is_pending p.status ≡ false)
happen_all-decided es s i n x sound is runs named =
    let after = happen_all-IsSound es s sound in
    let (p, at, exec, about) = after.paired.owns i x n is named in
    elim (Bool-cases (is_pending p.status)) [
      | inr shut ↦ (p, at, about, shut)
      | inl live ↦
          let w = after.paired.awaits n p at live exec in
          let e =
            some_injective
              (sym is ∙ ap (find (happen_all es s).shared.tasks) (sym about) ∙ w.found) in
          cc (ap (λ (z : ExecTask). is_running z.status) e, runs, not_running w.task.status w.waits)
    ]
