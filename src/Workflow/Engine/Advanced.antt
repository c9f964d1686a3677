-- ===== src/Workflow/Engine/Advanced.antt =====
-- Advancing a running or waiting node writes that node's row at most once, by a legal move, and
-- leaves the other rows alone (backend/app/services/workflow_engine.py).
use mathlib.Core.Path.{subst, sym}
use lark_plat.Prelude.{
  ℕ, ◌≡◌, ◌⊎◌, inl, inr, refl, ◌∙◌, Bool, true, false, arith, Option, none, some,
}
use lark_plat.Json.{Json, Fields}
use lark_plat.Errors.{Result, ok, err}
use lark_plat.Session.{Session, Db, pure, modify, ◌>>=◌, ◌>>◌}
use lark_plat.Statuses.{TaskStatus, ApprovalStatus}
use lark_plat.Workflow.Definition.{NodeType, exec_task, manual_approval, wait, callback, sleep}
use lark_plat.Workflow.Model.{NodeStatus, NodeRun, WorkflowRun}
use lark_plat.Workflow.Engine.Timeout.{
  first, timeout_sec, config_fields, config_for_timeout, timed_out, due_reached,
}
use lark_plat.Workflow.Engine.Port.{ExecCall, Created, Port, RunDb}
use lark_plat.Workflow.Engine.Nodes.{is_pending}
use lark_plat.Workflow.Engine.Moves.{
  in_progress, Moves, Kept, Kept-refl, Moves-of, Moves-succeed, Moves-succeed_exec, Moves-fail,
}
use lark_plat.Workflow.Engine.Advance.{
  set_node, exec_call, after_create, commit_record, create_record, create_exec_task, resume,
  follow_task, poll_exec_task, create_approval, enter_waiting_callback, advance_timer, advance_exec,
  advance_approval, advance_running, wait_or_time_out, poll_waiting, decide, advance_waiting_exec,
  advance_waiting_approval, advance_waiting,
}
use lark_plat.Workflow.Engine.Written.{
  Written, same, wrote, Advances, Advances-pure, Advances-write, Advances-if, Advances-lift,
  Advances-gets, Advances-after, continue-id,
}

module _ {W : Type 0} where
  module _ (port : Port W) (now : ℕ) (n : NodeRun) (live : in_progress n.status ≡ true) where
    not_pending : is_pending n.status ≡ false
    not_pending = ground arith

    Kept-free : (o : Option ℕ) → n.exec_task_id ≡ none → Kept n.exec_task_id o
    Kept-free o free = subst (λ x. Kept x o) (sym free) tt

    after_create-Advances :
        (c : Created) → n.exec_task_id ≡ none → Advances n (after_create port now n c)
    unfolding after_create
    after_create-Advances c free =
        let waits : NodeRun = record n {
          status = NodeStatus.waiting;
          exec_task_id = some c.task;
          approval_id = c.approval;
          started_at = first n.started_at (some now);
        } in
        let runs : NodeRun = record n { exec_task_id = some c.task } in
        let waits-Moves : Moves n waits =
          Moves-of n live waits refl refl refl (Kept-free (some c.task) free) refl in
        let runs-Moves : Moves n runs =
          Moves-of n live runs refl refl not_pending (Kept-free (some c.task) free) refl in
        Advances-if n c.approve_required _ _
          (unfold ◌>>=◌ set_node in
            record { live = λ s. wrote waits waits-Moves refl; saved = λ s. inl refl })
          (unfold ◌>>=◌ set_node in
            record {
              live = λ s. wrote runs runs-Moves refl;
              saved = λ s. inr (wrote runs runs-Moves refl);
            })

    commit_record-then :
        (r : Result (Created × W)) (f : Created → Db (RunDb W) Unit)
        → ((c : Created) → Advances n (f c))
        → Advances n (commit_record port now r >>= f)
    unfolding ◌>>=◌ commit_record
    commit_record-then (err e) f h = record { live = λ s. same refl; saved = λ s. inl refl }
    commit_record-then (ok (c, w)) f h = record {
      live = λ s. (h c).live (made w s);
      saved = λ s. inr (after (made w s) refl ((h c).saved (made w s)));
    }
      where
        made : W → Session (RunDb W) → Session (RunDb W)
        made w s = record {
          live = record (s.live) { world = w };
          saved = record (s.live) { world = w };
        }

        after :
            (t : Session (RunDb W))
            → t.saved.nodes ≡ t.live.nodes
            → ((f c t).1.saved.nodes ≡ t.saved.nodes) ⊎ Written n t.live.nodes (f c t).1.saved.nodes
            → Written n t.live.nodes (f c t).1.saved.nodes
        after t e h = elim h [ inl p ↦ same (p ∙ e) | inr written ↦ written ]

    called-Advances :
        (call : ExecCall)
        → n.exec_task_id ≡ none
        → Advances n (create_record port now call >>= after_create port now n)
    unfolding create_record ◌>>=◌
    called-Advances call free = record {
      live = λ s.
          (commit_record-then (port.create_exec call s.live.world) (after_create port now n)
              (λ c. after_create-Advances c free)).live
            s;
      saved = λ s.
          (commit_record-then (port.create_exec call s.live.world) (after_create port now n)
              (λ c. after_create-Advances c free)).saved
            s;
    }

    create_exec_task-Advances :
        (config : Json) (run : WorkflowRun)
        → n.exec_task_id ≡ none
        → Advances n (create_exec_task port now config run n)
    unfolding create_exec_task
    create_exec_task-Advances config run free =
        Advances-lift n (config_fields config) _ λ cfg.
          Advances-lift n (exec_call port.texts cfg run n) _ λ call. called-Advances call free

    module _ (next : Bool → Db (RunDb W) Bool)
        (keeps : (s : Session (RunDb W)) → (next true s).1 ≡ s)
        (goes_on : Advances n (next false)) where
      write-then :
          (m : NodeRun) → Moves n m → Advances n (modify (set_node m) >> pure true >>= next)
      unfolding ◌>>=◌ set_node
      write-then m h = record {
        live = λ s. rw (keeps (modify (set_node m) s).1) (wrote m h refl);
        saved = λ s. rw (keeps (modify (set_node m) s).1) (inl refl);
      }

      false-then : Advances n (pure false >>= next)
      unfolding ◌>>=◌
      false-then = record { live = λ s. goes_on.live s; saved = λ s. goes_on.saved s }

      resume-then : (status : NodeStatus) → Advances n (resume port now n status >>= next)
      unfolding resume
      resume-then NodeStatus.waiting =
          let resumed : NodeRun = record n { status = NodeStatus.running } in
          write-then resumed
            (Moves-of n live resumed refl refl refl (Kept-refl n.exec_task_id) refl)
      resume-then _ = false-then

      follow_task-then :
          (task : ℕ) (status : Option TaskStatus)
          → Advances n (follow_task port now n task status >>= next)
      unfolding follow_task
      follow_task-then task none = write-then _ (Moves-fail n live "engine_restart" now)
      follow_task-then task (some TaskStatus.success) =
          write-then _ (Moves-succeed_exec n live task now)
      follow_task-then task (some TaskStatus.partial) =
          write-then _ (Moves-succeed_exec n live task now)
      follow_task-then task (some TaskStatus.failed) =
          write-then _ (Moves-fail n live "exec_task_failed" now)
      follow_task-then task (some TaskStatus.timed_out) =
          write-then _ (Moves-fail n live "exec_task_failed" now)
      follow_task-then task (some TaskStatus.canceled) =
          write-then _ (Moves-fail n live "exec_task_failed" now)
      follow_task-then task (some TaskStatus.cancelled) =
          write-then _ (Moves-fail n live "exec_task_failed" now)
      follow_task-then task (some TaskStatus.running) = resume-then n.status
      follow_task-then task (some _) = false-then

    Advances-of_then : (m : Db (RunDb W) Bool) → Advances n (m >>= λ b. pure b) → Advances n m
    unfolding ◌>>=◌
    Advances-of_then m h = record {
      live = λ s. rw (continue-id (m s).0 (m s).1) at (h.live s);
      saved = λ s. rw (continue-id (m s).0 (m s).1) at (h.saved s);
    }

    poll_exec_task-Advances : (task : ℕ) → Advances n (poll_exec_task port now n task)
    unfolding poll_exec_task
    poll_exec_task-Advances task = Advances-gets n _ _ (λ status.
        Advances-of_then (follow_task port now n task status) (
          follow_task-then (λ b. pure b) (λ s. unfold pure in refl) (Advances-pure n false) task
            status))

    create_approval-Advances : (run : WorkflowRun) → Advances n (create_approval port now run n)
    unfolding create_approval
    create_approval-Advances run =
        unfold ◌>>=◌ set_node in
        record {
          live =
              λ s. wrote _ (Moves-of n live _ refl refl refl (Kept-refl n.exec_task_id) refl) refl;
          saved = λ s. inl refl;
        }

    enter_waiting_callback-Advances :
        (run : WorkflowRun) → Advances n (enter_waiting_callback port now run n)
    unfolding enter_waiting_callback
    enter_waiting_callback-Advances run =
        unfold ◌>>=◌ set_node in
        record {
          live =
              λ s. wrote _ (Moves-of n live _ refl refl refl (Kept-refl n.exec_task_id) refl) refl;
          saved = λ s. inl refl;
        }

    wait_or_time_out-Advances :
        (config : Json) (defaults : Fields) (b : Bool)
        → Advances n (wait_or_time_out port now config defaults b n)
    unfolding wait_or_time_out
    wait_or_time_out-Advances config defaults b =
        Advances-lift n (config_for_timeout config) _ λ limits.
          Advances-if n (timed_out (timeout_sec port.texts limits defaults n.node_type) n now) _ _
            (Advances-write n _ true (Moves-fail n live "timeout" now)) (Advances-pure n b)

    advance_timer-Advances :
        (b : Bool) (config : Json) (defaults : Fields)
        → Advances n (advance_timer port now b config defaults n)
    unfolding advance_timer
    advance_timer-Advances b config defaults =
        Advances-lift n (config_for_timeout config) _ λ limits.
          Advances-if n (timed_out (timeout_sec port.texts limits defaults n.node_type) n now) _ _
            (Advances-write n _ true (Moves-fail n live "timeout" now))
            (Advances-lift n (config_fields config) _ λ cfg.
              Advances-lift n (due_reached port.texts b cfg n now) _ λ due.
                Advances-if n due _ _ (Advances-write n _ true (Moves-succeed n live now))
                  (Advances-pure n false))

    advance_exec-Advances :
        (config : Json) (run : WorkflowRun) (task : Option ℕ)
        → n.exec_task_id ≡ task
        → Advances n (advance_exec port now config run n task)
    unfolding advance_exec
    advance_exec-Advances config run none e =
        Advances-after n _ true (create_exec_task-Advances config run e)
    advance_exec-Advances config run (some task) e = poll_exec_task-Advances task

    advance_approval-Advances :
        (run : WorkflowRun) (approval : Option ℕ)
        → Advances n (advance_approval port now run n approval)
    unfolding advance_approval
    advance_approval-Advances run none = Advances-after n _ true (create_approval-Advances run)
    advance_approval-Advances run (some approval) = Advances-pure n false

    pub advance_running-Advances :
        (type : NodeType) (config : Json) (defaults : Fields) (run : WorkflowRun)
        → Advances n (advance_running port now type config defaults run n)
    unfolding advance_running
    advance_running-Advances sleep config defaults run =
        advance_timer-Advances false config defaults
    advance_running-Advances wait config defaults run = advance_timer-Advances true config defaults
    advance_running-Advances callback config defaults run =
        Advances-after n _ true (enter_waiting_callback-Advances run)
    advance_running-Advances manual_approval config defaults run =
        advance_approval-Advances run n.approval_id
    advance_running-Advances exec_task config defaults run =
        advance_exec-Advances config run n.exec_task_id refl

    decide-Advances :
        (config : Json) (defaults : Fields) (status : Option ApprovalStatus)
        → Advances n (decide port now config defaults n status)
    unfolding decide
    decide-Advances config defaults (some ApprovalStatus.approved) =
        Advances-write n _ true (Moves-succeed n live now)
    decide-Advances config defaults (some ApprovalStatus.rejected) =
        Advances-write n _ true (Moves-fail n live "approval_rejected" now)
    decide-Advances config defaults (some ApprovalStatus.canceled) =
        Advances-write n _ true (Moves-fail n live "approval_rejected" now)
    decide-Advances config defaults (some ApprovalStatus.cancelled) =
        Advances-write n _ true (Moves-fail n live "approval_rejected" now)
    decide-Advances config defaults _ = wait_or_time_out-Advances config defaults false

    poll_waiting-keeps :
        (config : Json) (defaults : Fields) (s : Session (RunDb W))
        → (poll_waiting port now config defaults n true s).1 ≡ s
    unfolding poll_waiting pure
    poll_waiting-keeps config defaults s = refl

    poll_waiting-Advances :
        (config : Json) (defaults : Fields)
        → Advances n (poll_waiting port now config defaults n false)
    unfolding poll_waiting
    poll_waiting-Advances config defaults = wait_or_time_out-Advances config defaults false

    advance_waiting_exec-Advances :
        (config : Json) (defaults : Fields) (task : Option ℕ)
        → Advances n (advance_waiting_exec port now config defaults n task)
    unfolding advance_waiting_exec
    advance_waiting_exec-Advances config defaults none =
        wait_or_time_out-Advances config defaults false
    advance_waiting_exec-Advances config defaults (some task) =
        unfold poll_exec_task ◌>>=◌ in
        record {
          live = λ s.
              (follow_task-then (poll_waiting port now config defaults n)
                  (poll_waiting-keeps config defaults) (poll_waiting-Advances config defaults) task
                  (port.task_status task s.live.world)).live
                s;
          saved = λ s.
              (follow_task-then (poll_waiting port now config defaults n)
                  (poll_waiting-keeps config defaults) (poll_waiting-Advances config defaults) task
                  (port.task_status task s.live.world)).saved
                s;
        }

    advance_waiting_approval-Advances :
        (config : Json) (defaults : Fields) (approval : Option ℕ)
        → Advances n (advance_waiting_approval port now config defaults n approval)
    unfolding advance_waiting_approval
    advance_waiting_approval-Advances config defaults none =
        wait_or_time_out-Advances config defaults false
    advance_waiting_approval-Advances config defaults (some approval) =
        Advances-gets n _ _ (λ status. decide-Advances config defaults status)

    pub advance_waiting-Advances :
        (type : NodeType) (config : Json) (defaults : Fields)
        → Advances n (advance_waiting port now type config defaults n)
    unfolding advance_waiting
    advance_waiting-Advances exec_task config defaults =
        advance_waiting_exec-Advances config defaults n.exec_task_id
    advance_waiting-Advances manual_approval config defaults =
        advance_waiting_approval-Advances config defaults n.approval_id
    advance_waiting-Advances _ config defaults = wait_or_time_out-Advances config defaults false
