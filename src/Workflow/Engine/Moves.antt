-- ===== src/Workflow/Engine/Moves.antt =====
-- How a node row may change: what `step` does to a node, and what it never does.
use mathlib.Core.Path.{subst}
use lark_plat.Prelude.{
  ℕ, ◌+◌, ◌≤◌, String, ◌≡◌, ◌≢◌, ◌∙◌, refl, Bool, true, false, arith, Option, none, some,
}
use lark_plat.Workflow.Model.{NodeStatus, NodeRun, node_terminal}
use lark_plat.Workflow.Engine.Nodes.{is_pending, succeed, succeed_exec, fail, enter}
use lark_plat.Workflow.Engine.Verdict.{Verdict, ready, skip, wait}

-- running or waiting
abbrev pub in_progress : NodeStatus → Bool
in_progress NodeStatus.running = true
in_progress NodeStatus.waiting = true
in_progress _ = false

-- a task that is linked stays linked
abbrev pub Kept : Option ℕ → Option ℕ → Type 0
Kept none o = Unit
Kept (some t) o = o ≡ some t

-- the entries into `running` that a node may still make
abbrev pub credit : NodeStatus → ℕ
credit NodeStatus.pending = 1
credit _ = 0

-- n may become m: it stays the same node, is never pending again, is not touched once it is
-- terminal, keeps its exec task, and enters `running` by an attempt once.
pub record Moves (n m : NodeRun) : Type 0 where
  pub same_key : m.node_key ≡ n.node_key
  pub same_type : m.node_type ≡ n.node_type
  pub terminal_kept : node_terminal n.status ≡ true → m ≡ n
  pub not_pending_again : is_pending m.status ≡ true → is_pending n.status ≡ true
  pub task_kept : Kept n.exec_task_id m.exec_task_id
  pub attempts : m.attempt + credit m.status ≤ n.attempt + credit n.status

pub Kept-refl : (o : Option ℕ) → Kept o o
Kept-refl none = tt
Kept-refl (some t) = refl

Kept-trans : (a b c : Option ℕ) → Kept a b → Kept b c → Kept a c
Kept-trans none b c h k = tt
Kept-trans (some t) b c h k = subst (λ x. Kept x c) h k

pub Moves-refl : (n : NodeRun) → Moves n n
Moves-refl n = record {
  same_key = refl;
  same_type = refl;
  terminal_kept = λ h. refl;
  not_pending_again = λ h. h;
  task_kept = Kept-refl n.exec_task_id;
  attempts = omega arith;
}

pub Moves-trans : {n m k : NodeRun} → Moves n m → Moves m k → Moves n k
Moves-trans {n} {m} {k} a b = record {
  same_key = b.same_key ∙ a.same_key;
  same_type = b.same_type ∙ a.same_type;
  terminal_kept = λ h. b.terminal_kept (rw (a.terminal_kept h) h) ∙ a.terminal_kept h;
  not_pending_again = λ h. a.not_pending_again (b.not_pending_again h);
  task_kept = Kept-trans n.exec_task_id m.exec_task_id k.exec_task_id a.task_kept b.task_kept;
  attempts = omega (arith, a.attempts, b.attempts);
}

module _ (n : NodeRun) (live : in_progress n.status ≡ true) where
  pub Moves-succeed : (now : ℕ) → Moves n (succeed n now)
  unfolding succeed
  Moves-succeed now = ground (arith, Kept-refl n.exec_task_id)

  pub Moves-succeed_exec : (task now : ℕ) → Moves n (succeed_exec n task now)
  unfolding succeed_exec
  Moves-succeed_exec task now = ground (arith, Kept-refl n.exec_task_id)

  pub Moves-fail : (reason : String) (now : ℕ) → Moves n (fail n reason now)
  unfolding fail
  Moves-fail reason now = ground (arith, Kept-refl n.exec_task_id)

  -- a running or waiting node that gets another row of the same key, type and attempt
  pub Moves-of :
      (m : NodeRun)
      → m.node_key ≡ n.node_key
      → m.node_type ≡ n.node_type
      → is_pending m.status ≡ false
      → Kept n.exec_task_id m.exec_task_id
      → m.attempt ≡ n.attempt
      → Moves n m
  Moves-of m key type status task attempt = record {
    same_key = key;
    same_type = type;
    terminal_kept = ground arith;
    not_pending_again = ground arith;
    task_kept = task;
    attempts = ground arith;
  }

pub Moves-enter :
    (v : Verdict) (n : NodeRun) (now : ℕ)
    → (v ≢ wait → is_pending n.status ≡ true)
    → Moves n (enter v n now)
unfolding enter
Moves-enter wait n now h = Moves-refl n
Moves-enter ready n now h =
    let p : is_pending n.status ≡ true = h (λ e. cc) in ground (arith, Kept-refl n.exec_task_id)
Moves-enter skip n now h =
    let p : is_pending n.status ≡ true = h (λ e. cc) in ground (arith, Kept-refl n.exec_task_id)
