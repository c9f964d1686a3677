-- ===== src/Workflow/Engine/Steps.antt =====
-- Invariants of `step`: a property of the node rows that survives the first loop and every legal
-- move of a node in progress holds after a step, also after one that raised.
use mathlib.Core.Path.{subst}
use lark_plat.Prelude.{
  ℕ, String, ◌≡◌, inl, inr, refl, sym, Bool, true, false, not, ◌&&◌, ◌||◌, List, [], ◌∷◌, arith,
  Option, none, some, Bool-cases, if◌then◌else◌, elem, ◌==◌, string_eq, eq_iff,
}
use lark_plat.Errors.{Result, ok, err}
use lark_plat.Session.{Session, Db, pure, gets, modify, commit, continue, request, ◌>>=◌, ◌>>◌}
use lark_plat.Workflow.Model.{NodeRun, WorkflowRun, run_terminal}
use lark_plat.Workflow.Engine.Port.{Port, RunDb}
use lark_plat.Workflow.Engine.Nodes.{Activation, activate, statuses_of}
use lark_plat.Workflow.Engine.Moves.{in_progress, Moves}
use lark_plat.Workflow.Engine.Advance.{replace_node}
use lark_plat.Workflow.Engine.Written.{Written, same, wrote, Advances}
use lark_plat.Workflow.Engine.Advanced.{advance_running-Advances, advance_waiting-Advances}
use lark_plat.Workflow.Engine.Step.{
  Definition, find_node, is_running, is_waiting, running_node, run_running, waiting_node,
  run_waiting, close_run, finalise, tick, step, begin_run, keys, is_pending_run,
}

pub find_node_key :
    (ns : List NodeRun) (key : String) {n : NodeRun} → find_node ns key ≡ some n → n.node_key ≡ key
unfolding find_node
find_node_key [] key h = cc
find_node_key (m ∷ ms) key {n} h = elim (Bool-cases (m.node_key == key)) [
  | inl found ↦ ground (arith, eq_iff m.node_key key)
  | inr other ↦ find_node_key ms key (rw other at h)
]

find_node_self :
    (ns : List NodeRun) (key : String) {n : NodeRun}
    → find_node ns key ≡ some n
    → find_node ns n.node_key ≡ some n
find_node_self ns key {n} h = subst (λ k. find_node ns k ≡ some n) (sym (find_node_key ns key h)) h

-- What a move may rely on.
pub record Stable (P : List NodeRun → Type 0) : Type 0 where
  pub replaces :
      (n m : NodeRun) (ns : List NodeRun)
      → find_node ns n.node_key ≡ some n
      → in_progress n.status ≡ true
      → Moves n m
      → P ns
      → P (replace_node m ns)

module _ {P : List NodeRun → Type 0} (stable : Stable P) where
  Written-keeps :
      (n : NodeRun) (ns after : List NodeRun)
      → find_node ns n.node_key ≡ some n
      → in_progress n.status ≡ true
      → Written n ns after
      → P ns
      → P after
  Written-keeps n ns after found live (same e) h = rw e h
  Written-keeps n ns after found live (wrote m moves e) h =
      rw e (stable.replaces n m ns found live moves h)

module _ {W : Type 0} {P : List NodeRun → Type 0} (stable : Stable P) where
  abbrev Safe : Session (RunDb W) → Type 0
  Safe s = P s.live.nodes × P s.saved.nodes

  -- the property survives an action, whether it returns or raises
  record Keeps {A : Type 0} (m : Db (RunDb W) A) : Type 0 where
    at : (s : Session (RunDb W)) → Safe s → Safe (m s).1

  Keeps-pure : {A : Type 0} (a : A) → Keeps (pure a)
  unfolding pure
  Keeps-pure a = record { at = λ s h. h }

  Keeps-bind :
      {A B : Type 0} (m : Db (RunDb W) A) (f : A → Db (RunDb W) B)
      → Keeps m
      → ((a : A) → Keeps (f a))
      → Keeps (m >>= f)
  unfolding ◌>>=◌
  Keeps-bind {A} {B} m f km kf = record { at = λ s h. go (m s).0 (m s).1 (km.at s h) }
    where
      go : (r : Result A) (s : Session (RunDb W)) → Safe s → Safe (continue r f s).1
      go (ok a) s h = (kf a).at s h
      go (err e) s h = h

  -- an action on the row of n, where that row is the one found
  Advances-keeps :
      {A : Type 0} (n : NodeRun) (m : Db (RunDb W) A) (s : Session (RunDb W))
      → Advances n m
      → find_node s.live.nodes n.node_key ≡ some n
      → in_progress n.status ≡ true
      → Safe s
      → Safe (m s).1
  Advances-keeps n m s a found live (h, k) = (
    Written-keeps stable n s.live.nodes _ found live (a.live s) h,
    elim (a.saved s) [
      | inl e ↦ rw e k
      | inr written ↦ Written-keeps stable n s.live.nodes _ found live written h
    ],
  )

  if-keeps :
      (b : Bool) (m : Db (RunDb W) Bool) (s : Session (RunDb W))
      → (b ≡ true → Safe (m s).1)
      → Safe s
      → Safe ((if b then m else pure false) s).1
  if-keeps true m s k h = k refl
  if-keeps false m s k h = unfold pure in h

  -- one round of a loop over the nodes
  Keeps-visit :
      (key : String) (body : Option NodeRun → Db (RunDb W) Bool) (rest : Bool → Db (RunDb W) Bool)
      → ((o : Option NodeRun) (s : Session (RunDb W))
          → find_node s.live.nodes key ≡ o
          → Safe s
          → Safe (body o s).1)
      → ((b : Bool) → Keeps (rest b))
      → Keeps (gets (λ s. find_node s.nodes key) >>= λ o. body o >>= rest)
  unfolding ◌>>=◌
  Keeps-visit key body rest kb kr = record {
    at = λ s h. let o = find_node s.live.nodes key in go (body o s).0 (body o s).1 (kb o s refl h);
  }
    where
      go : (r : Result Bool) (s : Session (RunDb W)) → Safe s → Safe (continue r rest s).1
      go (ok b) s h = (kr b).at s h
      go (err e) s h = h

  module _ (port : Port W) (now : ℕ) (d : Definition) where
    running_node-keeps :
        (activated : List String) (run : WorkflowRun) (key : String) (o : Option NodeRun)
        (s : Session (RunDb W))
        → find_node s.live.nodes key ≡ o
        → Safe s
        → Safe (running_node port now d activated run o s).1
    unfolding running_node
    running_node-keeps activated run key none s e h = unfold pure in h
    running_node-keeps activated run key (some n) s e h =
        if-keeps (is_running n.status && not (elem n.node_key activated)) _ s
          (λ on.
            Advances-keeps n _ s
              (advance_running-Advances port now n (ground (arith, on)) n.node_type _ d.defaults
                run)
              (find_node_self s.live.nodes key e) (ground (arith, on)) h)
          h

    run_running-Keeps :
        (activated : List String) (run : WorkflowRun) (names : List String)
        → Keeps (run_running port now d activated run names)
    unfolding run_running
    run_running-Keeps activated run [] = Keeps-pure false
    run_running-Keeps activated run (key ∷ names) =
        let others = run_running-Keeps activated run names in
        Keeps-visit key (running_node port now d activated run) _
          (running_node-keeps activated run key)
          (λ moved. Keeps-bind _ _ others (λ b. Keeps-pure (moved || b)))

    waiting_node-keeps :
        (key : String) (o : Option NodeRun) (s : Session (RunDb W))
        → find_node s.live.nodes key ≡ o
        → Safe s
        → Safe (waiting_node port now d o s).1
    unfolding waiting_node
    waiting_node-keeps key none s e h = unfold pure in h
    waiting_node-keeps key (some n) s e h =
        if-keeps (is_waiting n.status) _ s
          (λ on.
            Advances-keeps n _ s
              (advance_waiting-Advances port now n (ground (arith, on)) n.node_type _ d.defaults)
              (find_node_self s.live.nodes key e) (ground (arith, on)) h)
          h

    run_waiting-Keeps : (names : List String) → Keeps (run_waiting port now d names)
    unfolding run_waiting
    run_waiting-Keeps [] = Keeps-pure false
    run_waiting-Keeps (key ∷ names) =
        let others = run_waiting-Keeps names in
        Keeps-visit key (waiting_node port now d) _ (waiting_node-keeps key)
          (λ moved. Keeps-bind _ _ others (λ b. Keeps-pure (moved || b)))

    -- a write to the run or to the rows around it
    Keeps-modify :
        (f : RunDb W → RunDb W) → ((s : RunDb W) → (f s).nodes ≡ s.nodes) → Keeps (modify f)
    unfolding modify
    Keeps-modify f e = record { at = λ s h. (rw (e s.live) h.0, h.1) }

    Keeps-commit : Keeps (commit {S = RunDb W})
    unfolding commit
    Keeps-commit = record { at = λ s h. (h.0, h.0) }

    Keeps-gets : {A : Type 0} (f : RunDb W → A) → Keeps (gets f)
    unfolding gets
    Keeps-gets f = record { at = λ s h. h }

    Keeps-if : (b : Bool) (m n : Db (RunDb W) Bool) → Keeps m → Keeps n → Keeps (if b then m else n)
    Keeps-if true m n km kn = km
    Keeps-if false m n km kn = kn

    finalise-Keeps : Keeps (finalise port now d)
    unfolding finalise
    finalise-Keeps = Keeps-bind _ _ (Keeps-gets _) (λ done.
        Keeps-if done _ _
          (Keeps-bind _ _ (Keeps-modify (close_run port now d) (λ s. unfold close_run in refl))
            (λ _. Keeps-pure true))
          (Keeps-pure false))

    -- the loops after the first, and the end of `step`
    rest_of_tick : WorkflowRun → List String → Activation → Db (RunDb W) Bool
    rest_of_tick run names a = do
      running ← run_running port now d a.activated (begin_run run now) names
      waiting ← run_waiting port now d names
      finished ← finalise port now d
      commit
      pure (is_pending_run run.status || (a.moved || (running || (waiting || finished))))

    rest_of_tick-Keeps :
        (run : WorkflowRun) (names : List String) (a : Activation)
        → Keeps (rest_of_tick run names a)
    unfolding rest_of_tick
    rest_of_tick-Keeps run names a =
        Keeps-bind _ _ (run_running-Keeps a.activated (begin_run run now) names) (λ running.
          Keeps-bind _ _ (run_waiting-Keeps names) (λ waiting.
            Keeps-bind _ _ finalise-Keeps
              (λ finished. Keeps-bind _ _ Keeps-commit (λ _. Keeps-pure _))))

    -- `activates`: the property survives the first loop
    module _
        (activates : (ns : List NodeRun)
          → P ns
          → P (activate d.node_defs now (statuses_of ns) ns).after) where
      tick-Keeps : (run : WorkflowRun) → Keeps (tick port now d run)
      unfolding tick ◌>>=◌ rest_of_tick
      tick-Keeps run = record {
        at = λ s h.
            let a = activate d.node_defs now (statuses_of s.live.nodes) s.live.nodes in
            (rest_of_tick-Keeps run (keys s.live.nodes) a).at
              (record s {
                live = record (s.live) { run = begin_run s.live.run now; nodes = a.after };
              })
              (activates s.live.nodes h.0, h.1);
      }

      step-Keeps : Keeps (step port now d)
      unfolding step
      step-Keeps =
          Keeps-bind _ _ (Keeps-gets _)
            (λ run. Keeps-if (run_terminal run.status) _ _ (Keeps-pure false) (tick-Keeps run))

      pub step_keeps : (db : RunDb W) → P db.nodes → P (request (step port now d) db).1.nodes
      step_keeps db h = (step-Keeps.at (record { live = db; saved = db }) (h, h)).1
