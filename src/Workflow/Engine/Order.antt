-- ===== src/Workflow/Engine/Order.antt =====
-- The order of a run: a node enters only when its route is open, and its route stays open.
use mathlib.Core.Path.{subst}
use lark_plat.Prelude.{
  ℕ, String, ◌≡◌, refl, sym, ◌∙◌, true, false, List, [], ◌∷◌, arith, some, Bool-cases, inl, inr,
  ◌==◌, string_eq, eq_iff,
}
use lark_plat.Session.{request}
use lark_plat.Workflow.Definition.{NodeDef}
use lark_plat.Workflow.Model.{NodeRun}
use lark_plat.Workflow.Engine.Verdict.{Statuses, Verdict, ready, skip, wait, verdict}
use lark_plat.Workflow.Engine.Port.{Port, RunDb}
use lark_plat.Workflow.Engine.Nodes.{activate, enter, mark, verdict_for, statuses_of, is_pending}
use lark_plat.Workflow.Engine.Step.{Definition, find_node, step}
use lark_plat.Workflow.Engine.Steps.{step_keeps, find_node_key}
use lark_plat.Workflow.Engine.Route.{is_open, verdict-ready_iff}
use lark_plat.Workflow.Engine.Grows.{
  has_entered, IsOrdered, Grows, Grows-trans, is_open-Grows, IsOrdered-Stable, mark-Grows,
}

-- A node after the first loop is one before it that a verdict has been applied to. The verdict was
-- reached on statuses that know of no more successes and failures than the first ones.
record Entered (ds : List NodeDef) (now : ℕ) (status : Statuses) (ns : List NodeRun) (key : String)
    (m : NodeRun) : Type 0 where
  node : NodeRun
  seen : Statuses
  was : find_node ns key ≡ some node
  is : m ≡ enter (verdict_for node ds seen) node now
  grows : Grows seen status

pub enter-key : (v : Verdict) (n : NodeRun) (now : ℕ) → (enter v n now).node_key ≡ n.node_key
unfolding enter
enter-key ready n now = refl
enter-key skip n now = refl
enter-key wait n now = refl

some_injective {ℓ} : {A : Type ℓ} {a b : A} → some a ≡ some b → a ≡ b
some_injective h = cc

-- a node that is not pending passes the first loop as it is
pub enter-verdict_for :
    (n : NodeRun) (ds : List NodeDef) (status : Statuses) (now : ℕ)
    → is_pending n.status ≡ false
    → enter (verdict_for n ds status) n now ≡ n
unfolding verdict_for enter
enter-verdict_for n ds status now h = rw h

entered-ready :
    (n : NodeRun) (ds : List NodeDef) (status : Statuses) (now : ℕ)
    → is_pending n.status ≡ true
    → has_entered (enter (verdict_for n ds status) n now).status ≡ true
    → verdict n.node_key ds status ≡ ready
unfolding verdict_for enter
entered-ready n ds status now p h = ground (arith, p, h)

find_node-here :
    (x : NodeRun) (xs : List NodeRun) (key : String)
    → (x.node_key == key) ≡ true
    → find_node (x ∷ xs) key ≡ some x
unfolding find_node
find_node-here x xs key h = rw h

find_node-there :
    (x : NodeRun) (xs : List NodeRun) (key : String)
    → (x.node_key == key) ≡ false
    → find_node (x ∷ xs) key ≡ find_node xs key
unfolding find_node
find_node-there x xs key h = rw h

activate-Entered :
    (ds : List NodeDef) (now : ℕ) (status : Statuses) (ns : List NodeRun) (key : String)
    {m : NodeRun}
    → find_node (activate ds now status ns).after key ≡ some m
    → Entered ds now status ns key m
unfolding activate
activate-Entered ds now status [] key h = unfold find_node in cc
activate-Entered ds now status (n ∷ ns) key {m} h =
    let v = verdict_for n ds status in
    let x = enter v n now in
    let rest = (activate ds now (mark v n.node_key status) ns).after in
    elim (Bool-cases (n.node_key == key)) [
      | inl here ↦ record {
        node = n;
        seen = status;
        was = find_node-here n ns key here;
        is = some_injective (sym h ∙ find_node-here x rest key (rw (enter-key v n now) here));
        grows = record { succeeded = λ k p. p; failed = λ k p. p };
      }
      | inr there ↦
          let e =
            activate-Entered ds now (mark v n.node_key status) ns key
              (sym (find_node-there x rest key (rw (enter-key v n now) there)) ∙ h) in
          record {
            node = e.node;
            seen = e.seen;
            was = find_node-there n ns key there ∙ e.was;
            is = e.is;
            grows = Grows-trans e.grows (mark-Grows v n.node_key status);
          }
    ]

-- the first loop takes away no success and no failure
Grows-activate :
    (ds : List NodeDef) (now : ℕ) (status : Statuses) (ns : List NodeRun)
    → Grows (statuses_of ns) (statuses_of (activate ds now status ns).after)
unfolding activate statuses_of
Grows-activate ds now status [] = record { succeeded = λ k h. h; failed = λ k h. h }
Grows-activate ds now status (n ∷ ns) =
    let v = verdict_for n ds status in
    let g = Grows-activate ds now (mark v n.node_key status) ns in
    record {
      succeeded = λ k h. ground (
        arith,
        h,
        enter-key v n now,
        enter-verdict_for n ds status now,
        g.succeeded k,
        eq_iff n.node_key k,
      );
      failed = λ k h. ground (
        arith,
        h,
        enter-key v n now,
        enter-verdict_for n ds status now,
        g.failed k,
        eq_iff n.node_key k,
      );
    }

activate-IsOrdered :
    (ds : List NodeDef) (now : ℕ) (ns : List NodeRun)
    → IsOrdered ds ns
    → IsOrdered ds (activate ds now (statuses_of ns) ns).after
activate-IsOrdered ds now ns h = record {
  at = λ key m found entered.
      let e = activate-Entered ds now (statuses_of ns) ns key found in
      let g = Grows-activate ds now (statuses_of ns) ns in
      elim (Bool-cases (is_pending e.node.status)) [
        | inl fresh ↦
            let r =
              entered-ready e.node ds e.seen now fresh
                (subst (λ x. has_entered x.status ≡ true) e.is entered) in
            is_open-Grows key ds (Grows-trans e.grows g) (
              subst (λ k. is_open k ds e.seen ≡ true) (find_node_key ns key e.was)
                ((verdict-ready_iff e.node.node_key ds e.seen).0 r))
        | inr old ↦ is_open-Grows key ds g (
            h.at key e.node e.was (
              subst (λ x. has_entered x.status ≡ true)
                (e.is ∙ enter-verdict_for e.node ds e.seen now old) entered))
      ];
}

-- If it was so before a tick, then also after it, even where it raised: each node that has entered
-- (it runs, waits, succeeded or failed) stands on an open route: a source of its failure route has
-- failed, or all its dependencies and all sources of its success route have succeeded.
pub step-IsOrdered :
    {W : Type 0} (port : Port W) (now : ℕ) (d : Definition) (db : RunDb W)
    → IsOrdered d.node_defs db.nodes
    → IsOrdered d.node_defs (request (step port now d) db).1.nodes
step-IsOrdered port now d db h =
    step_keeps (IsOrdered-Stable d.node_defs) port now d
      (λ ns. activate-IsOrdered d.node_defs now ns) db h
