-- ===== src/Workflow/Engine/Progress.antt =====
-- What one step does to the node rows of its run.
use mathlib.Core.Path.{subst}
use lark_plat.Prelude.{
  ℕ, ◌≡◌, ◌≢◌, sym, true, false, List, [], ◌∷◌, arith, some, Bool-cases, inl, inr, ◌==◌, string_eq,
}
use lark_plat.Session.{request}
use lark_plat.Workflow.Definition.{NodeDef}
use lark_plat.Workflow.Model.{NodeRun}
use lark_plat.Workflow.Engine.Verdict.{Statuses, wait}
use lark_plat.Workflow.Engine.Port.{Port, RunDb}
use lark_plat.Workflow.Engine.Nodes.{activate, mark, verdict_for, statuses_of, is_pending}
use lark_plat.Workflow.Engine.Moves.{Moves, Moves-refl, Moves-trans, Moves-enter}
use lark_plat.Workflow.Engine.Advance.{replace_node}
use lark_plat.Workflow.Engine.Step.{Definition, find_node, step}
use lark_plat.Workflow.Engine.Steps.{Stable, step_keeps}

-- the same nodes in the same order, each moved legally
abbrev pub Evolves : List NodeRun → List NodeRun → Type 0
Evolves [] [] = Unit
Evolves (n ∷ ns) (m ∷ ms) = Moves n m × Evolves ns ms
Evolves _ _ = ⊥

pub Evolves-refl : (ns : List NodeRun) → Evolves ns ns
Evolves-refl [] = tt
Evolves-refl (n ∷ ns) = (Moves-refl n, Evolves-refl ns)

-- only pending nodes get a verdict
pub verdict_for-pending :
    (n : NodeRun) (ds : List NodeDef) (status : Statuses)
    → verdict_for n ds status ≢ wait
    → is_pending n.status ≡ true
unfolding verdict_for
verdict_for-pending n ds status h = ground (arith, h)

activate-Evolves :
    (ds : List NodeDef) (now : ℕ) (status : Statuses) (ns : List NodeRun)
    → Evolves ns (activate ds now status ns).after
unfolding activate
activate-Evolves ds now status [] = tt
activate-Evolves ds now status (n ∷ ns) =
    let v = verdict_for n ds status in
    (
      Moves-enter v n now (verdict_for-pending n ds status),
      activate-Evolves ds now (mark v n.node_key status) ns,
    )

Evolves-trans : (xs ys zs : List NodeRun) → Evolves xs ys → Evolves ys zs → Evolves xs zs
Evolves-trans [] [] [] h k = tt
Evolves-trans (x ∷ xs) (y ∷ ys) (z ∷ zs) (h, hs) (k, ks) =
    (Moves-trans h k, Evolves-trans xs ys zs hs ks)
Evolves-trans [] [] (z ∷ zs) h k = absurd k
Evolves-trans [] (y ∷ ys) zs h k = absurd h
Evolves-trans (x ∷ xs) [] zs h k = absurd h
Evolves-trans (x ∷ xs) (y ∷ ys) [] h k = absurd k

found_here :
    (n x : NodeRun) (xs : List NodeRun)
    → (x.node_key == n.node_key) ≡ true
    → find_node (x ∷ xs) n.node_key ≡ some n
    → x ≡ n
unfolding find_node
found_here n x xs here found = ground (arith, found, here)

found_there :
    (n x : NodeRun) (xs : List NodeRun)
    → (x.node_key == n.node_key) ≡ false
    → find_node (x ∷ xs) n.node_key ≡ some n
    → find_node xs n.node_key ≡ some n
unfolding find_node
found_there n x xs there found = rw there at found

replace_here :
    (n m x : NodeRun) (xs : List NodeRun)
    → m.node_key ≡ n.node_key
    → (x.node_key == n.node_key) ≡ true
    → replace_node m (x ∷ xs) ≡ m ∷ xs
unfolding replace_node
replace_here n m x xs e here = rw (e, here)

replace_there :
    (n m x : NodeRun) (xs : List NodeRun)
    → m.node_key ≡ n.node_key
    → (x.node_key == n.node_key) ≡ false
    → replace_node m (x ∷ xs) ≡ x ∷ replace_node m xs
unfolding replace_node
replace_there n m x xs e there = rw (subst (λ k. (x.node_key == k) ≡ false) (sym e) there)

pub replace_node-Evolves :
    (n m : NodeRun) (ns : List NodeRun)
    → find_node ns n.node_key ≡ some n
    → Moves n m
    → Evolves ns (replace_node m ns)
replace_node-Evolves n m [] found moves = unfold replace_node in tt
replace_node-Evolves n m (x ∷ xs) found moves = elim (Bool-cases (x.node_key == n.node_key)) [
  | inl here ↦
      rw (replace_here n m x xs moves.same_key here)
        (subst (λ y. Moves y m) (sym (found_here n x xs here found)) moves, Evolves-refl xs)
  | inr there ↦
      rw (replace_there n m x xs moves.same_key there)
        (Moves-refl x, replace_node-Evolves n m xs (found_there n x xs there found) moves)
]

Evolves-Stable : (start : List NodeRun) → Stable (Evolves start)
Evolves-Stable start = record {
  replaces = λ n m ns found live moves h.
      Evolves-trans start ns (replace_node m ns) h (replace_node-Evolves n m ns found moves);
}

-- One tick keeps the node rows and their order, and moves each node legally (`Moves`): a terminal
-- node is left as it is, a node that has left `pending` does not return to it, a linked exec task
-- stays linked, and a node enters `running` with a new attempt at most once. This holds of what the
-- tick leaves in the database also where it raised.
pub step-Evolves :
    {W : Type 0} (port : Port W) (now : ℕ) (d : Definition) (db : RunDb W)
    → Evolves db.nodes (request (step port now d) db).1.nodes
step-Evolves port now d db =
    step_keeps (Evolves-Stable db.nodes) port now d
      (λ ns h.
        Evolves-trans db.nodes ns (activate d.node_defs now (statuses_of ns) ns).after h
          (activate-Evolves d.node_defs now (statuses_of ns) ns))
      db (Evolves-refl db.nodes)
