-- ===== src/Workflow/Dag/Correct.antt =====
-- `assert_acyclic` decides whether the edges have a cycle.
use lark_plat.Errors.{ok, err, validation}
use lark_plat.Prelude.{inl, inr, ◌⊎◌, suc, String, ◌≡◌, refl, true, List, length, elem, arith, ap}
use lark_plat.Workflow.Dag.{
  white, Colors, Edge, Search, done, cycle, no_fuel, outcome, visit, search_keys, assert_acyclic,
}
pub use lark_plat.Workflow.Dag.Reach.{HasEdge, Leads, IsAcyclic}
use lark_plat.Workflow.Dag.Reach.{step, next, IsGrounded-acyclic}
use lark_plat.Workflow.Dag.Finished.{IsFinished, visit_finishes, visit_keys-Finishes}
pub use lark_plat.Workflow.Dag.Stack.{Cyclic}
use lark_plat.Workflow.Dag.Stack.{visit_keys_closes}
pub use lark_plat.Workflow.Dag.Fuel.{EndsIn}
use lark_plat.Workflow.Dag.Fuel.{visit_keys_ends}

start-IsFinished : (es : List Edge) → IsFinished es (λ _. white)
start-IsFinished es n h = cc

Leads-key :
    (keys : List String) {es : List Edge} {n m : String}
    → EndsIn keys es
    → Leads es n m
    → elem m keys ≡ true
Leads-key keys closed (step e) = closed _ _ e
Leads-key keys closed (next e l) = Leads-key keys closed l

search_keys_done :
    (keys : List String) (es : List Edge) (c : Colors)
    → EndsIn keys es
    → search_keys keys es ≡ done c
    → IsAcyclic es
unfolding search_keys
search_keys_done keys es c closed h n l =
    let (f, all_black) =
      visit_keys-Finishes (visit (suc (length keys)) es) (visit_finishes es (suc (length keys)))
        keys (λ _. white) c (λ n g. cc) (start-IsFinished es) h in
    IsGrounded-acyclic (f.finished n (all_black n (Leads-key keys closed l))) l

search_keys_cycle : (keys : List String) (es : List Edge) → search_keys keys es ≡ cycle → Cyclic es
unfolding search_keys
search_keys_cycle keys es h =
    visit_keys_closes es (suc (length keys)) keys (λ _. white) (λ n g. cc) (start-IsFinished es) h

search_keys_ends :
    (keys : List String) (es : List Edge) → EndsIn keys es → ¬ (search_keys keys es ≡ no_fuel)
unfolding search_keys
search_keys_ends keys es closed h =
    visit_keys_ends es keys closed (suc (length keys)) (omega arith) keys (λ _. white) (λ n g. cc)
      (λ k p. p) (start-IsFinished es) h

-- If every edge ends in a key, then the search of `_assert_acyclic` ends, and in one of two ways: it
-- returns, and no node leads to itself along the edges; or it raises a ValidationError, and some node
-- does.
pub assert_acyclic_decides :
    (keys : List String) (es : List Edge)
    → EndsIn keys es
    → ((assert_acyclic keys es ≡ ok tt) × IsAcyclic es)
      ⊎ ((assert_acyclic keys es ≡ err validation) × Cyclic es)
unfolding assert_acyclic
assert_acyclic_decides keys es closed = split (search_keys keys es) refl
  where
    split :
        (r : Search)
        → search_keys keys es ≡ r
        → ((outcome (search_keys keys es) ≡ ok tt) × IsAcyclic es)
          ⊎ ((outcome (search_keys keys es) ≡ err validation) × Cyclic es)
    split (done c) e = inl (ap outcome e, search_keys_done keys es c closed e)
    split cycle e = inr (ap outcome e, search_keys_cycle keys es e)
    split no_fuel e = absurd (search_keys_ends keys es closed e)

pub assert_acyclic-IsAcyclic :
    (keys : List String) (es : List Edge)
    → EndsIn keys es
    → assert_acyclic keys es ≡ ok tt
    → IsAcyclic es
assert_acyclic-IsAcyclic keys es closed returns = elim (assert_acyclic_decides keys es closed) [
  | inl (e, acyclic) ↦ acyclic
  | inr (e, c) ↦ cc
]
