-- ===== src/Workflow/Engine/Route.antt =====
-- When the verdict on a pending node lets it enter.
use lark_plat.Prelude.{
  String, ◌≡◌, ◌↔◌, refl, Bool, true, false, not, ◌&&◌, ◌||◌, List, [], ◌∷◌, any, all, arith,
  string_eq,
}
use lark_plat.Workflow.Definition.{NodeDef}
use lark_plat.Workflow.Engine.Verdict.{
  Statuses, ready, verdict, is_failed, is_succeeded, is_dead, fail_sources, succ_sources, deps_of,
  find_def,
}

-- The route to a node is open: a source of its failure route has failed, or all that it waits for
-- and all sources of its success route have succeeded.
abbrev pub is_open : String → List NodeDef → Statuses → Bool
is_open key ds status =
    any (λ s. is_failed (status s)) (fail_sources ds key)
    || (all (λ s. is_succeeded (status s)) (deps_of (find_def ds key))
        && all (λ s. is_succeeded (status s)) (succ_sources ds key))

any-not-all :
    (status : Statuses) (xs : List String)
    → any (λ d. not (is_succeeded (status d))) xs ≡ not (all (λ d. is_succeeded (status d)) xs)
any-not-all status [] = refl
any-not-all status (x ∷ xs) = ground (arith, any-not-all status xs)

succeeded_not_dead :
    (status : Statuses) (xs : List String)
    → all (λ d. is_succeeded (status d)) xs ≡ true
    → any (λ d. is_dead (status d)) xs ≡ false
succeeded_not_dead status [] h = refl
succeeded_not_dead status (x ∷ xs) h = ground (arith, succeeded_not_dead status xs)

succeeded_not_failed :
    (status : Statuses) (xs : List String)
    → all (λ d. is_succeeded (status d)) xs ≡ true
    → any (λ d. is_failed (status d)) xs ≡ false
succeeded_not_failed status [] h = refl
succeeded_not_failed status (x ∷ xs) h = ground (arith, succeeded_not_failed status xs)

-- `_verdict` lets a node enter exactly when the route to it is open.
pub verdict-ready_iff :
    (key : String) (ds : List NodeDef) (status : Statuses)
    → (verdict key ds status ≡ ready) ↔ (is_open key ds status ≡ true)
unfolding verdict
verdict-ready_iff key ds status =
    let deps = deps_of (find_def ds key) in
    let succs = succ_sources ds key in
    ground (
      arith,
      any-not-all status deps,
      any-not-all status succs,
      succeeded_not_dead status deps,
      succeeded_not_failed status succs,
    )
