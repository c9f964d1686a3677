-- ===== src/Workflow/Engine/Grows.antt =====
-- Routes stay open as nodes move on, in the statuses that `step` of
-- backend/app/services/workflow_engine.py keeps.
use mathlib.Core.Path.{subst}
use lark_plat.Prelude.{
  String, ◌≡◌, refl, sym, ◌∙◌, Bool, true, false, List, [], ◌∷◌, any, all, arith, Option, none,
  some, Bool-cases, inl, inr, if◌then◌else◌, ◌==◌, string_eq, eq_iff,
}
use lark_plat.Workflow.Definition.{NodeDef}
use lark_plat.Workflow.Model.{NodeStatus, NodeRun}
use lark_plat.Workflow.Engine.Verdict.{
  Statuses, Verdict, is_failed, is_succeeded, fail_sources, succ_sources, deps_of, find_def,
}
use lark_plat.Workflow.Engine.Nodes.{mark, statuses_of}
use lark_plat.Workflow.Engine.Moves.{in_progress}
use lark_plat.Workflow.Engine.Advance.{replace_node}
use lark_plat.Workflow.Engine.Step.{find_node}
use lark_plat.Workflow.Engine.Steps.{Stable}
use lark_plat.Workflow.Engine.Route.{is_open}

abbrev pub has_entered : NodeStatus → Bool
has_entered NodeStatus.running = true
has_entered NodeStatus.waiting = true
has_entered NodeStatus.succeeded = true
has_entered NodeStatus.failed = true
has_entered _ = false

-- Every node that has entered stands on an open route.
pub record IsOrdered (ds : List NodeDef) (ns : List NodeRun) : Type 0 where
  pub at :
      (key : String) (n : NodeRun)
      → find_node ns key ≡ some n
      → has_entered n.status ≡ true
      → is_open key ds (statuses_of ns) ≡ true

-- what has succeeded or failed in the first has done so in the second
pub record Grows (a b : Statuses) : Type 0 where
  pub succeeded : (k : String) → is_succeeded (a k) ≡ true → is_succeeded (b k) ≡ true
  pub failed : (k : String) → is_failed (a k) ≡ true → is_failed (b k) ≡ true

pub Grows-trans : {a b c : Statuses} → Grows a b → Grows b c → Grows a c
Grows-trans f g = record {
  succeeded = λ k h. g.succeeded k (f.succeeded k h);
  failed = λ k h. g.failed k (f.failed k h);
}

all-Grows :
    {a b : Statuses} (xs : List String)
    → Grows a b
    → all (λ s. is_succeeded (a s)) xs ≡ true
    → all (λ s. is_succeeded (b s)) xs ≡ true
all-Grows [] g h = refl
all-Grows (x ∷ xs) g h = ground (arith, g.succeeded x, all-Grows xs g)

any-Grows :
    {a b : Statuses} (xs : List String)
    → Grows a b
    → any (λ s. is_failed (a s)) xs ≡ true
    → any (λ s. is_failed (b s)) xs ≡ true
any-Grows [] g h = cc
any-Grows (x ∷ xs) g h = ground (arith, g.failed x, any-Grows xs g)

pub is_open-Grows :
    (key : String) (ds : List NodeDef) {a b : Statuses}
    → Grows a b
    → is_open key ds a ≡ true
    → is_open key ds b ≡ true
is_open-Grows key ds g h = ground (
  arith,
  h,
  any-Grows (fail_sources ds key) g,
  all-Grows (deps_of (find_def ds key)) g,
  all-Grows (succ_sources ds key) g,
)

abbrev pub status_at : Option NodeRun → Option NodeStatus
status_at none = none
status_at (some n) = some n.status

pub statuses_of-find_node :
    (ns : List NodeRun) (key : String) → statuses_of ns key ≡ status_at (find_node ns key)
unfolding statuses_of find_node
statuses_of-find_node [] key = refl
statuses_of-find_node (n ∷ ns) key = ground (arith, statuses_of-find_node ns key)

pub find_node-replace_node :
    (n m : NodeRun) (ns : List NodeRun) (key : String)
    → find_node ns n.node_key ≡ some n
    → m.node_key ≡ n.node_key
    → find_node (replace_node m ns) key ≡ (if n.node_key == key then some m else find_node ns key)
unfolding find_node replace_node
find_node-replace_node n m [] key found e = cc
find_node-replace_node n m (x ∷ xs) key found e = ground (
  arith,
  found,
  e,
  eq_iff x.node_key m.node_key,
  eq_iff x.node_key n.node_key,
  eq_iff x.node_key key,
  eq_iff n.node_key key,
  eq_iff m.node_key key,
  find_node-replace_node n m xs key,
)

Grows-replace_node :
    (n m : NodeRun) (ns : List NodeRun)
    → find_node ns n.node_key ≡ some n
    → in_progress n.status ≡ true
    → m.node_key ≡ n.node_key
    → Grows (statuses_of ns) (statuses_of (replace_node m ns))
Grows-replace_node n m ns found live e = record {
  succeeded = λ k h. ground (
    arith,
    h,
    found,
    live,
    statuses_of-find_node ns k,
    statuses_of-find_node (replace_node m ns) k,
    find_node-replace_node n m ns k found e,
    eq_iff n.node_key k,
  );
  failed = λ k h. ground (
    arith,
    h,
    found,
    live,
    statuses_of-find_node ns k,
    statuses_of-find_node (replace_node m ns) k,
    find_node-replace_node n m ns k found e,
    eq_iff n.node_key k,
  );
}

replace_node-IsOrdered :
    (ds : List NodeDef) (n m : NodeRun) (ns : List NodeRun)
    → find_node ns n.node_key ≡ some n
    → in_progress n.status ≡ true
    → m.node_key ≡ n.node_key
    → IsOrdered ds ns
    → IsOrdered ds (replace_node m ns)
replace_node-IsOrdered ds n m ns found live e h = record {
  at = λ key x is entered.
      let g = Grows-replace_node n m ns found live e in
      let look = find_node-replace_node n m ns key found e in
      elim (Bool-cases (n.node_key == key)) [
        | inl here ↦ is_open-Grows key ds g (
            h.at key n (subst (λ k. find_node ns k ≡ some n) ((eq_iff n.node_key key).0 here) found)
              (ground (arith, live)))
        | inr there ↦ is_open-Grows key ds g (h.at key x (sym (rw there at look) ∙ is) entered)
      ];
}

pub IsOrdered-Stable : (ds : List NodeDef) → Stable (IsOrdered ds)
IsOrdered-Stable ds = record {
  replaces =
      λ n m ns found live moves h. replace_node-IsOrdered ds n m ns found live moves.same_key h;
}

pub mark-Grows : (v : Verdict) (key : String) (status : Statuses) → Grows (mark v key status) status
unfolding mark
mark-Grows v key status = record { succeeded = λ k h. ground arith; failed = λ k h. ground arith }
