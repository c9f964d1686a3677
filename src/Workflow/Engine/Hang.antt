-- ===== src/Workflow/Engine/Hang.antt =====
-- Definitions that pass validation and leave a pending node without an end.
use mathlib.Core.Path.{subst}
use lark_plat.Prelude.{
  ℕ, String, ◌≡◌, sym, true, List, [], ◌∷◌, arith, some, Bool-cases, inl, inr, ◌==◌, string_eq,
  eq_iff,
}
use lark_plat.Session.{request}
use lark_plat.Json.{Fields}
use lark_plat.Workflow.Definition.{NodeDef}
use lark_plat.Workflow.Model.{NodeStatus, NodeRun}
use lark_plat.Workflow.Engine.Verdict.{
  Statuses, wait, verdict, fail_sources, succ_sources, deps_of, find_def,
}
use lark_plat.Workflow.Engine.Port.{Port, RunDb}
use lark_plat.Workflow.Engine.Nodes.{activate, enter, mark, verdict_for, statuses_of}
use lark_plat.Workflow.Engine.Moves.{in_progress}
use lark_plat.Workflow.Engine.Advance.{replace_node}
use lark_plat.Workflow.Engine.Step.{Definition, find_node, step}
use lark_plat.Workflow.Engine.Steps.{step_keeps}
use lark_plat.Workflow.Engine.Order.{enter-key}
use lark_plat.Workflow.Engine.Grows.{statuses_of-find_node, find_node-replace_node}

-- both are pending
pub record IsBlocked (a b : String) (status : Statuses) : Type 0 where
  pub first : status a ≡ some NodeStatus.pending
  pub second : status b ≡ some NodeStatus.pending

replace_node-pending :
    (n m : NodeRun) (ns : List NodeRun) (k : String)
    → find_node ns n.node_key ≡ some n
    → in_progress n.status ≡ true
    → m.node_key ≡ n.node_key
    → statuses_of ns k ≡ some NodeStatus.pending
    → statuses_of (replace_node m ns) k ≡ some NodeStatus.pending
replace_node-pending n m ns k found live e h = ground (
  arith,
  found,
  live,
  h,
  statuses_of-find_node ns k,
  statuses_of-find_node (replace_node m ns) k,
  find_node-replace_node n m ns k found e,
  eq_iff n.node_key k,
)

-- the first loop lets a pending node be, where the verdict on its key is to wait
mark-pending :
    (ds : List NodeDef) (n : NodeRun) (status : Statuses) (k : String)
    → verdict k ds status ≡ wait
    → status k ≡ some NodeStatus.pending
    → mark (verdict_for n ds status) n.node_key status k ≡ some NodeStatus.pending
mark-pending ds n status k w h = elim (Bool-cases (n.node_key == k)) [
  | inl here ↦
      let e = (eq_iff n.node_key k).0 here in
      unfold mark verdict_for in
      ground (arith, h, subst (λ x. verdict x ds status ≡ wait) (sym e) w)
  | inr there ↦ unfold mark in ground (arith, h, there)
]

enter-pending :
    (ds : List NodeDef) (now : ℕ) (n : NodeRun) (status : Statuses) (k : String)
    → verdict k ds status ≡ wait
    → (n.node_key == k) ≡ true
    → enter (verdict_for n ds status) n now ≡ n
enter-pending ds now n status k w here =
    let e = (eq_iff n.node_key k).0 here in
    unfold enter verdict_for in ground (arith, subst (λ x. verdict x ds status ≡ wait) (sym e) w)

module _ (ds : List NodeDef) (a b : String)
    (waits : (status : Statuses)
      → IsBlocked a b status
      → (verdict a ds status ≡ wait) × (verdict b ds status ≡ wait)) where
  activate-pending :
      (now : ℕ) (ns : List NodeRun) (status : Statuses) (k : String)
      → ((st : Statuses) → IsBlocked a b st → verdict k ds st ≡ wait)
      → IsBlocked a b status
      → statuses_of ns k ≡ some NodeStatus.pending
      → statuses_of (activate ds now status ns).after k ≡ some NodeStatus.pending
  unfolding activate statuses_of
  activate-pending now [] status k wk h is = cc
  activate-pending now (n ∷ ns) status k wk h is =
      let v = verdict_for n ds status in
      let rest = activate-pending now ns (mark v n.node_key status) k wk (record {
        first = mark-pending ds n status a (waits status h).0 h.first;
        second = mark-pending ds n status b (waits status h).1 h.second;
      }) in
      ground (
        arith,
        is,
        rest,
        enter-key v n now,
        enter-pending ds now n status k (wk status h),
        eq_iff n.node_key k,
      )

  step-IsBlocked :
      {W : Type 0} (port : Port W) (now : ℕ) (defaults : Fields) (db : RunDb W)
      → IsBlocked a b (statuses_of db.nodes)
      → IsBlocked a b (
          statuses_of
            (request (step port now (record { node_defs = ds; defaults = defaults })) db).1.nodes)
  step-IsBlocked port now defaults db h =
      step_keeps {P = λ ns. IsBlocked a b (statuses_of ns)}
        (record {
          replaces = λ n m ns found live moves h. record {
            first = replace_node-pending n m ns a found live moves.same_key h.first;
            second = replace_node-pending n m ns b found live moves.same_key h.second;
          };
        })
        port now (record { node_defs = ds; defaults = defaults })
        (λ ns h. record {
          first = activate-pending now ns (statuses_of ns) a (λ st g. (waits st g).0) h h.first;
          second = activate-pending now ns (statuses_of ns) b (λ st g. (waits st g).1) h h.second;
        })
        db h

-- The node `a` waits for `b` by depends_on, and `b` for `a`, which names it in on_success.
pub record IsCrossed (ds : List NodeDef) (a b : String) : Type 0 where
  pub a_deps : deps_of (find_def ds a) ≡ b ∷ []
  pub b_deps : deps_of (find_def ds b) ≡ []
  pub a_succ : succ_sources ds a ≡ []
  pub b_succ : succ_sources ds b ≡ a ∷ []
  pub a_fail : fail_sources ds a ≡ []
  pub b_fail : fail_sources ds b ≡ []

IsCrossed-waits :
    (ds : List NodeDef) (a b : String)
    → IsCrossed ds a b
    → (status : Statuses) → IsBlocked a b status
    → (verdict a ds status ≡ wait) × (verdict b ds status ≡ wait)
unfolding verdict
IsCrossed-waits ds a b c status h = (
  rw (c.a_deps, c.a_succ, c.a_fail) (ground (arith, h.first, h.second)),
  rw (c.b_deps, c.b_succ, c.b_fail) (ground (arith, h.first, h.second)),
)

-- ticks of the driver at the given instants
abbrev pub ticks : {W : Type 0} → Port W → Definition → List ℕ → RunDb W → RunDb W
ticks port d [] db = db
ticks port d (now ∷ nows) db = ticks port d nows (request (step port now d) db).1

-- If `a` depends on `b` and names it in on_success too, and nothing else leads to them, then both are
-- pending still after any number of ticks, at whatever instants.
pub crossed_nodes_hang :
    {W : Type 0} (port : Port W) (nows : List ℕ) (d : Definition) (a b : String) (db : RunDb W)
    → IsCrossed d.node_defs a b
    → IsBlocked a b (statuses_of db.nodes)
    → IsBlocked a b (statuses_of (ticks port d nows db).nodes)
crossed_nodes_hang port [] d a b db c h = h
crossed_nodes_hang port (now ∷ nows) d a b db c h =
    crossed_nodes_hang port nows d a b (request (step port now d) db).1 c
      (step-IsBlocked d.node_defs a b (IsCrossed-waits d.node_defs a b c) port now d.defaults db h)
