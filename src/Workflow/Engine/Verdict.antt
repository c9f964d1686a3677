-- ===== src/Workflow/Engine/Verdict.antt =====
-- `_edges` and `_verdict`: what becomes of a pending node.
use lark_plat.Prelude.{
  String, Bool, true, false, not, List, [], ◌∷◌, any, elem, Option, none, some, if◌then◌else◌, ◌==◌,
  string_eq,
}
use lark_plat.Workflow.Definition.{NodeDef}
use lark_plat.Workflow.Model.{NodeStatus}

-- the dict `status`
abbrev pub Statuses : Type 0
Statuses = String → Option NodeStatus

-- `on_succ.get(key)`: the nodes whose on_success names `key`
unfoldable pub succ_sources : List NodeDef → String → List String
succ_sources [] key = []
succ_sources (d ∷ ds) key =
    let rest = succ_sources ds key in if elem key d.on_success then d.key ∷ rest else rest

-- `on_fail.get(key)`
unfoldable pub fail_sources : List NodeDef → String → List String
fail_sources [] key = []
fail_sources (d ∷ ds) key =
    let rest = fail_sources ds key in if elem key d.on_failure then d.key ∷ rest else rest

-- defnodes.get(key)
unfoldable pub find_def : List NodeDef → String → Option NodeDef
find_def [] key = none
find_def (d ∷ ds) key = elim (find_def ds key) [
  | some later ↦ some later
  | none ↦ if d.key == key then some d else none
]

-- (dn.get("depends_on") or []), {} for a key with no definition
abbrev pub deps_of : Option NodeDef → List String
deps_of none = []
deps_of (some d) = d.depends_on

abbrev pub is_failed : Option NodeStatus → Bool
is_failed (some NodeStatus.failed) = true
is_failed _ = false

abbrev pub is_succeeded : Option NodeStatus → Bool
is_succeeded (some NodeStatus.succeeded) = true
is_succeeded _ = false

-- in {"failed", "skipped", "cancelled"}
abbrev pub is_dead : Option NodeStatus → Bool
is_dead (some NodeStatus.failed) = true
is_dead (some NodeStatus.skipped) = true
is_dead (some NodeStatus.cancelled) = true
is_dead _ = false

pub data Verdict : Type 0 where
  ready skip wait : Verdict

unfoldable pub verdict_of : List String → List String → List String → Statuses → Verdict
verdict_of deps fails succs status =
    if any (λ s. is_failed (status s)) fails
    then ready
    else if any (λ s. is_failed (status s)) succs
    then skip
    else if any (λ d. is_dead (status d)) deps
    then skip
    else if any (λ d. not (is_succeeded (status d))) deps
    then wait
    else if any (λ s. not (is_succeeded (status s))) succs
    then wait
    else ready

unfoldable pub verdict : String → List NodeDef → Statuses → Verdict
unfolding verdict_of
verdict key ds status =
    verdict_of (deps_of (find_def ds key)) (fail_sources ds key) (succ_sources ds key) status
