-- ===== src/Workflow/Definition/Valid.antt =====
-- What an accepted definition satisfies, in terms of the nodes that the engine reads from it.
use lark_plat.Prelude.{
  String, ◌≡◌, refl, sym, ap, ◌∙◌, Bool, true, false, List, [], ◌∷◌, ◌++◌, elem, length, All, arith,
  ◌==◌, string_eq, Bool-cases, inl, inr, leb, ◌⊎◌,
}
use lark_plat.Json.{Json, null, bool, num, negative, str, arr, obj, Fields, get, items, Items}
use lark_plat.Errors.{AppError, Result, ok, validation, require, ◌>>=◌, ◌>>◌, >>=-eq-ok}
use lark_plat.Workflow.Dag.{Edge, assert_acyclic, targets}
use lark_plat.Workflow.Dag.Correct.{HasEdge, EndsIn, assert_acyclic-IsAcyclic}
use lark_plat.Workflow.Definition.{
  max_nodes, max_edges, check_node, check_nodes, check_edges, check_all_edges, check_graph,
  check_list_of_nodes, validate_definition, NodeDef, node_def, def_nodes, keyed,
}
use lark_plat.Workflow.Definition.Edges.{Within, node_refs, edges_of, keys_of}
use lark_plat.Workflow.Definition.Edges.{ok-injective, join_lem, Makes, check_edges-Makes, pairs}
use lark_plat.Workflow.Definition.Nodes.{
  IsNode, IsValid, check_node_lem, def_nodes-cons, Keyed, Keyed-cons,
}

check_nodes_lem :
    (js : List Json) (seen : List String) {keys : List String}
    → check_nodes js seen ≡ ok keys
    → All IsNode js × Keyed (keys_of (def_nodes js)) seen keys
unfolding check_nodes node_def
check_nodes_lem [] seen {keys} h =
    unfold def_nodes in
    (
      tt,
      record {
        members = λ k. ap (elem k) (sym (ok-injective h));
        fresh = λ k p. cc;
        distinct = tt;
      },
    )
check_nodes_lem (j ∷ js) seen h =
    let (key, e, r) = >>=-eq-ok (check_node j seen) (λ key. check_nodes js (key ∷ seen)) h in
    let (n, is, new) = check_node_lem j seen e in
    let (typed, keyed) = check_nodes_lem js (key ∷ seen) r in
    ((n, typed), rw (def_nodes-cons js n) (rw is (Keyed-cons key new keyed)))

-- the second loop, over nodes that passed the first
check_all_edges_lem :
    (keys : List String) (js : List Json) {es : List Edge}
    → All IsNode js
    → check_all_edges keys js ≡ ok es
    → (es ≡ edges_of (def_nodes js)) × All (λ d. Within (node_refs d) keys) (def_nodes js)
unfolding check_all_edges node_def
check_all_edges_lem keys [] typed h = unfold def_nodes in (sym (ok-injective h), tt)
check_all_edges_lem keys (j ∷ js) (n, typed) h =
    let (xs, ys, p, q, e) = join_lem (check_edges keys j) (check_all_edges keys js) h in
    let made : Makes keys n.key (node_refs (node_def n.fields n.key)) (check_edges keys j) =
      rw n.is_obj (check_edges-Makes keys n.fields n.key n.has_key) in
    let (rest, known) = check_all_edges_lem keys js typed q in
    rw (def_nodes-cons js n) (cc (e, made.edges xs p, rest), (made.known xs p, known))

HasEdge-pairs :
    (k : String) (rs : List String) (es : List Edge) (n m : String)
    → HasEdge (pairs k rs ++ es) n m
    → ((k == m) ≡ true) ⊎ HasEdge es n m
unfolding targets
HasEdge-pairs k [] es n m h = inr h
HasEdge-pairs k (r ∷ rs) es n m h = elim (Bool-cases (k == m)) [
  | inl same ↦ inl same
  | inr other ↦ HasEdge-pairs k rs es n m (ground arith)
]

HasEdge-key :
    (ds : List NodeDef) (n m : String) → HasEdge (edges_of ds) n m → elem m (keys_of ds) ≡ true
HasEdge-key [] n m h = unfold targets in cc
HasEdge-key (d ∷ ds) n m h = elim (HasEdge-pairs d.key (node_refs d) (edges_of ds) n m h) [
  | inl same ↦ ground (arith, same)
  | inr rest ↦ let known = HasEdge-key ds n m rest in ground (arith, known)
]

require_lem : (b : Bool) (e : AppError) {u : Unit {0}} → require b e ≡ ok u → b ≡ true
require_lem true e h = refl
require_lem false e h = cc

All-Within :
    (keys names : List String) (ds : List NodeDef)
    → ((k : String) → elem k keys ≡ elem k names)
    → All (λ d. Within (node_refs d) keys) ds
    → All (λ d. Within (node_refs d) names) ds
All-Within keys names [] same h = tt
All-Within keys names (d ∷ ds) same (h, hs) =
    ((λ r p. sym (same r) ∙ h r p), All-Within keys names ds same hs)

IsValid-of :
    (nodes : List Json) (keys : List String) (es : List Edge)
    → leb (length nodes) max_nodes ≡ true
    → All IsNode nodes
    → Keyed (keys_of (def_nodes nodes)) [] keys
    → es ≡ edges_of (def_nodes nodes)
    → All (λ d. Within (node_refs d) keys) (def_nodes nodes)
    → leb (length es) max_edges ≡ true
    → assert_acyclic keys es ≡ ok tt
    → IsValid nodes
IsValid-of nodes keys es small typed keyed is known few acyclic = record {
  sized = ground arith;
  typed = typed;
  distinct = keyed.distinct;
  known = All-Within keys (keys_of ds) ds same known;
  few_edges = rw (← is) (ground arith);
  acyclic = assert_acyclic-IsAcyclic keys (edges_of ds) ends (rw (← is) acyclic);
}
  where
    ds : List NodeDef
    ds = def_nodes nodes

    same : (k : String) → elem k keys ≡ elem k (keys_of ds)
    same k = ground (arith, keyed.members k)

    ends : EndsIn keys (edges_of ds)
    ends n m h = same m ∙ HasEdge-key ds n m h

check_graph-IsValid : (nodes : List Json) {u : Unit {0}} → check_graph nodes ≡ ok u → IsValid nodes
unfolding check_graph
check_graph-IsValid nodes h =
    let (_, small, h1) =
      >>=-eq-ok (require (leb (length nodes) max_nodes) validation)
        (λ _. check_nodes nodes [] >>= λ keys. after keys) h in
    let (keys, e, h2) = >>=-eq-ok (check_nodes nodes []) after h1 in
    let (es, e', h3) = >>=-eq-ok (check_all_edges keys nodes) (last keys) h2 in
    let (_, few, h4) =
      >>=-eq-ok (require (leb (length es) max_edges) validation) (λ _. assert_acyclic keys es) h3 in
    let (typed, keyed) = check_nodes_lem nodes [] e in
    let (is, known) = check_all_edges_lem keys nodes typed e' in
    IsValid-of nodes keys es (require_lem (leb (length nodes) max_nodes) validation small) typed
      keyed is known (require_lem (leb (length es) max_edges) validation few) h4
  where
    last : List String → List Edge → Result (Unit {0})
    last keys edges = require (leb (length edges) max_edges) validation >> assert_acyclic keys edges

    after : List String → Result (Unit {0})
    after keys = check_all_edges keys nodes >>= last keys

check_list_of_nodes-IsValid :
    (j : Json) {u : Unit {0}}
    → check_list_of_nodes j ≡ ok u
    → (xs : Items) × (j ≡ arr xs) × IsValid (items xs)
unfolding check_list_of_nodes
check_list_of_nodes-IsValid (arr xs) h = (xs, refl, check_graph-IsValid (items xs) h)
check_list_of_nodes-IsValid null h = cc
check_list_of_nodes-IsValid (bool b) h = cc
check_list_of_nodes-IsValid (num n) h = cc
check_list_of_nodes-IsValid (negative n) h = cc
check_list_of_nodes-IsValid (str s) h = cc
check_list_of_nodes-IsValid (obj f) h = cc

-- A definition that `_validate_definition` returns is the one it was given, its "nodes" is a list,
-- and that list satisfies the contract: at most 100 nodes, each an object with a nonempty key and a
-- known type; distinct keys; references to nodes of the definition only; at most 500 edges; and no
-- cycle along them.
pub validate_definition-IsValid :
    (definition : Fields) {r : Json}
    → validate_definition (obj definition) ≡ ok r
    → (xs : Items) × (r ≡ obj definition) × (get definition "nodes" ≡ arr xs) × IsValid (items xs)
unfolding validate_definition
validate_definition-IsValid definition h =
    let (u, e, k) =
      >>=-eq-ok (check_list_of_nodes (get definition "nodes")) (λ _. ok (obj definition)) h in
    let (xs, is, valid) = check_list_of_nodes-IsValid (get definition "nodes") e in
    (xs, sym (ok-injective k), is, valid)
