-- ===== src/Workflow/Definition/Nodes.antt =====
-- What the tests of single nodes ensure in `_validate_definition` of
-- backend/app/services/workflow_service.py.
use mathlib.Core.Path.{subst}
use lark_plat.Prelude.{
  ◌≤◌, String, ◌≡◌, ◌≢◌, refl, ap, true, false, ◌||◌, List, [], ◌∷◌, ◌++◌, elem, length, All, arith,
  ◌==◌, string_eq, eq_iff, Option, none, some, Bool-cases, inl, inr,
}
use lark_plat.Json.{Json, null, bool, num, negative, str, arr, obj, Fields, get}
use lark_plat.Errors.{ok, ◌>>◌, >>=-eq-ok}
use lark_plat.Workflow.Dag.Correct.{IsAcyclic}
use lark_plat.Workflow.Definition.{
  max_nodes, max_edges, NodeType, node_type, check_key, known_type, check_node, node_def, def_node,
  def_nodes, keyed,
}
pub use lark_plat.Workflow.Definition.Edges.{Within, node_refs, edges_of, keys_of}
use lark_plat.Workflow.Definition.Edges.{ok-injective}

abbrev pub Distinct : List String → Type 0
Distinct [] = Unit
Distinct (k ∷ ks) = (elem k ks ≡ false) × Distinct ks

-- an object with a nonempty key and a known type
pub record IsNode (j : Json) : Type 0 where
  pub fields : Fields
  pub key : String
  pub type : NodeType
  pub is_obj : j ≡ obj fields
  pub has_key : get fields "key" ≡ str key
  pub nonempty : key ≢ ""
  pub has_type : node_type (get fields "type") ≡ some type

-- The contract of §13.2: typed nodes with distinct keys, references to nodes only, no cycle along
-- the edges, and the two caps.
pub record IsValid (nodes : List Json) : Type 0 where
  pub sized : length nodes ≤ max_nodes
  pub typed : All IsNode nodes
  pub distinct : Distinct (keys_of (def_nodes nodes))
  pub known : All (λ d. Within (node_refs d) (keys_of (def_nodes nodes))) (def_nodes nodes)
  pub few_edges : length (edges_of (def_nodes nodes)) ≤ max_edges
  pub acyclic : IsAcyclic (edges_of (def_nodes nodes))

check_key_lem :
    (j : Json) (keys : List String) {key : String}
    → check_key j keys ≡ ok key
    → (j ≡ str key) × (key ≢ "") × (elem key keys ≡ false)
unfolding check_key
check_key_lem (str s) keys h = ground (arith, eq_iff s "")
check_key_lem _ keys h = cc

known_type_lem :
    (o : Option NodeType) {u : Unit {0}} → known_type o ≡ ok u → (t : NodeType) × (o ≡ some t)
unfolding known_type
known_type_lem none h = cc
known_type_lem (some t) h = (t, refl)

pub check_node_lem :
    (j : Json) (keys : List String) {key : String}
    → check_node j keys ≡ ok key
    → (n : IsNode j) × (n.key ≡ key) × (elem key keys ≡ false)
check_node_lem (obj f) keys {key} h =
    unfold check_node in
    let o = node_type (get f "type") in
    let (k, e, r) = >>=-eq-ok (check_key (get f "key") keys) (λ key. known_type o >> ok key) h in
    let (u, e', r') = >>=-eq-ok (known_type o) (λ _. ok k) r in
    let (is, ne, fresh) = check_key_lem (get f "key") keys e in
    let (t, is_type) = known_type_lem o e' in
    (
      record {
        fields = f;
        key = k;
        type = t;
        is_obj = refl;
        has_key = is;
        nonempty = ne;
        has_type = is_type;
      },
      ok-injective r',
      subst (λ k. elem k keys ≡ false) (ok-injective r') fresh,
    )
check_node_lem (null) keys h = unfold check_node in cc
check_node_lem (bool b) keys h = unfold check_node in cc
check_node_lem (negative b) keys h = unfold check_node in cc
check_node_lem (num b) keys h = unfold check_node in cc
check_node_lem (str b) keys h = unfold check_node in cc
check_node_lem (arr b) keys h = unfold check_node in cc

def_node_lem : {j : Json} (n : IsNode j) → def_node j ≡ node_def n.fields n.key ∷ []
unfolding def_node
def_node_lem {j} n = rw n.is_obj (ap (keyed n.fields) n.has_key)

pub def_nodes-cons :
    {j : Json} (js : List Json) (n : IsNode j)
    → def_nodes (j ∷ js) ≡ node_def n.fields n.key ∷ def_nodes js
unfolding def_nodes
def_nodes-cons js n = ap (λ ds. ds ++ def_nodes js) (def_node_lem n)

-- the keys `ks` of some nodes are new and distinct, and with those seen before they make `keys`
pub record Keyed (ks seen keys : List String) : Type 0 where
  pub members : (k : String) → elem k keys ≡ (elem k ks || elem k seen)
  pub fresh : (k : String) → elem k ks ≡ true → elem k seen ≡ false
  pub distinct : Distinct ks

not_elem : (k : String) (ks : List String) → (elem k ks ≡ true → ⊥) → elem k ks ≡ false
not_elem k ks h = ground arith

pub Keyed-cons :
    (key : String) {ks seen keys : List String}
    → elem key seen ≡ false
    → Keyed ks (key ∷ seen) keys
    → Keyed (key ∷ ks) seen keys
Keyed-cons key {ks} {seen} {keys} new rest = record {
  members = λ k. ground (arith, rest.members k);
  fresh = λ k p. elim (Bool-cases (key == k)) [
    | inl same ↦ rw (← (eq_iff key k).0 same) new
    | inr other ↦ ground (arith, rest.fresh k)
  ];
  distinct = (not_elem key ks (λ p. cc (rest.fresh key p, (eq_iff key key).1 refl)), rest.distinct);
}
