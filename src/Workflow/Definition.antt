-- ===== src/Workflow/Definition.antt =====
-- `_validate_definition` of backend/app/services/workflow_service.py, and how the engine reads a
-- stored definition (`_load_definition` of backend/app/services/workflow_engine.py).
mod Edges
pub mod Nodes
pub mod Valid
use lark_plat.Prelude.{
  ℕ, String, Bool, true, false, not, ◌||◌, List, [], ◌∷◌, ◌++◌, map, elem, length, leb, ltb, ◌==◌,
  string_eq, Option, none, some, if◌then◌else◌,
}
use lark_plat.Json.{Json, null, bool, num, str, arr, obj, Fields, get, truthy, items}
use lark_plat.Errors.{Result, ok, err, validation, internal, require, ◌>>=◌, ◌>>◌}
use lark_plat.Workflow.Dag.{Edge, assert_acyclic}

abbrev pub max_nodes : ℕ
max_nodes = 100

abbrev pub max_edges : ℕ
max_edges = 500

-- NODE_TYPES
pub data NodeType : Type 0 where
  exec_task manual_approval wait callback sleep : NodeType

unfoldable pub node_type : Json → Option NodeType
node_type (str s) =
    if s == "exec_task"
    then some exec_task
    else if s == "manual_approval"
    then some manual_approval
    else if s == "wait"
    then some wait
    else if s == "callback"
    then some callback
    else if s == "sleep"
    then some sleep
    else none
node_type _ = none

-- node["key"], with the two tests on it
unfoldable pub check_key : Json → List String → Result String
check_key (str key) keys = if key == "" || elem key keys then err validation else ok key
check_key _ keys = err validation

unfoldable pub known_type : Option NodeType → Result (Unit {0})
known_type none = err validation
known_type (some t) = ok tt

-- one round of the first loop: the key of the node
unfoldable pub check_node : Json → List String → Result String
unfolding check_key known_type node_type
check_node (obj node) keys = do
  key ← check_key (get node "key") keys
  known_type (node_type (get node "type"))
  ok key
check_node _ keys = err validation

-- the first loop: the keys of all nodes, the last one first
unfoldable pub check_nodes : List Json → List String → Result (List String)
check_nodes [] keys = ok keys
check_nodes (node ∷ nodes) keys = check_node node keys >>= λ key. check_nodes nodes (key ∷ keys)

-- `ref not in keys`, a set: a list or an object is not hashable
unfoldable pub check_ref : List String → Json → Result String
check_ref keys (str ref) = if elem ref keys then ok ref else err validation
check_ref keys (arr _) = err internal
check_ref keys (obj _) = err internal
check_ref keys _ = err validation

unfoldable pub check_refs : List String → String → List Json → Result (List Edge)
check_refs keys key [] = ok []
check_refs keys key (ref ∷ refs) =
    check_ref keys ref >>= λ src. check_refs keys key refs >>= λ es. ok ((src, key) ∷ es)

-- node.get(field) or []
unfoldable pub check_list : Json → Result (List Json)
check_list (arr xs) = ok (items xs)
check_list v = if truthy v then err validation else ok []

unfoldable pub check_field : List String → Fields → String → String → Result (List Edge)
check_field keys node key field = check_list (get node field) >>= λ refs. check_refs keys key refs

-- node["key"], once the first loop has passed
abbrev pub text : Json → String
text (str s) = s
text _ = ""

-- the edges of one part of the loop, then those of the next
unfoldable pub join : Result (List Edge) → Result (List Edge) → Result (List Edge)
join m n = m >>= λ es. n >>= λ rest. ok (es ++ rest)

-- one round of the second loop
unfoldable pub check_edges : List String → Json → Result (List Edge)
unfolding check_field check_list check_refs check_ref join
check_edges keys (obj node) =
    let key = text (get node "key") in
    join (check_field keys node key "depends_on")
      (join (check_field keys node key "on_success") (check_field keys node key "on_failure"))
check_edges keys _ = err internal

-- the second loop
unfoldable pub check_all_edges : List String → List Json → Result (List Edge)
unfolding join
check_all_edges keys [] = ok []
check_all_edges keys (node ∷ nodes) = join (check_edges keys node) (check_all_edges keys nodes)

unfoldable pub check_graph : List Json → Result (Unit {0})
unfolding check_nodes check_node check_all_edges check_edges assert_acyclic
check_graph nodes = do
  require (leb (length nodes) max_nodes) validation
  keys ← check_nodes nodes []
  edges ← check_all_edges keys nodes
  require (leb (length edges) max_edges) validation
  assert_acyclic keys edges

unfoldable pub check_list_of_nodes : Json → Result (Unit {0})
check_list_of_nodes (arr xs) = check_graph (items xs)
check_list_of_nodes _ = err validation

unfoldable pub validate_definition : Json → Result Json
unfolding check_graph check_list_of_nodes
validate_definition (obj definition) =
    check_list_of_nodes (get definition "nodes") >> ok (obj definition)
validate_definition _ = err validation

-- A node of a stored definition, as the engine reads it.
pub record NodeDef : Type 0 where
  pub key : String
  pub depends_on : List String
  pub on_success : List String
  pub on_failure : List String
  pub config : Json

-- the texts of a list; a validated list holds nothing else
abbrev pub texts : List Json → List String
texts [] = []
texts (str s ∷ xs) = s ∷ texts xs
texts (_ ∷ xs) = texts xs

-- dn.get(field) or []
abbrev pub refs : Json → List String
refs (arr xs) = texts (items xs)
refs _ = []

unfoldable pub node_def : Fields → String → NodeDef
node_def node key = record {
  key = key;
  depends_on = refs (get node "depends_on");
  on_success = refs (get node "on_success");
  on_failure = refs (get node "on_failure");
  config = get node "config";
}

unfoldable pub keyed : Fields → Json → List NodeDef
unfolding node_def
keyed node (str key) = node_def node key ∷ []
keyed node _ = []

unfoldable pub def_node : Json → List NodeDef
unfolding keyed
def_node (obj node) = keyed node (get node "key")
def_node _ = []

-- `defnodes` of `_load_definition`, a list in place of the dict: the keys are distinct
unfoldable pub def_nodes : List Json → List NodeDef
unfolding def_node
def_nodes [] = []
def_nodes (node ∷ nodes) = def_node node ++ def_nodes nodes
