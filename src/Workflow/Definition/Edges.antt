-- ===== src/Workflow/Definition/Edges.antt =====
-- The second loop of `_validate_definition` makes the edges of the nodes that the engine reads.
use mathlib.Core.Path.{subst}
use lark_plat.Prelude.{
  String, ◌≡◌, refl, sym, ap, true, ◌||◌, List, [], ◌∷◌, ◌++◌, elem, arith, ◌==◌, string_eq, eq_iff,
  Bool-cases, inl, inr,
}
use lark_plat.Json.{Json, null, bool, num, negative, str, arr, obj, Fields, get}
use lark_plat.Errors.{Result, ok, err, ◌>>=◌, >>=-eq-ok}
use lark_plat.Workflow.Dag.{Edge}
use lark_plat.Workflow.Definition.{
  check_ref, check_refs, check_list, check_field, join, text, check_edges, NodeDef, texts, refs,
  node_def,
}

-- r → key for each reference r of the node `key`
abbrev pub pairs : String → List String → List Edge
pairs key [] = []
pairs key (r ∷ rs) = (r, key) ∷ pairs key rs

-- the references of a node
abbrev pub node_refs : NodeDef → List String
node_refs d = d.depends_on ++ (d.on_success ++ d.on_failure)

abbrev pub edges_of : List NodeDef → List Edge
edges_of [] = []
edges_of (d ∷ ds) = pairs d.key (node_refs d) ++ edges_of ds

abbrev pub keys_of : List NodeDef → List String
keys_of [] = []
keys_of (d ∷ ds) = d.key ∷ keys_of ds

pub ok-injective {ℓ} : {A : Type ℓ} {a b : A} → ok a ≡ ok b → a ≡ b
ok-injective h = cc

pub elem-append : (r : String) (xs ys : List String) → elem r (xs ++ ys) ≡ (elem r xs || elem r ys)
elem-append r [] ys = refl
elem-append r (x ∷ xs) ys = ground (arith, elem-append r xs ys)

pub pairs-append :
    (k : String) (xs ys : List String) → pairs k (xs ++ ys) ≡ pairs k xs ++ pairs k ys
pairs-append k [] ys = refl
pairs-append k (x ∷ xs) ys = cc (pairs-append k xs ys)

abbrev pub Within : List String → List String → Type 0
Within rs keys = (r : String) → elem r rs ≡ true → elem r keys ≡ true

Within-cons :
    (r : String) (rs keys : List String)
    → elem r keys ≡ true
    → Within rs keys
    → Within (r ∷ rs) keys
Within-cons r rs keys h w s p = elim (Bool-cases (r == s)) [
  | inl same ↦ rw (← (eq_iff r s).0 same) h
  | inr other ↦ w s (ground arith)
]

Within-append :
    (rs ss keys : List String) → Within rs keys → Within ss keys → Within (rs ++ ss) keys
Within-append [] ss keys v w = w
Within-append (r ∷ rs) ss keys v w =
    Within-cons r (rs ++ ss) keys (v r (ground (arith, eq_iff r r)))
      (Within-append rs ss keys (λ s p. v s (ground arith)) w)

-- If it returns, the check has made the edges of these references, all of which are keys.
pub record Makes (keys : List String) (key : String) (rs : List String) (r : Result (List Edge))
    : Type 0 where
  pub edges : (es : List Edge) → r ≡ ok es → es ≡ pairs key rs
  pub known : (es : List Edge) → r ≡ ok es → Within rs keys

pub join_lem :
    (m n : Result (List Edge)) {es : List Edge}
    → join m n ≡ ok es
    → (xs ys : List Edge) × (m ≡ ok xs) × (n ≡ ok ys) × (es ≡ xs ++ ys)
unfolding join
join_lem (ok xs) (ok ys) h = (xs, ys, refl, refl, sym (ok-injective h))
join_lem (ok xs) (err e) h = cc
join_lem (err e) n h = cc

Makes-join :
    {keys : List String} {key : String} {rs ss : List String} {m n : Result (List Edge)}
    → Makes keys key rs m
    → Makes keys key ss n
    → Makes keys key (rs ++ ss) (join m n)
Makes-join {keys} {key} {rs} {ss} {m} {n} a b = record {
  edges = λ es h.
      let (xs, ys, p, q, e) = join_lem m n h in
      cc (e, a.edges xs p, b.edges ys q, pairs-append key rs ss);
  known = λ es h.
      let (xs, ys, p, q, e) = join_lem m n h in
      Within-append rs ss keys (a.known xs p) (b.known ys q);
}

check_ref_lem :
    (keys : List String) (s : String) {src : String}
    → check_ref keys (str s) ≡ ok src
    → (src ≡ s) × (elem s keys ≡ true)
unfolding check_ref
check_ref_lem keys s h = ground arith

check_refs-Makes :
    (keys : List String) (key : String) (js : List Json)
    → Makes keys key (texts js) (check_refs keys key js)
unfolding check_refs
check_refs-Makes keys key [] = record {
  edges = λ es h. sym (ok-injective h);
  known = λ es h r p. cc;
}
check_refs-Makes keys key (str s ∷ js) = record {
  edges = λ es h.
      let (src, e, k) =
        >>=-eq-ok (check_ref keys (str s))
          (λ src. check_refs keys key js >>= λ es. ok ((src, key) ∷ es)) h in
      let (es', e', k') = >>=-eq-ok (check_refs keys key js) (λ es. ok ((src, key) ∷ es)) k in
      cc (k', (check_ref_lem keys s e).0, (check_refs-Makes keys key js).edges es' e');
  known = λ es h.
      let (src, e, k) =
        >>=-eq-ok (check_ref keys (str s))
          (λ src. check_refs keys key js >>= λ es. ok ((src, key) ∷ es)) h in
      let (es', e', k') = >>=-eq-ok (check_refs keys key js) (λ es. ok ((src, key) ∷ es)) k in
      Within-cons s (texts js) keys (check_ref_lem keys s e).1
        ((check_refs-Makes keys key js).known es' e');
}
check_refs-Makes keys key (null ∷ js) =
    unfold check_ref in record { edges = λ es h. cc; known = λ es h. cc }
check_refs-Makes keys key (bool b ∷ js) =
    unfold check_ref in record { edges = λ es h. cc; known = λ es h. cc }
check_refs-Makes keys key (num n ∷ js) =
    unfold check_ref in record { edges = λ es h. cc; known = λ es h. cc }
check_refs-Makes keys key (negative n ∷ js) =
    unfold check_ref in record { edges = λ es h. cc; known = λ es h. cc }
check_refs-Makes keys key (arr xs ∷ js) =
    unfold check_ref in record { edges = λ es h. cc; known = λ es h. cc }
check_refs-Makes keys key (obj f ∷ js) =
    unfold check_ref in record { edges = λ es h. cc; known = λ es h. cc }

check_list_lem : (j : Json) {js : List Json} → check_list j ≡ ok js → texts js ≡ refs j
unfolding check_list
check_list_lem (arr xs) h = sym (ap texts (ok-injective h))
check_list_lem _ h = ground arith

check_field-Makes :
    (keys : List String) (node : Fields) (key field : String)
    → Makes keys key (refs (get node field)) (check_field keys node key field)
unfolding check_field
check_field-Makes keys node key field = record {
  edges = λ es h.
      let (js, e, k) = >>=-eq-ok (check_list (get node field)) (check_refs keys key) h in
      rw (← check_list_lem (get node field) e) ((check_refs-Makes keys key js).edges es k);
  known = λ es h.
      let (js, e, k) = >>=-eq-ok (check_list (get node field)) (check_refs keys key) h in
      rw (← check_list_lem (get node field) e) ((check_refs-Makes keys key js).known es k);
}

pub check_edges-Makes :
    (keys : List String) (node : Fields) (key : String)
    → get node "key" ≡ str key
    → Makes keys key (node_refs (node_def node key)) (check_edges keys (obj node))
check_edges-Makes keys node key is_key =
    subst (λ k. Makes keys k (node_refs (node_def node k)) (check_edges keys (obj node)))
      (ap text is_key)
      (unfold check_edges node_def in
        Makes-join (check_field-Makes keys node (text (get node "key")) "depends_on") (
          Makes-join (check_field-Makes keys node (text (get node "key")) "on_success")
            (check_field-Makes keys node (text (get node "key")) "on_failure")))
