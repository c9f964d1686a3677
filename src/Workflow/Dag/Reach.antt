-- ===== src/Workflow/Dag/Reach.antt =====
-- Paths along the edges of a definition.
use lark_plat.Prelude.{String, ◌≡◌, true, List, elem, string_eq}
use lark_plat.Workflow.Dag.{Edge, targets}

-- n → m is an edge
abbrev pub HasEdge : List Edge → String → String → Type 0
HasEdge es n m = elem m (targets es n) ≡ true

-- one or more edges
pub data Leads (es : List Edge) : String → String → Type 0 where
  step : {n m : String} → HasEdge es n m → Leads es n m
  next : {n m k : String} → HasEdge es n m → Leads es m k → Leads es n k

-- No node leads to itself.
abbrev pub IsAcyclic : List Edge → Type 0
IsAcyclic es = (n : String) → ¬ Leads es n n

pub Leads-trans : {es : List Edge} {n m k : String} → Leads es n m → Leads es m k → Leads es n k
Leads-trans (step e) l = next e l
Leads-trans (next e r) l = next e (Leads-trans r l)

-- all that n leads to is finite
pub data IsGrounded (es : List Edge) : String → Type 0 where
  grounded : {n : String} → ((m : String) → HasEdge es n m → IsGrounded es m) → IsGrounded es n

-- a node that is grounded leads to no cycle
pub Leads-IsGrounded :
    {es : List Edge} {n m : String} → IsGrounded es n → Leads es n m → IsGrounded es m
Leads-IsGrounded (grounded f) (step e) = f _ e
Leads-IsGrounded (grounded f) (next e l) = Leads-IsGrounded (f _ e) l

pub IsGrounded-acyclic : {es : List Edge} {n : String} → IsGrounded es n → ¬ Leads es n n
IsGrounded-acyclic (grounded f) (step e) = IsGrounded-acyclic (f _ e) (step e)
IsGrounded-acyclic (grounded f) (next e l) = IsGrounded-acyclic (f _ e) (Leads-trans l (step e))
