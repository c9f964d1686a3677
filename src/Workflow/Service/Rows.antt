-- ===== src/Workflow/Service/Rows.antt =====
-- What the writes of backend/app/services/workflow_service.py do to the rows of workflows and of
-- versions.
use mathlib.Core.Path.{subst}
use lark_plat.Prelude.{
  if_yes, if_no, some_injective, ℕ, ◌<◌, ◌≡◌, refl, sym, ap, ◌∙◌, arith, Bool, true, false, not,
  ◌&&◌, Option, none, some, List, [], ◌∷◌, ◌++◌, All, any, ◌||◌, ◌==◌, nat_eq, nat_beq_iff,
  if◌then◌else◌, Bool-cases, inl, inr,
}
use lark_plat.Json.{Json, Fields, obj}
use lark_plat.Errors.{ok}
use lark_plat.Table.{Table, find_row, find, put, add, IsKeyed, find-put, find-add}
use lark_plat.Workflow.Definition.{validate_definition}
use lark_plat.Workflow.Definition.Valid.{validate_definition-IsValid}
use lark_plat.Workflow.Model.{WorkflowRow, VersionRow, WorkflowRun}
use lark_plat.Workflow.Service.Model.{WorkflowDb, version_row}
use lark_plat.Workflow.Service.Versions.{
  drop_workflow, drop_versions, is_referenced, without_workflow,
}
use lark_plat.Workflow.Service.History.{
  History, history, definition_at, IsValidated, version_row-append, version_row-drop,
}

pub All-below :
    (n m : ℕ) (rows : List (ℕ × VersionRow))
    → n < m
    → All (λ (r : ℕ × VersionRow). r.1.workflow_id < n) rows
    → All (λ (r : ℕ × VersionRow). r.1.workflow_id < m) rows
All-below n m [] lt h = tt
All-below n m (r ∷ rows) lt h = (omega (arith, h.0, lt), All-below n m rows lt h.1)

pub All-snoc :
    (n k : ℕ) (v : VersionRow) (rows : List (ℕ × VersionRow))
    → v.workflow_id < n
    → All (λ (r : ℕ × VersionRow). r.1.workflow_id < n) rows
    → All (λ (r : ℕ × VersionRow). r.1.workflow_id < n) (rows ++ (k, v) ∷ [])
All-snoc n k v [] lt h = (lt, tt)
All-snoc n k v (r ∷ rows) lt h = (h.0, All-snoc n k v rows lt h.1)

pub All-drop :
    (n i : ℕ) (rows : List (ℕ × VersionRow))
    → All (λ (r : ℕ × VersionRow). r.1.workflow_id < n) rows
    → All (λ (r : ℕ × VersionRow). r.1.workflow_id < n) (drop_versions i rows)
unfolding drop_versions
All-drop n i [] h = tt
All-drop n i ((k, v) ∷ rows) h = elim (Bool-cases (v.workflow_id == i)) [
  | inl e ↦ rw e (All-drop n i rows h.1)
  | inr e ↦ rw e (h.0, All-drop n i rows h.1)
]

pub both_true : {a b : Bool} → a ≡ true → b ≡ true → (a && b) ≡ true
both_true {a = true} p q = q
both_true {a = false} p q = cc

both_left : (a b : Bool) → (a && b) ≡ true → a ≡ true
both_left true b h = refl
both_left false b h = cc

both_right : (a b : Bool) → (a && b) ≡ true → b ≡ true
both_right true b h = h
both_right false b h = cc

pub not-true : {b : Bool} → not b ≡ true → b ≡ false
not-true {b = true} h = cc
not-true {b = false} h = refl

-- a workflow without runs is not the one of a run
pub unused_other :
    (i r : ℕ) (run : WorkflowRun) (rows : List (ℕ × WorkflowRun))
    → is_referenced i rows ≡ false
    → find_row r rows ≡ some run
    → (i == run.workflow_id) ≡ false
unfolding find_row
unused_other i r run [] unused is = cc
unused_other i r run ((k, x) ∷ rows) unused is = elim (Bool-cases (x.workflow_id == i)) [
  | inl e ↦
      let clash =
        sym (ap (λ b. b || any (λ (r : ℕ × WorkflowRun). r.1.workflow_id == i) rows) e) ∙ unused in
      cc
  | inr e ↦
      let rest =
        sym (ap (λ b. b || any (λ (r : ℕ × WorkflowRun). r.1.workflow_id == i) rows) e) ∙ unused in
      elim (Bool-cases (k == r)) [
        | inl here ↦
            let same = some_injective (sym (if_yes _ _ here) ∙ is) in
            subst (λ (y : WorkflowRun). (i == y.workflow_id) ≡ false) same (ground (arith, e))
        | inr there ↦ unused_other i r run rows rest (sym (if_no _ _ there) ∙ is)
      ]
]

-- what holds of the changed row and of the others holds of each row of the changed table
pub put_current :
    (t : Table WorkflowRow) (i j : ℕ) (w w' x : WorkflowRow)
    → find t i ≡ some w
    → find (put t i w') j ≡ some x
    → (Q : ℕ → WorkflowRow → Type 0) → Q i w'
    → (find t j ≡ some x → Q j x)
    → Q j x
put_current t i j w w' x is x_is Q new old = elim (Bool-cases (i == j)) [
  | inl same ↦
      let e = some_injective (sym (if_yes _ _ same) ∙ sym (find-put t i j w' is) ∙ x_is) in
      subst (λ k. Q k x) ((nat_beq_iff i j).0 same) (subst (Q i) e new)
  | inr other ↦ old (sym (if_no _ _ other) ∙ sym (find-put t i j w' is) ∙ x_is)
]

pub add_current :
    (t : Table WorkflowRow) (j : ℕ) (w x : WorkflowRow)
    → IsKeyed t
    → find (add t w) j ≡ some x
    → (Q : ℕ → WorkflowRow → Type 0) → Q t.next_id w
    → (find t j ≡ some x → Q j x)
    → Q j x
add_current t j w x keyed x_is Q new old = elim (Bool-cases (t.next_id == j)) [
  | inl same ↦
      let e = some_injective (sym (if_yes _ _ same) ∙ sym (find-add t w j keyed) ∙ x_is) in
      subst (λ k. Q k x) ((nat_beq_iff t.next_id j).0 same) (subst (Q t.next_id) e new)
  | inr other ↦ old (sym (if_no _ _ other) ∙ sym (find-add t w j keyed) ∙ x_is)
]

pub find_row-drop :
    (i j : ℕ) (rows : List (ℕ × WorkflowRow))
    → find_row j (drop_workflow i rows) ≡ (if i == j then none else find_row j rows)
unfolding find_row drop_workflow
find_row-drop i j [] = ground arith
find_row-drop i j ((k, w) ∷ rows) = ground (arith, find_row-drop i j rows)

pub drop_workflow-IsKeyed :
    (n i : ℕ) (rows : List (ℕ × WorkflowRow))
    → All (λ (r : ℕ × WorkflowRow). r.0 < n) rows
    → All (λ (r : ℕ × WorkflowRow). r.0 < n) (drop_workflow i rows)
unfolding drop_workflow
drop_workflow-IsKeyed n i [] h = tt
drop_workflow-IsKeyed n i ((k, w) ∷ rows) h = elim (Bool-cases (k == i)) [
  | inl e ↦ rw e (drop_workflow-IsKeyed n i rows h.1)
  | inr e ↦ rw e (h.0, drop_workflow-IsKeyed n i rows h.1)
]

pub definition_at-none :
    (b : Bool) (o : Option VersionRow)
    → definition_at (if b then none else o) ≡ (if b then none else definition_at o)
definition_at-none true o = refl
definition_at-none false o = refl

-- what is found after a removal was found before, of another workflow
pub if_found :
    {A : Type 0} (b : Bool) (o : Option A) {a : A}
    → (if b then none else o) ≡ some a
    → (b ≡ false) × (o ≡ some a)
if_found true o h = cc
if_found false o h = (refl, h)

pub validated : (d : Fields) {e : Json} → validate_definition (obj d) ≡ ok e → IsValidated d
validated d h = let (xs, e, is, valid) = validate_definition-IsValid d h in ap (λ x. x) h ∙ ap ok e

pub gone :
    (s : WorkflowDb) (i j u : ℕ)
    → history (without_workflow i s) j u ≡ (if i == j then none else history s j u)
unfolding without_workflow
gone s i j u =
    ap definition_at (version_row-drop i j u s.versions.rows)
    ∙ definition_at-none (i == j) (version_row j u s.versions.rows)

-- one version more
abbrev pub Extends : History → History → ℕ → ℕ → Fields → Type 0
Extends h h' i v d = (j u : ℕ) → h' j u ≡ (if i == j && v == u then some d else h j u)

pub definition_at-if :
    (b : Bool) (r : VersionRow) (o : Option VersionRow)
    → definition_at (if b then some r else o) ≡ (if b then some r.definition else definition_at o)
definition_at-if true r o = refl
definition_at-if false r o = refl

pub append-Extends :
    (s s' : WorkflowDb) (k : ℕ) (r : VersionRow)
    → s'.versions.rows ≡ s.versions.rows ++ (k, r) ∷ []
    → version_row r.workflow_id r.version s.versions.rows ≡ none
    → Extends (history s) (history s') r.workflow_id r.version r.definition
append-Extends s s' k r rows fresh j u =
    ap (λ x. definition_at (version_row j u x)) rows
    ∙ ap definition_at (version_row-append s.versions.rows k r j u fresh)
    ∙ definition_at-if (r.workflow_id == j && r.version == u) r (version_row j u s.versions.rows)

module _ (h h' : History) (i v : ℕ) (d : Fields) (ext : Extends h h' i v d) where
  pub Extends-valid :
      IsValidated d
      → ((j u : ℕ) (e : Fields) → h j u ≡ some e → IsValidated e)
      → (j u : ℕ) (e : Fields) → h' j u ≡ some e
      → IsValidated e
  Extends-valid ok_d old j u e is = elim (Bool-cases (i == j && v == u)) [
    | inl same ↦
        subst IsValidated (some_injective (sym (if_yes _ _ same) ∙ sym (ext j u) ∙ is)) ok_d
    | inr other ↦ old j u e (sym (if_no _ _ other) ∙ sym (ext j u) ∙ is)
  ]

  pub Extends-there : (j u : ℕ) (e : Fields) → h j u ≡ some e → (e' : Fields) × (h' j u ≡ some e')
  Extends-there j u e is = elim (Bool-cases (i == j && v == u)) [
    | inl same ↦ (d, ext j u ∙ if_yes _ _ same)
    | inr other ↦ (e, ext j u ∙ if_no _ _ other ∙ is)
  ]

  pub Extends-new : h' i v ≡ some d
  Extends-new =
      let e₁ = (nat_beq_iff i i).1 refl in
      let e₂ = (nat_beq_iff v v).1 refl in ext i v ∙ if_yes _ _ (both_true e₁ e₂)

  -- the versions there were stay as they are
  pub Extends-kept : h i v ≡ none → (j u : ℕ) (e : Fields) → h j u ≡ some e → h' j u ≡ some e
  Extends-kept fresh j u e is = elim (Bool-cases (i == j && v == u)) [
    | inl same ↦
        let e₁ = (nat_beq_iff i j).0 (both_left (i == j) (v == u) same) in
        let e₂ = (nat_beq_iff v u).0 (both_right (i == j) (v == u) same) in
        let there = subst (λ k. h k u ≡ some e) (sym e₁) is in
        let found = subst (λ k. h i k ≡ some e) (sym e₂) there in cc
    | inr other ↦ ext j u ∙ if_no _ _ other ∙ is
  ]
