-- ===== src/Workflow/Service/Once.antt =====
-- A callback of backend/app/services/workflow_service.py counts once.
use lark_plat.Prelude.{
  ℕ, ◌+◌, ◌≡◌, refl, sym, ap, ◌∙◌, arith, String, Bool, true, false, ◌&&◌, Option, none, some, List,
  [], ◌∷◌, ◌==◌, nat_eq, string_eq, if_yes, if_no, some_injective, if◌then◌else◌, Bool-cases, inl,
  inr,
}
use mathlib.Core.Path.{subst}
use lark_plat.Json.{Json, Fields, put as set_field}
use lark_plat.Errors.{AppError, Result, ok, err, conflict, not_found}
use lark_plat.Session.{request}
use lark_plat.Session.After.{Leaves, after-require, after-fetch, after-written_save}
use lark_plat.Features.After.{after-require_feature}
use lark_plat.Workflow.Model.{NodeStatus, NodeRun, NodeRow}
use lark_plat.Workflow.Service.Model.{WorkflowDb}
use lark_plat.Workflow.Service.Callback.{
  TokenPort, find_node, awaits_callback, completed, complete_rows, complete, callback_node,
  matches_node,
}
use lark_plat.Exec.Held.{ok-injective}

raised_answers : {B : Type 0} (e : AppError) → ◌≡◌ {A = Result (Unit {0})} (err e) (ok tt) → B
raised_answers e h = cc

-- the node, completed
abbrev pub completed_node : ℕ → Fields → NodeRun → NodeRun
completed_node now out n = record n {
  output = out;
  status = NodeStatus.succeeded;
  finished_at = some now;
  error = none;
}

completed-awaits :
    (now : ℕ) (out : Fields) (n : NodeRun) → awaits_callback (completed_node now out n) ≡ false
completed-awaits now out n = ground arith

module _ (now run : ℕ) (key : String) (out : Fields) where
  abbrev rows_of : ℕ × List (ℕ × NodeRow) → List (ℕ × NodeRow)
  rows_of x = x.1

  matched_or_not : ℕ → NodeRow → ℕ × NodeRow
  matched_or_not k r = (k, if matches_node run key r then completed now out r else r)

  complete_rows-cons :
      (k : ℕ) (r : NodeRow) (rows : List (ℕ × NodeRow))
      → (complete_rows now run key out ((k, r) ∷ rows)).1
        ≡ matched_or_not k r ∷ (complete_rows now run key out rows).1
  unfolding complete_rows matched_or_not
  complete_rows-cons k r rows = by_match (matches_node run key r)
    where
      by_match :
          (b : Bool)
          → rows_of (
              if b
              then (
                (complete_rows now run key out rows).0 + 1,
                (k, completed now out r) ∷ (complete_rows now run key out rows).1,
              )
              else (
                (complete_rows now run key out rows).0,
                (k, r) ∷ (complete_rows now run key out rows).1,
              ))
            ≡ (k, if b then completed now out r else r) ∷ (complete_rows now run key out rows).1
      by_match true = refl
      by_match false = refl

  find_node-matched :
      (k : ℕ) (r : NodeRow) (rest : List (ℕ × NodeRow))
      → (r.run == run && r.node.node_key == key) ≡ true
      → awaits_callback r.node ≡ true
      → find_node run key (matched_or_not k r ∷ rest) ≡ some (completed_node now out r.node)
  unfolding find_node matched_or_not
  find_node-matched k r rest here waits = ground (arith, here, waits)

  find_node-passed :
      (k : ℕ) (r : NodeRow) (rest : List (ℕ × NodeRow))
      → (r.run == run && r.node.node_key == key) ≡ false
      → find_node run key (matched_or_not k r ∷ rest) ≡ find_node run key rest
  unfolding find_node matched_or_not
  find_node-passed k r rest there = ground (arith, there)

  find_node-complete_rows :
      (rows : List (ℕ × NodeRow)) {n : NodeRun}
      → find_node run key rows ≡ some n
      → awaits_callback n ≡ true
      → find_node run key (complete_rows now run key out rows).1 ≡ some (completed_node now out n)
  unfolding find_node
  find_node-complete_rows [] is waits = cc
  find_node-complete_rows ((k, r) ∷ rows) {n} is waits =
      let step = ap (find_node run key) (complete_rows-cons k r rows) in
      elim (Bool-cases (r.run == run && r.node.node_key == key)) [
        | inl here ↦
            let same = some_injective (sym (if_yes _ _ here) ∙ is) in
            step
            ∙ find_node-matched k r _ here (ap awaits_callback same ∙ waits)
            ∙ ap (λ m. some (completed_node now out m)) same
        | inr there ↦
            step
            ∙ find_node-passed k r _ there
            ∙ find_node-complete_rows rows {n = n} (sym (if_no _ _ there) ∙ is) waits
      ]

-- what a callback that is answered has done
Answered : ℕ → ℕ → String → Json → WorkflowDb → WorkflowDb → Type 0
Answered now run key payload s s' =
    (n : NodeRun) × (find_node run key s.nodes.rows ≡ some n)
    × (awaits_callback n ≡ true)
    × (find_node run key s'.nodes.rows
        ≡ some (completed_node now (set_field n.output "payload" payload) n))

abbrev AnsweredBy : ℕ → ℕ → String → Json → WorkflowDb → Result (Unit {0}) × WorkflowDb → Type 0
AnsweredBy now run key payload s out = out.0 ≡ ok tt → Answered now run key payload s out.1

complete-nodes :
    (now run : ℕ) (key : String) (out : Fields) (s : WorkflowDb) {s' : WorkflowDb}
    → complete now run key out s ≡ ok s'
    → s'.nodes.rows ≡ (complete_rows now run key out s.nodes.rows).1
unfolding complete
complete-nodes now run key out s h =
    let (n, rows) = complete_rows now run key out s.nodes.rows in counted n rows (n == 1) h
  where
    counted :
        (n : ℕ) (rows : List (ℕ × NodeRow)) (b : Bool) {s' : WorkflowDb}
        → (if b then ok (record s { nodes = record s.nodes { rows = rows } }) else err conflict)
          ≡ ok s'
        → s'.nodes.rows ≡ rows
    counted n rows true h = ap (λ (x : WorkflowDb). x.nodes.rows) (sym (ok-injective h))
    counted n rows false h = cc

callback_node-Answered :
    (p : TokenPort) (now run : ℕ) (key : String) (token : Option String) (payload : Json)
    (s : WorkflowDb)
    → Leaves (AnsweredBy now run key payload s) (callback_node p now run key token payload) s
unfolding callback_node Answered
callback_node-Answered p now run key token payload s =
    let refused = λ (e : AppError). raised_answers e in
    after-require_feature (AnsweredBy now run key payload s) s (λ (s : WorkflowDb). s.feature) _
      refused
      λ on.
        after-fetch (AnsweredBy now run key payload s) s not_found _ _ (refused not_found) λ x x_is.
          after-require (AnsweredBy now run key payload s) s _ _ _ refused λ valid_token.
            after-fetch (AnsweredBy now run key payload s) s not_found _ _ (refused not_found)
              λ n n_is. after-require (AnsweredBy now run key payload s) s _ _ _ refused λ waits.
                after-require (AnsweredBy now run key payload s) s _ _ _ refused λ small.
                  after-written_save (AnsweredBy now run key payload s) s _ refused
                    λ s' done answered. (
                      n,
                      n_is,
                      waits,
                      ap (find_node run key) (complete-nodes now run key _ s done)
                          ∙ find_node-complete_rows now run key _ s.nodes.rows n_is waits,
                    )

-- an answer that raises, and leaves the database as it was
abbrev pub Refused : WorkflowDb → Result (Unit {0}) × WorkflowDb → Type 0
Refused s out = (e : AppError) × (out ≡ (err e, s))

refuses : (s : WorkflowDb) (e : AppError) → Refused s (err e, s)
refuses s e = (e, refl)

-- a node that does not wait
callback_node-Refused :
    (p : TokenPort) (now run : ℕ) (key : String) (token : Option String) (payload : Json)
    (s : WorkflowDb) (n : NodeRun)
    → find_node run key s.nodes.rows ≡ some n
    → awaits_callback n ≡ false
    → Leaves (Refused s) (callback_node p now run key token payload) s
unfolding callback_node
callback_node-Refused p now run key token payload s n is idle =
    let refused = refuses s in
    after-require_feature (Refused s) s (λ (s : WorkflowDb). s.feature) _ refused
      λ on. after-fetch (Refused s) s not_found _ _ (refused not_found) λ x x_is.
        after-require (Refused s) s _ _ _ refused λ valid_token.
          after-fetch (Refused s) s not_found _ _ (refused not_found) λ m m_is.
            after-require (Refused s) s _ _ _ refused λ waits.
              let same = some_injective (sym is ∙ m_is) in
              let clash = sym idle ∙ ap awaits_callback same ∙ waits in cc

-- A callback that is answered has found its node waiting and has completed it, with the payload in
-- its output; from then on every callback to the same node, with whatever token and payload, is
-- refused and changes nothing.
pub callback_node-once :
    (p : TokenPort) (now run : ℕ) (key : String) (token : Option String) (payload : Json)
    (s s' : WorkflowDb)
    → request (callback_node p now run key token payload) s ≡ (ok tt, s')
    → (n : NodeRun) × (find_node run key s.nodes.rows ≡ some n)
      × (awaits_callback n ≡ true)
      × (find_node run key s'.nodes.rows
          ≡ some (completed_node now (set_field n.output "payload" payload) n))
      × ((p' : TokenPort) (now' : ℕ) (token' : Option String) (payload' : Json)
          → Refused s' (request (callback_node p' now' run key token' payload') s'))
unfolding Answered Leaves
callback_node-once p now run key token payload s s' h =
    let (n, is, waits, done) =
      subst (AnsweredBy now run key payload s) h
        (callback_node-Answered p now run key token payload s) refl in
    (
      n,
      is,
      waits,
      done,
      λ p' now' token' payload'.
          callback_node-Refused p' now' run key token' payload' s' _ done
            (completed-awaits now (set_field n.output "payload" payload) n),
    )
