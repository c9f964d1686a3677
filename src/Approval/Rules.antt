-- ===== src/Approval/Rules.antt =====
-- The approval rules: create_rule, update_rule and delete_rule of
-- backend/app/services/approval_service.py over approval_rule (backend/app/db/models/schedule.py).
-- The caller's permission is tested by the route.
use lark_plat.Prelude.{
  ℕ, ◌≡◌, sym, ap, ◌∙◌, arith, String, Option, none, some, List, [], ◌∷◌, elem, ◌==◌, nat_eq,
  if◌then◌else◌,
}
use mathlib.Core.Path.{subst}
use lark_plat.Json.{Json}
use lark_plat.Errors.{bad_request, not_found, Result, ok, err}
use lark_plat.Session.{Db, pure, gets, fetch, modify, commit, require, request, ◌>>=◌, ◌>>◌}
use lark_plat.Table.{Table, find_row, find, put, add}

pub record ApprovalRule : Type 0 where
  pub name : String
  pub kind : String
  pub value : Json
  pub trigger_action : String
  pub enabled : ℕ

pub record RuleUpdate : Type 0 where
  pub name : Option String
  pub value : Option Json
  pub enabled : Option ℕ

abbrev pub rule_kinds : List String
rule_kinds = "keyword" ∷ "count" ∷ []

abbrev pub changed {ℓ} : {A : Type ℓ} → Option A → A → A
changed none a = a
changed (some b) a = b

unfoldable pub edited_rule : RuleUpdate → ApprovalRule → ApprovalRule
edited_rule u r = record r {
  name = changed u.name r.name;
  value = changed u.value r.value;
  enabled = changed u.enabled r.enabled;
}

unfoldable pub drop_row : ℕ → List (ℕ × ApprovalRule) → List (ℕ × ApprovalRule)
drop_row i [] = []
drop_row i ((k, r) ∷ rows) = let rest = drop_row i rows in if k == i then rest else (k, r) ∷ rest

abbrev pub Rules : Type 0
Rules = Table ApprovalRule

unfoldable pub create_rule : ApprovalRule → Db Rules ℕ
create_rule r = do
  require (elem r.kind rule_kinds) bad_request
  i ← gets (λ (t : Rules). t.next_id)
  modify (λ (t : Rules). add t r)
  commit
  pure i

unfoldable pub update_rule : ℕ → RuleUpdate → Db Rules Unit
update_rule i u = do
  r ← fetch not_found (λ (t : Rules). find t i)
  modify (λ (t : Rules). put t i (edited_rule u r))
  commit

unfoldable pub delete_rule : ℕ → Db Rules Unit
delete_rule i = do
  r ← fetch not_found (λ (t : Rules). find t i)
  modify (λ (t : Rules). record t { rows = drop_row i t.rows })
  commit

find_row-drop_row :
    (i j : ℕ) (rows : List (ℕ × ApprovalRule))
    → find_row j (drop_row i rows) ≡ (if i == j then none else find_row j rows)
unfolding find_row drop_row
find_row-drop_row i j [] = ground arith
find_row-drop_row i j ((k, r) ∷ rows) = ground (arith, find_row-drop_row i j rows)

abbrev dropped : ℕ → Rules → Rules
dropped i t = record t { rows = drop_row i t.rows }

delete_rule-found :
    (i : ℕ) (t : Rules) (r : ApprovalRule)
    → find t i ≡ some r
    → request (delete_rule i) t ≡ (ok tt, dropped i t)
unfolding delete_rule ◌>>=◌
delete_rule-found i t r is = ground (arith, is)

delete_rule-missing :
    (i : ℕ) (t : Rules) → find t i ≡ none → request (delete_rule i) t ≡ (err not_found, t)
unfolding delete_rule ◌>>=◌
delete_rule-missing i t is = ground (arith, is)

find-dropped : (i j : ℕ) (t : Rules) → find (dropped i t) j ≡ (if i == j then none else find t j)
unfolding find
find-dropped i j t = find_row-drop_row i j t.rows

-- Deleting a rule that is there leaves a table without it in which every other rule is as it was;
-- deleting it again is refused as not found.
pub delete_rule-find :
    (i : ℕ) (t : Rules) (r : ApprovalRule)
    → find t i ≡ some r
    → ((j : ℕ) → find (request (delete_rule i) t).1 j ≡ (if i == j then none else find t j))
      × (request (delete_rule i) (request (delete_rule i) t).1
          ≡ (err not_found, (request (delete_rule i) t).1))
delete_rule-find i t r is =
    subst
      (λ (t' : Rules).
        ((j : ℕ) → find t' j ≡ (if i == j then none else find t j))
        × (request (delete_rule i) t' ≡ (err not_found, t')))
      (sym (ap (λ (p : Result Unit × Rules). p.1) (delete_rule-found i t r is)))
      (
        (λ j. find-dropped i j t),
        delete_rule-missing i (dropped i t) (find-dropped i i t ∙ ground arith),
      )
