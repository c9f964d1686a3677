-- ===== src/Table.antt =====
-- A table with an autoincrement key, as the services use it: `db.get`, `db.add`, a changed row and
-- `db.delete`. Rows come in the order of their insertion.
pub mod Keyed
use lark_plat.Prelude.{
  ℕ, ◌+◌, ◌<◌, ◌≡◌, refl, Bool, true, false, List, [], ◌∷◌, ◌++◌, arith, Option, none, some, All,
  ◌==◌, nat_eq, if◌then◌else◌,
}

pub record Table {ℓ} (A : Type ℓ) : Type ℓ where
  pub rows : List (ℕ × A)
  pub next_id : ℕ

module _ {ℓ} {A : Type ℓ} where
  unfoldable pub find_row : ℕ → List (ℕ × A) → Option A
  find_row i [] = none
  find_row i ((j, a) ∷ rows) = if j == i then some a else find_row i rows

  unfoldable pub put_row : ℕ → A → List (ℕ × A) → List (ℕ × A)
  put_row i a [] = []
  put_row i a ((j, b) ∷ rows) =
      let rest = put_row i a rows in if j == i then (j, a) ∷ rest else (j, b) ∷ rest

  -- db.get(Model, i)
  unfoldable pub find : Table A → ℕ → Option A
  unfolding find_row
  find t i = find_row i t.rows

  -- the row i has become a
  unfoldable pub put : Table A → ℕ → A → Table A
  unfolding put_row
  put t i a = record t { rows = put_row i a t.rows }

  -- db.add(row): the new row has the key `next_id`
  unfoldable pub add : Table A → A → Table A
  add t a = record { rows = t.rows ++ (t.next_id, a) ∷ []; next_id = t.next_id + 1 }

  -- all keys that were given are below the next one
  abbrev pub IsKeyed : Table A → Type 0
  IsKeyed t = All (λ (r : ℕ × A). r.0 < t.next_id) t.rows

  find_row-put_row_ne :
      (i j : ℕ) (a : A) (rows : List (ℕ × A))
      → (i == j) ≡ false
      → find_row j (put_row i a rows) ≡ find_row j rows
  unfolding find_row put_row
  find_row-put_row_ne i j a [] h = refl
  find_row-put_row_ne i j a ((k, c) ∷ rows) h = ground (arith, h, find_row-put_row_ne i j a rows)

  find_row-put_row :
      (i j : ℕ) (a : A) (rows : List (ℕ × A)) {b : A}
      → find_row i rows ≡ some b
      → find_row j (put_row i a rows) ≡ (if i == j then some a else find_row j rows)
  unfolding find_row put_row
  find_row-put_row i j a [] h = ground arith
  find_row-put_row i j a ((k, c) ∷ rows) {b} h =
      ground (arith, h, find_row-put_row i j a rows {b = b}, find_row-put_row_ne i j a rows)

  find_row-append :
      (i : ℕ) (a : A) (j : ℕ) (rows : List (ℕ × A))
      → All (λ (r : ℕ × A). r.0 < i) rows
      → find_row j (rows ++ (i, a) ∷ []) ≡ (if i == j then some a else find_row j rows)
  unfolding find_row
  find_row-append i a j [] h = ground arith
  find_row-append i a j ((k, c) ∷ rows) h = ground (arith, find_row-append i a j rows, h.0)

  -- a row that is there, after its change
  pub find-put :
      (t : Table A) (i j : ℕ) (a : A) {b : A}
      → find t i ≡ some b
      → find (put t i a) j ≡ (if i == j then some a else find t j)
  unfolding find put
  find-put t i j a h = find_row-put_row i j a t.rows h

  -- a new row
  pub find-add :
      (t : Table A) (a : A) (j : ℕ)
      → IsKeyed t
      → find (add t a) j ≡ (if t.next_id == j then some a else find t j)
  unfolding find add
  find-add t a j keyed = find_row-append t.next_id a j t.rows keyed
