-- ===== src/Table/Keyed.antt =====
-- The keys of a table stay below the next one, and a row stays where it is when another is added.
use lark_plat.Prelude.{
  ℕ, ◌+◌, ◌<◌, ◌≡◌, arith, List, [], ◌∷◌, ◌++◌, none, some, All, Bool-cases, Option-cases, inl, inr,
  ◌==◌, nat_eq, nat_beq_iff, refl,
}
use lark_plat.Table.{Table, find_row, put_row, find, put, add, IsKeyed, find-add, find-put}

module _ {ℓ} {A : Type ℓ} where
  find_row-below :
      (n i : ℕ) (rows : List (ℕ × A)) {a : A}
      → All (λ (r : ℕ × A). r.0 < n) rows
      → find_row i rows ≡ some a
      → i < n
  unfolding find_row
  find_row-below n i [] h is = cc
  find_row-below n i ((j, b) ∷ rows) {a} h is =
      ground (arith, h.0, is, find_row-below n i rows {a = a} h.1)

  All-append :
      (m n : ℕ) (a : A) (rows : List (ℕ × A))
      → m < n
      → All (λ (r : ℕ × A). r.0 < m) rows
      → All (λ (r : ℕ × A). r.0 < n) (rows ++ (m, a) ∷ [])
  All-append m n a [] below h = (below, tt)
  All-append m n a ((j, b) ∷ rows) below h = (omega arith, All-append m n a rows below h.1)

  put_row-below :
      (n i : ℕ) (a : A) (rows : List (ℕ × A))
      → All (λ (r : ℕ × A). r.0 < n) rows
      → All (λ (r : ℕ × A). r.0 < n) (put_row i a rows)
  unfolding put_row
  put_row-below n i a [] h = tt
  put_row-below n i a ((j, b) ∷ rows) h = elim (Bool-cases (j == i)) [
    | inl e ↦ rw e (h.0, put_row-below n i a rows h.1)
    | inr e ↦ rw e (h.0, put_row-below n i a rows h.1)
  ]

  pub find-add-kept :
      (t : Table A) (a : A) (j : ℕ) {b : A}
      → IsKeyed t
      → find t j ≡ some b
      → find (add t a) j ≡ some b
  unfolding find
  find-add-kept t a j {b} keyed is =
      let below = find_row-below t.next_id j t.rows keyed is in
      ground (arith, below, is, find-add t a j keyed)

  pub add-IsKeyed : (t : Table A) (a : A) → IsKeyed t → IsKeyed (add t a)
  unfolding add
  add-IsKeyed t a keyed = All-append t.next_id (t.next_id + 1) a t.rows (omega arith) keyed

  pub put-IsKeyed : (t : Table A) (i : ℕ) (a : A) → IsKeyed t → IsKeyed (put t i a)
  unfolding put
  put-IsKeyed t i a keyed = put_row-below t.next_id i a t.rows keyed

  -- the next key is free
  pub find-next_id : (t : Table A) → IsKeyed t → find t t.next_id ≡ none
  unfolding find
  find-next_id t keyed = elim (Option-cases (find_row t.next_id t.rows)) [
    | inl e ↦ e
    | inr (a, e) ↦ ground (arith, find_row-below t.next_id t.next_id t.rows keyed e)
  ]

  -- a row that is there, read after its change
  pub find-put_same :
      (t : Table A) (i : ℕ) (a : A) {b : A} → find t i ≡ some b → find (put t i a) i ≡ some a
  find-put_same t i a is = ground (arith, find-put t i i a is, (nat_beq_iff i i).1 refl)

  pub find-below : (t : Table A) (i : ℕ) {a : A} → IsKeyed t → find t i ≡ some a → i < t.next_id
  unfolding find
  find-below t i {a} keyed is = find_row-below t.next_id i t.rows {a = a} keyed is
