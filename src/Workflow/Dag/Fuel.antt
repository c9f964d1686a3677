-- ===== src/Workflow/Dag/Fuel.antt =====
-- The search does not run out of fuel: each nested visit turns a white key gray.
use lark_plat.Prelude.{
  ℕ, zero, suc, ◌+◌, ◌≤◌, ◌<◌, String, ◌≡◌, ◌≢◌, refl, ap, true, List, [], ◌∷◌, elem, length, arith,
  ◌==◌, ◌⊎◌, eq_iff, string_eq, inl, inr, Bool-cases, if◌then◌else◌,
}
use lark_plat.Workflow.Dag.{
  Color, white, gray, black, Colors, paint, Edge, targets, Search, done, cycle, no_fuel, ◌>>=◌,
  visit_next, visit_all, visit, visit_keys, is_white,
}
use lark_plat.Workflow.Dag.Reach.{HasEdge}
use lark_plat.Workflow.Dag.Finished.{
  IsFinished, Visits, visit_finishes, visit_next-Finishes, paint-IsFinished_gray,
  visit_key-Finishes,
}

abbrev white_one : Color → ℕ
white_one white = 1
white_one _ = 0

abbrev whites : List String → Colors → ℕ
whites [] c = 0
whites (k ∷ ks) c = white_one (c k) + whites ks c

white_one-le : (x y : Color) → (x ≡ white → y ≡ white) → white_one x ≤ white_one y
white_one-le white y h = omega (arith, ap white_one (h refl))
white_one-le _ y h = omega arith

whites-le :
    (ks : List String) (c d : Colors)
    → ((n : String) → d n ≡ white → c n ≡ white)
    → whites ks d ≤ whites ks c
whites-le [] c d h = omega arith
whites-le (k ∷ ks) c d h = omega (arith, whites-le ks c d h, white_one-le (d k) (c k) (h k))

whites-le_length : (ks : List String) (c : Colors) → whites ks c ≤ length ks
whites-le_length [] c = omega arith
whites-le_length (k ∷ ks) c =
    omega (arith, whites-le_length ks c, white_one-le (c k) white (λ _. refl))

paint-white : (c : Colors) (n m : String) → paint c n gray m ≡ white → c m ≡ white
unfolding paint
paint-white c n m h = ground arith

white_one-paint : (c : Colors) (n : String) → white_one (paint c n gray n) ≡ 0
unfolding paint
white_one-paint c n = ground (arith, eq_iff n n)

whites-paint :
    (ks : List String) (c : Colors) (n : String)
    → elem n ks ≡ true
    → c n ≡ white
    → whites ks (paint c n gray) < whites ks c
whites-paint [] c n p w = cc
whites-paint (k ∷ ks) c n p w = elim (Bool-cases (k == n)) [
  | inl same ↦
      let e : k ≡ n = (eq_iff k n).0 same in
      rw e (
        omega (
          arith,
          white_one-paint c n,
          ap white_one w,
          whites-le ks c (paint c n gray) (paint-white c n),
        ))
  | inr other ↦ omega (
    arith,
    whites-paint ks c n (ground arith) w,
    white_one-le (paint c n gray k) (c k) (paint-white c n k),
  )
]

bind-no_fuel :
    (r : Search) (f : Colors → Search)
    → (r >>= f) ≡ no_fuel
    → (r ≡ no_fuel) ⊎ ((d : Colors) × (r ≡ done d) × (f d ≡ no_fuel))
bind-no_fuel (done d) f h = inr (d, refl, h)
bind-no_fuel cycle f h = cc
bind-no_fuel no_fuel f h = inl refl

-- every edge ends in a key
abbrev pub EndsIn : List String → List Edge → Type 0
EndsIn keys es = (n m : String) → HasEdge es n m → elem m keys ≡ true

-- `go` ends when at most `fuel` keys are white
abbrev Ends : List Edge → List String → ℕ → (String → Colors → Search) → Type 0
Ends es keys fuel go =
    (n : String) (c : Colors)
    → c n ≡ white
    → elem n keys ≡ true
    → IsFinished es c
    → whites keys c ≤ fuel
    → go n c ≢ no_fuel

module _ {es : List Edge} (keys : List String) (fuel : ℕ) (go : String → Colors → Search)
    (visits : Visits es go) (ends : Ends es keys fuel go) where
  visit_next_ends :
      (m : String) (k : Color) (c : Colors)
      → c m ≡ k
      → elem m keys ≡ true
      → IsFinished es c
      → whites keys c ≤ fuel
      → visit_next go m k c ≢ no_fuel
  unfolding visit_next
  visit_next_ends m gray c e i f w h = cc
  visit_next_ends m white c e i f w h = ends m c e i f w h
  visit_next_ends m black c e i f w h = cc

  visit_all_ends :
      (ms : List String) (c : Colors)
      → ((m : String) → elem m ms ≡ true → elem m keys ≡ true)
      → IsFinished es c
      → whites keys c ≤ fuel
      → visit_all go ms c ≢ no_fuel
  unfolding visit_all
  visit_all_ends [] c i f w h = cc
  visit_all_ends (m ∷ ms) c i f w h =
      elim (bind-no_fuel (visit_next go m (c m) c) (visit_all go ms) h) [
        | inl now ↦ visit_next_ends m (c m) c refl (i m (ground (arith, eq_iff m m))) f w now
        | inr later ↦
            let (d, e, r) = later in
            let (first, _) = visit_next-Finishes go visits m (c m) c d refl f e in
            visit_all_ends ms d (λ n p. i n (ground arith)) first.finished
              (omega (arith, whites-le keys c d (λ n. first.stays n white (λ b. cc)))) r
      ]

visit-Ends :
    (es : List Edge) (keys : List String)
    → EndsIn keys es
    → (fuel : ℕ) → Ends es keys fuel (visit fuel es)
unfolding visit
visit-Ends es keys closed zero n c w i f l h = omega (arith, whites-paint keys c n i w)
visit-Ends es keys closed (suc fuel) n c w i f l h =
    elim (bind-no_fuel (visit_all (visit fuel es) (targets es n) (paint c n gray))
      (λ c'. done (paint c' n black)) h) [
        | inl inner ↦
            visit_all_ends keys fuel (visit fuel es) (visit_finishes es fuel)
              (visit-Ends es keys closed fuel) (targets es n) (paint c n gray) (closed n)
              (paint-IsFinished_gray es c n f) (omega (arith, whites-paint keys c n i w)) inner
        | inr later ↦ cc (later.2)
      ]

visit_key_ends :
    (es : List Edge) (keys : List String)
    → EndsIn keys es
    → (fuel : ℕ) (k : String) (c : Colors) (x : Color) → c k ≡ x
    → elem k keys ≡ true
    → IsFinished es c
    → whites keys c ≤ fuel
    → (if is_white x then visit fuel es k c else done c) ≢ no_fuel
visit_key_ends es keys closed fuel k c white e i f w h =
    visit-Ends es keys closed fuel k c e i f w h
visit_key_ends es keys closed fuel k c gray e i f w h = cc
visit_key_ends es keys closed fuel k c black e i f w h = cc

-- The loop over some of the keys ends, with fuel for as many visits as there are keys.
pub visit_keys_ends :
    (es : List Edge) (keys : List String)
    → EndsIn keys es
    → (fuel : ℕ) → length keys ≤ fuel
    → (ks : List String) (c : Colors) → ((n : String) → c n ≢ gray)
    → ((k : String) → elem k ks ≡ true → elem k keys ≡ true)
    → IsFinished es c
    → visit_keys (visit fuel es) ks c ≢ no_fuel
unfolding visit_keys
visit_keys_ends es keys closed fuel l [] c n i f h = cc
visit_keys_ends es keys closed fuel l (k ∷ ks) c n i f h =
    elim (bind-no_fuel (if is_white (c k) then visit fuel es k c else done c)
      (visit_keys (visit fuel es) ks) h) [
        | inl now ↦
            visit_key_ends es keys closed fuel k c (c k) refl (i k (ground (arith, eq_iff k k))) f
              (omega (arith, whites-le_length keys c)) now
        | inr later ↦
            let (d, e, r) = later in
            let (first, _) =
              visit_key-Finishes (visit fuel es) (visit_finishes es fuel) k c d (n k) f e in
            visit_keys_ends es keys closed fuel l ks d (λ m g. n m (first.stays m gray (λ b. cc) g))
              (λ m p. i m (ground arith)) first.finished r
      ]
