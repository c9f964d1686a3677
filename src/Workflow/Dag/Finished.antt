-- ===== src/Workflow/Dag/Finished.antt =====
-- What the search has finished, the black nodes, leads to no cycle.
use mathlib.Core.Path.{subst}
use lark_plat.Prelude.{
  ℕ, zero, suc, String, ◌≡◌, ◌≢◌, refl, sym, true, List, [], ◌∷◌, elem, arith, ◌==◌, eq_iff,
  string_eq, inl, inr, Bool-cases, if◌then◌else◌,
}
use lark_plat.Workflow.Dag.{
  Color, white, gray, black, Colors, paint, Edge, targets, Search, done, cycle, no_fuel, ◌>>=◌,
  visit_next, visit_all, visit, visit_keys, is_white,
}
use lark_plat.Workflow.Dag.Reach.{IsGrounded, grounded}

pub done-bind :
    (r : Search) (f : Colors → Search) {c' : Colors}
    → (r >>= f) ≡ done c'
    → (c : Colors) × (r ≡ done c) × (f c ≡ done c')
done-bind (done c) f h = (c, refl, h)
done-bind cycle f h = cc
done-bind no_fuel f h = cc

abbrev pub IsFinished : List Edge → Colors → Type 0
IsFinished es c = (n : String) → c n ≡ black → IsGrounded es n

-- one run of a part of the search, from `c` to `c'`
pub record Finishes (es : List Edge) (c c' : Colors) : Type 0 where
  pub finished : (n : String) → c' n ≡ black → IsGrounded es n
  pub keeps : (n : String) → c n ≡ black → c' n ≡ black
  pub stays : (n : String) (k : Color) → k ≢ black → c' n ≡ k → c n ≡ k

abbrev pub Visits : List Edge → (String → Colors → Search) → Type 0
Visits es go =
    (n : String) (c c' : Colors)
    → c n ≡ white
    → IsFinished es c
    → go n c ≡ done c'
    → Finishes es c c' × (c' n ≡ black)

Finishes-trans :
    {es : List Edge} {c d e : Colors} → Finishes es c d → Finishes es d e → Finishes es c e
Finishes-trans f g = record {
  finished = g.finished;
  keeps = λ n h. g.keeps n (f.keeps n h);
  stays = λ n k b h. f.stays n k b (g.stays n k b h);
}

pub Finishes-eq :
    {es : List Edge} {c c' : Colors} → done c ≡ done c' → IsFinished es c → Finishes es c c'
Finishes-eq {es} {c} p f =
    subst (Finishes es c) (cc) (record { finished = f; keeps = λ n h. h; stays = λ n k b h. h })

module _ {es : List Edge} (go : String → Colors → Search) (visits : Visits es go) where
  pub visit_next-Finishes :
      (m : String) (k : Color) (c c' : Colors)
      → c m ≡ k
      → IsFinished es c
      → visit_next go m k c ≡ done c'
      → Finishes es c c' × (c' m ≡ black)
  unfolding visit_next
  visit_next-Finishes m gray c c' e f h = cc
  visit_next-Finishes m white c c' e f h = visits m c c' e f h
  visit_next-Finishes m black c c' e f h = (Finishes-eq h f, ground arith)

  pub visit_all-Finishes :
      (ms : List String) (c c' : Colors)
      → IsFinished es c
      → visit_all go ms c ≡ done c'
      → Finishes es c c' × ((m : String) → elem m ms ≡ true → c' m ≡ black)
  unfolding visit_all
  visit_all-Finishes [] c c' f h = (Finishes-eq h f, λ m p. cc)
  visit_all-Finishes (m ∷ ms) c c' f h =
      let (d, e, r) = done-bind (visit_next go m (c m) c) (visit_all go ms) h in
      let (first, is_black) = visit_next-Finishes m (c m) c d refl f e in
      let (others, all_black) = visit_all-Finishes ms d c' first.finished r in
      (
        Finishes-trans first others,
        λ n p. elim (Bool-cases (m == n)) [
          | inl same ↦ rw (← (eq_iff m n).0 same) (others.keeps m is_black)
          | inr other ↦ all_black n (ground arith)
        ],
      )

-- painting a white node gray, or a node black whose targets are grounded
pub paint-IsFinished_gray :
    (es : List Edge) (c : Colors) (n : String) → IsFinished es c → IsFinished es (paint c n gray)
unfolding paint
paint-IsFinished_gray es c n f m h = elim (Bool-cases (n == m)) [
  | inl same ↦ absurd (ground (arith, h))
  | inr other ↦ f m (rw other at h)
]

paint-IsFinished_black :
    (es : List Edge) (c : Colors) (n : String)
    → IsGrounded es n
    → IsFinished es c
    → IsFinished es (paint c n black)
unfolding paint
paint-IsFinished_black es c n g f m h = elim (Bool-cases (n == m)) [
  | inl same ↦ rw (← (eq_iff n m).0 same) g
  | inr other ↦ f m (rw other at h)
]

pub paint_self : (c : Colors) (n : String) (k : Color) → paint c n k n ≡ k
unfolding paint
paint_self c n k = ground (arith, eq_iff n n)

pub paint_keeps :
    (c : Colors) (n m : String) (k : Color) → c n ≡ white → c m ≡ black → paint c n k m ≡ black
unfolding paint
paint_keeps c n m k w b = ground (arith, eq_iff n m)

paint_black_keeps : (c : Colors) (n m : String) → c m ≡ black → paint c n black m ≡ black
unfolding paint
paint_black_keeps c n m b = ground arith

paint_stays :
    (c d : Colors) (n m : String) (k : Color)
    → k ≢ black
    → (d m ≡ k → paint c n gray m ≡ k)
    → paint d n black m ≡ k
    → c m ≡ k
unfolding paint
paint_stays c d n m k b i g = elim (Bool-cases (n == m)) [
  | inl same ↦ absurd (b (sym (rw same at g)))
  | inr other ↦ rw other at (i (rw other at g))
]

pub visit_finishes : (es : List Edge) (fuel : ℕ) → Visits es (visit fuel es)
unfolding visit
visit_finishes es zero n c c' w f h = cc
visit_finishes es (suc fuel) n c c' w f h =
    let (d, e, r) =
      done-bind (visit_all (visit fuel es) (targets es n) (paint c n gray))
        (λ c'. done (paint c' n black)) h in
    let (inner, all_black) =
      visit_all-Finishes (visit fuel es) (visit_finishes es fuel) (targets es n) (paint c n gray) d
        (paint-IsFinished_gray es c n f) e in
    let grounded_n : IsGrounded es n = grounded (λ m edge. inner.finished m (all_black m edge)) in
    subst (λ x. Finishes es c x × (x n ≡ black)) (cc r)
      (
        record {
          finished = paint-IsFinished_black es d n grounded_n inner.finished;
          keeps = λ m b. paint_black_keeps d n m (inner.keeps m (paint_keeps c n m gray w b));
          stays = λ m k b h. paint_stays c d n m k b (inner.stays m k b) h;
        },
        paint_self d n black,
      )

-- the loop over the keys finishes each of them
module _ {es : List Edge} (go : String → Colors → Search) (visits : Visits es go) where
  pub visit_key-Finishes :
      (k : String) (c c' : Colors)
      → c k ≢ gray
      → IsFinished es c
      → (if is_white (c k) then go k c else done c) ≡ done c'
      → Finishes es c c' × (c' k ≡ black)
  visit_key-Finishes k c c' n f h = split (c k) refl
    where
      split : (x : Color) → c k ≡ x → Finishes es c c' × (c' k ≡ black)
      split white e = visits k c c' e f (rw e at h)
      split gray e = absurd (n e)
      split black e = let q : done c ≡ done c' = rw e at h in (Finishes-eq q f, cc (e, q))

  pub visit_keys-Finishes :
      (ks : List String) (c c' : Colors)
      → ((n : String) → c n ≢ gray)
      → IsFinished es c
      → visit_keys go ks c ≡ done c'
      → Finishes es c c' × ((k : String) → elem k ks ≡ true → c' k ≡ black)
  unfolding visit_keys
  visit_keys-Finishes [] c c' n f h = (Finishes-eq h f, λ m p. cc)
  visit_keys-Finishes (k ∷ ks) c c' n f h =
      let (d, e, r) = done-bind (if is_white (c k) then go k c else done c) (visit_keys go ks) h in
      let (first, is_black) = visit_key-Finishes k c d (n k) f e in
      let (others, all_black) =
        visit_keys-Finishes ks d c' (λ m g. n m (first.stays m gray (λ p. cc) g)) first.finished
          r in
      (
        Finishes-trans first others,
        λ m p. elim (Bool-cases (k == m)) [
          | inl same ↦ rw (← (eq_iff k m).0 same) (others.keeps k is_black)
          | inr other ↦ all_black m (ground arith)
        ],
      )
