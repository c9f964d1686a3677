-- ===== src/Workflow/Dag/Stack.antt =====
-- The gray nodes are those on the way from a key to the node being visited, so an edge to one of
-- them closes a cycle.
use mathlib.Core.Path.{subst, sym}
use lark_plat.Prelude.{
  ℕ, zero, suc, String, ◌≡◌, ◌≢◌, refl, true, List, [], ◌∷◌, elem, arith, ◌==◌, ◌⊎◌, eq_iff,
  string_eq, inl, inr, Bool-cases, if◌then◌else◌,
}
use lark_plat.Workflow.Dag.{
  Color, white, gray, black, Colors, paint, Edge, targets, Search, done, cycle, no_fuel, ◌>>=◌,
  visit_next, visit_all, visit, visit_keys, is_white,
}
use lark_plat.Workflow.Dag.Reach.{HasEdge, Leads, step}
use lark_plat.Workflow.Dag.Reach
use lark_plat.Workflow.Dag.Finished.{
  IsFinished, Visits, visit_finishes, visit_next-Finishes, paint-IsFinished_gray,
  visit_key-Finishes,
}

abbrev pub Cyclic : List Edge → Type 0
Cyclic es = (n : String) × Leads es n n

bind-cycle :
    (r : Search) (f : Colors → Search)
    → (r >>= f) ≡ cycle
    → (r ≡ cycle) ⊎ ((d : Colors) × (r ≡ done d) × (f d ≡ cycle))
bind-cycle (done d) f h = inr (d, refl, h)
bind-cycle cycle f h = inl refl
bind-cycle no_fuel f h = cc

-- every gray node leads to n, when n is about to be visited
abbrev LeadTo : List Edge → Colors → String → Type 0
LeadTo es c n = (g : String) → c g ≡ gray → Leads es g n

-- every gray node is u or leads to u, while the targets of u are visited
abbrev OnStack : List Edge → Colors → String → Type 0
OnStack es c u = (g : String) → c g ≡ gray → (g ≡ u) ⊎ Leads es g u

abbrev Closes : List Edge → (String → Colors → Search) → Type 0
Closes es go =
    (n : String) (c : Colors)
    → c n ≡ white
    → IsFinished es c
    → LeadTo es c n
    → go n c ≡ cycle
    → Cyclic es

module _ {es : List Edge} (go : String → Colors → Search) (visits : Visits es go)
    (closes : Closes es go) where
  visit_next_closes :
      (u m : String) (k : Color) (c : Colors)
      → HasEdge es u m
      → c m ≡ k
      → IsFinished es c
      → OnStack es c u
      → visit_next go m k c ≡ cycle
      → Cyclic es
  unfolding visit_next
  visit_next_closes u m gray c e p f s h = elim (s m p) [
    | inl here ↦ (m, step (subst (λ x. HasEdge es x m) (sym here) e))
    | inr back ↦ (u, Reach.Leads.next e back)
  ]
  visit_next_closes u m white c e p f s h =
      closes m c p f
        (λ g q. elim (s g q) [
          | inl here ↦ step (subst (λ x. HasEdge es x m) (sym here) e)
          | inr back ↦ Reach.Leads-trans back (step e)
        ])
        h
  visit_next_closes u m black c e p f s h = cc

  visit_all_closes :
      (u : String) (ms : List String) (c : Colors)
      → ((m : String) → elem m ms ≡ true → HasEdge es u m)
      → IsFinished es c
      → OnStack es c u
      → visit_all go ms c ≡ cycle
      → Cyclic es
  unfolding visit_all
  visit_all_closes u [] c edges f s h = cc
  visit_all_closes u (m ∷ ms) c edges f s h =
      elim (bind-cycle (visit_next go m (c m) c) (visit_all go ms) h) [
        | inl now ↦
            visit_next_closes u m (c m) c (edges m (ground (arith, eq_iff m m))) refl f s now
        | inr later ↦
            let (d, e, r) = later in
            let (first, _) = visit_next-Finishes go visits m (c m) c d refl f e in
            visit_all_closes u ms d (λ n p. edges n (ground arith)) first.finished
              (λ g q. s g (first.stays g gray (λ b. cc) q)) r
      ]

paint-OnStack :
    (es : List Edge) (c : Colors) (n : String) → LeadTo es c n → OnStack es (paint c n gray) n
unfolding paint
paint-OnStack es c n l g h = elim (Bool-cases (n == g)) [
  | inl same ↦ inl (ground (arith, eq_iff n g))
  | inr other ↦ inr (l g (rw other at h))
]

visit-Closes : (es : List Edge) (fuel : ℕ) → Closes es (visit fuel es)
unfolding visit
visit-Closes es zero n c w f l h = cc
visit-Closes es (suc fuel) n c w f l h =
    elim (bind-cycle (visit_all (visit fuel es) (targets es n) (paint c n gray))
      (λ c'. done (paint c' n black)) h) [
        | inl inner ↦
            visit_all_closes (visit fuel es) (visit_finishes es fuel) (visit-Closes es fuel) n
              (targets es n) (paint c n gray) (λ m p. p) (paint-IsFinished_gray es c n f)
              (paint-OnStack es c n l) inner
        | inr later ↦ cc (later.2)
      ]

visit_key_closes :
    (es : List Edge) (fuel : ℕ) (k : String) (c : Colors) (x : Color)
    → c k ≡ x
    → ((n : String) → c n ≢ gray)
    → IsFinished es c
    → (if is_white x then visit fuel es k c else done c) ≡ cycle
    → Cyclic es
visit_key_closes es fuel k c white e n f h = visit-Closes es fuel k c e f (λ g p. absurd (n g p)) h
visit_key_closes es fuel k c gray e n f h = cc
visit_key_closes es fuel k c black e n f h = cc

-- A cycle that the loop over the keys reports is one.
pub visit_keys_closes :
    (es : List Edge) (fuel : ℕ) (ks : List String) (c : Colors)
    → ((n : String) → c n ≢ gray)
    → IsFinished es c
    → visit_keys (visit fuel es) ks c ≡ cycle
    → Cyclic es
unfolding visit_keys
visit_keys_closes es fuel [] c n f h = cc
visit_keys_closes es fuel (k ∷ ks) c n f h =
    elim (bind-cycle (if is_white (c k) then visit fuel es k c else done c)
      (visit_keys (visit fuel es) ks) h) [
        | inl now ↦ visit_key_closes es fuel k c (c k) refl n f now
        | inr later ↦
            let (d, e, r) = later in
            let (first, _) =
              visit_key-Finishes (visit fuel es) (visit_finishes es fuel) k c d (n k) f e in
            visit_keys_closes es fuel ks d (λ m g. n m (first.stays m gray (λ b. cc) g))
              first.finished r
      ]
