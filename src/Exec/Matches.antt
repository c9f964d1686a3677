-- ===== src/Exec/Matches.antt =====
-- When `detect_sensitive` of backend/app/services/exec_service.py finds a reason.
use lark_plat.Prelude.{
  ℕ, zero, suc, ◌≤◌, ◌≡◌, ◌≢◌, refl, sym, ap, ◌∙◌, arith, String, Bool, true, false, ◌&&◌, ◌||◌,
  ◌++◌, Option, none, some, List, [], ◌∷◌, map, ◌↔◌, ◌⊎◌, inl, inr, elem, leb, ◌==◌, string_eq,
  if◌then◌else◌, Bool-cases,
}
use Prim.Native.String.{◌++◌ as ◌+++◌}
use mathlib.Core.Path.{subst}
use lark_plat.Json.{
  Json, num, str, arr, obj, array, items, Items, truthy, Fields, end, field, get, has,
}
use lark_plat.Errors.{ok}
use lark_plat.Exec.Text.{contains, Occurs, contains_iff}
use lark_plat.Exec.Sensitive.{
  SensitiveRules, no_rules, rule_fields, take_rule, read_rule, read_rules, sensitive_rules, iterate,
  hit_words, searched_text, reaches, Reason, word_reasons, batch_reasons, is_sensitive,
  detect_sensitive,
}

items-array : (xs : List Json) → items (array xs) ≡ xs
items-array [] = refl
items-array (x ∷ xs) = ap (λ ys. x ∷ ys) (items-array xs)

module _ (lower : String → String) (text : String) where
  abbrev is_hit : String → Bool
  is_hit w = truthy (str w) && contains (lower w) text

  abbrev hits : List String → List String
  hits [] = []
  hits (w ∷ ws) = if is_hit w then w ∷ hits ws else hits ws

  hit_words-texts : (ws : List String) → hit_words lower text (map str ws) ≡ ok (hits ws)
  unfolding hit_words
  hit_words-texts [] = refl
  hit_words-texts (w ∷ ws) = rw (hit_words-texts ws) refl

  -- a configured word that is not empty and occurs in the text
  abbrev pub Matches : List String → Type 0
  Matches ws = (w : String) × (elem w ws ≡ true) × (w ≢ "") × Occurs (lower w) text

  is_hit-Occurs : (w : String) → is_hit w ≡ true → (w ≢ "") × Occurs (lower w) text
  unfolding truthy
  is_hit-Occurs w h = (
    λ e. ground (arith, h, (string_eq.test_iff w "").1 e),
    (contains_iff (lower w) text).0 (ground (arith, h)),
  )

  Occurs-is_hit : (w : String) → w ≢ "" → Occurs (lower w) text → is_hit w ≡ true
  unfolding truthy
  Occurs-is_hit w full at =
      ground (arith, full, (contains_iff (lower w) text).1 at, (string_eq.test_iff w "").0)

  hits-Matches : (ws : List String) → is_sensitive (word_reasons (hits ws)) ≡ true → Matches ws
  hits-Matches [] h = cc
  hits-Matches (w ∷ ws) h = elim (Bool-cases (is_hit w)) [
    | inl e ↦
        let (full, at) = is_hit-Occurs w e in
        (w, ground (arith, (string_eq.test_iff w w).1 refl), full, at)
    | inr e ↦
        let (v, is, full, at) = hits-Matches ws (ground (arith, h, e)) in
        (v, ground (arith, is), full, at)
  ]

  Matches-hits : (ws : List String) → Matches ws → is_sensitive (word_reasons (hits ws)) ≡ true
  Matches-hits [] (v, is, full, at) = cc
  Matches-hits (w ∷ ws) (v, is, full, at) = elim (Bool-cases (is_hit w)) [
    | inl e ↦ ground (arith, e)
    | inr e ↦ elim (Bool-cases (w == v)) [
      | inl same ↦
          let p = (string_eq.test_iff w v).0 same in
          let hit =
            Occurs-is_hit w (λ none. full (sym p ∙ none))
              (subst (λ x. Occurs (lower x) text) (sym p) at) in
          ground (arith, e, hit)
      | inr other ↦
          let more = Matches-hits ws (v, ground (arith, is, other), full, at) in
          ground (arith, e, more)
    ]
  ]

  hits_iff : (ws : List String) → (is_sensitive (word_reasons (hits ws)) ≡ true) ↔ Matches ws
  hits_iff ws = (hits-Matches ws, Matches-hits ws)

abbrev is_reached : ℕ → ℕ → Bool
is_reached count n = truthy (num n) && leb n count

is_reached_iff : (count n : ℕ) → (is_reached count n ≡ true) ↔ ((n ≢ 0) × (n ≤ count))
unfolding truthy
is_reached_iff count zero = (λ h. cc, λ (h, k). ground (arith, h))
is_reached_iff count (suc n) =
    (λ h. (λ e. omega (arith, e), ground (arith, h)), λ (h, k). ground (arith, k))

is_sensitive-append :
    (r₁ r₂ : List Reason) → is_sensitive (r₁ ++ r₂) ≡ (is_sensitive r₁ || is_sensitive r₂)
is_sensitive-append [] r₂ = refl
is_sensitive-append (r ∷ r₁) r₂ = refl

or_iff : {a b : Bool} {P Q : Type 0} → (a ≡ true) ↔ P → (b ≡ true) ↔ Q → ((a || b) ≡ true) ↔ (P ⊎ Q)
or_iff {a = true} p q = (λ h. inl (p.0 refl), λ h. refl)
or_iff {a = false} p q = (λ h. inr (q.0 h), λ h. elim h [ inl x ↦ cc (p.1 x) | inr x ↦ q.1 x ])

is_sensitive-batch : (count : ℕ) (t : Json) (b : Bool) → is_sensitive (batch_reasons count t b) ≡ b
is_sensitive-batch count t true = refl
is_sensitive-batch count t false = refl

module _ (lower : String → String) (rule : String → Option Json) (command content : Option String)
    (count : ℕ) where
  reasons : List String → ℕ → List Reason
  reasons ws n =
      word_reasons (hits lower (searched_text lower command content) ws)
      ++ batch_reasons count (num n) (is_reached count n)

  detect_sensitive-reasons :
      (rules : SensitiveRules) (ws : List String) (n : ℕ)
      → sensitive_rules rule ≡ ok rules
      → rules.keywords ≡ arr (array (map str ws))
      → rules.threshold ≡ num n
      → detect_sensitive lower rule command content count ≡ ok (reasons ws n)
  unfolding detect_sensitive iterate reaches reasons
  detect_sensitive-reasons rules ws n read kw th =
      let texts = items-array (map str ws) in
      let found = hit_words-texts lower (searched_text lower command content) ws in
      rw (read, kw, th, texts, found) refl

-- a text that may be missing
abbrev pub given : Option String → String
given none = ""
given (some s) = s

-- the command and the content of the script, on lines of their own
abbrev pub both_texts : Option String → Option String → String
both_texts command content = (given command +++ "\n") +++ given content

searched_text-both :
    (lower : String → String) (command content : Option String)
    → searched_text lower command content ≡ lower (both_texts command content)
unfolding searched_text
searched_text-both lower none none = refl
searched_text-both lower none (some s) = refl
searched_text-both lower (some c) none = refl
searched_text-both lower (some c) (some s) = refl

-- a rule that is missing, or whose value is an object
abbrev pub IsReadable : Option Json → Type 0
IsReadable o = (o ≡ none) ⊎ ((f : Fields) × (o ≡ some (obj f)))

-- What the tests read of the configuration: a list of words, and a number as threshold; the two rules
-- of limits may be missing.
pub record IsConfigured (rule : String → Option Json) (ws : List String) (n : ℕ) : Type 0 where
  pub words : Fields
  pub words_rule : rule "exec_sensitive_word" ≡ some (obj words)
  pub has_words : get words "words" ≡ arr (array (map str ws))
  pub batch : Fields
  pub batch_rule : rule "exec_batch_threshold" ≡ some (obj batch)
  pub has_threshold : get batch "threshold" ≡ num n
  pub limit : IsReadable (rule "exec_concurrency_limit")
  pub host_limit : IsReadable (rule "exec_host_concurrency")

get-has : (f : Fields) (k : String) {xs : Items} → get f k ≡ arr xs → has f k ≡ true
unfolding get has
get-has end k h = cc
get-has (field j v f) k h = elim (Bool-cases (j == k)) [
  | inl e ↦ rw e refl
  | inr e ↦ rw e (get-has f k (rw e at h))
]

-- reading a rule of limits keeps the words and the threshold
abbrev Kept : SensitiveRules → SensitiveRules → Type 0
Kept r r' = (r'.keywords ≡ r.keywords) × (r'.threshold ≡ r.threshold)

read_limit :
    (key : String) (o : Option Json) (r : SensitiveRules)
    → (key == "exec_sensitive_word") ≡ false
    → (key == "exec_batch_threshold") ≡ false
    → IsReadable o
    → (r' : SensitiveRules) × (read_rule key o r ≡ ok r') × Kept r r'
unfolding read_rule rule_fields take_rule
read_limit key o r e₁ e₂ (inl e) = (r, rw e refl, (refl, refl))
read_limit key o r e₁ e₂ (inr (f, e)) =
    (record r { global_conc = get f "limit" }, rw (e, e₁, e₂) refl, (refl, refl))

read_words :
    (o : Option Json) (f : Fields) (xs : Items) (r : SensitiveRules)
    → o ≡ some (obj f)
    → get f "words" ≡ arr xs
    → read_rule "exec_sensitive_word" o r ≡ ok (record r { keywords = arr xs })
unfolding read_rule rule_fields take_rule
read_words o f xs r e is = let there = get-has f "words" is in rw (e, there, is) refl

read_batch :
    (o : Option Json) (f : Fields) (t : Json) (r : SensitiveRules)
    → o ≡ some (obj f)
    → get f "threshold" ≡ t
    → read_rule "exec_batch_threshold" o r ≡ ok (record r { threshold = t })
unfolding read_rule rule_fields take_rule
read_batch o f t r e is = rw (e, is) refl

sensitive_rules-read :
    (rule : String → Option Json) (ws : List String) (n : ℕ)
    → IsConfigured rule ws n
    → (r : SensitiveRules) × (sensitive_rules rule ≡ ok r)
      × (r.keywords ≡ arr (array (map str ws)))
      × (r.threshold ≡ num n)
unfolding sensitive_rules read_rules
sensitive_rules-read rule ws n c =
    let e_w = read_words _ c.words (array (map str ws)) no_rules c.words_rule c.has_words in
    let e_b =
      read_batch _ c.batch (num n) (record no_rules { keywords = arr (array (map str ws)) })
        c.batch_rule c.has_threshold in
    let r : SensitiveRules = record no_rules {
      keywords = arr (array (map str ws));
      threshold = num n;
    } in
    let (r₁, e₁, k₁) = read_limit "exec_concurrency_limit" _ r refl refl c.limit in
    let (r₂, e₂, k₂) = read_limit "exec_host_concurrency" _ r₁ refl refl c.host_limit in
    (r₂, rw (e_w, e_b, e₁, e₂) refl, k₂.0 ∙ k₁.0, k₂.1 ∙ k₁.1)

-- Where the configuration has a list of words and a number as threshold, `detect_sensitive` returns,
-- and finds the task sensitive exactly if a configured word that is not empty occurs, in lower case,
-- in the command and the content of the script, which stand on lines of their own, or if the
-- threshold is not 0 and the hosts reach it.
pub detect_sensitive_iff :
    (lower : String → String) (rule : String → Option Json) (command content : Option String)
    (count : ℕ) (ws : List String) (n : ℕ)
    → IsConfigured rule ws n
    → (rs : List Reason) × (detect_sensitive lower rule command content count ≡ ok rs)
      × ((is_sensitive rs ≡ true)
          ↔ (Matches lower (lower (both_texts command content)) ws ⊎ ((n ≢ 0) × (n ≤ count))))
unfolding reasons
detect_sensitive_iff lower rule command content count ws n c =
    let (r, read, kw, th) = sensitive_rules-read rule ws n c in
    let text = lower (both_texts command content) in
    let decided = or_iff (hits_iff lower text ws) (is_reached_iff count n) in
    (
      word_reasons (hits lower text ws) ++ batch_reasons count (num n) (is_reached count n),
      rw (← searched_text-both lower command content)
          (detect_sensitive-reasons lower rule command content count r ws n read kw th),
      rw
          (
            is_sensitive-append (word_reasons (hits lower text ws))
                (batch_reasons count (num n) (is_reached count n)),
            is_sensitive-batch count (num n) (is_reached count n),
          )
          decided,
    )
