-- ===== src/Exec/Text.antt =====
-- `word in text` for two texts, as backend/app/services/exec_service.py tests a command.
use Prim.Native.Char.{code as char_code}
use Prim.Native.String.append
use Prim.Native.String.{◌++◌}
use text.Mathlib.TextEquality.{Char-path}
use lark_plat.Prelude.{
  ◌≡◌, refl, sym, ap, ◌∙◌, arith, String, Bool, true, false, ◌&&◌, ◌||◌, ◌↔◌, inl, inr, ◌==◌,
  nat_eq, Bool-cases, nat_beq_iff,
}

-- text.startswith(word)
unfoldable pub begins_with : String → String → Bool
begins_with String.[] text = true
begins_with (String.◌∷◌ c word) String.[] = false
begins_with (String.◌∷◌ c word) (String.◌∷◌ d text) =
    char_code c == char_code d && begins_with word text

-- word in text
unfoldable pub contains : String → String → Bool
unfolding begins_with
contains word String.[] = begins_with word String.[]
contains word (String.◌∷◌ c text) = begins_with word (String.◌∷◌ c text) || contains word text

both : (a b : Bool) → (a && b) ≡ true → (a ≡ true) × (b ≡ true)
both true true h = (refl, refl)
both true false h = cc
both false b h = cc

or_right : (a b : Bool) → (a || b) ≡ true → a ≡ false → b ≡ true
or_right true b h e = cc
or_right false b h e = h

-- the word stands somewhere in the text
abbrev pub Occurs : String → String → Type 0
Occurs word text = (before : String) × (after : String) × (text ≡ before ++ (word ++ after))

begins_with-splits :
    (word text : String) → begins_with word text ≡ true → (after : String) × (text ≡ word ++ after)
unfolding begins_with
begins_with-splits String.[] text h = (text, sym (append.nil text))
begins_with-splits (String.◌∷◌ c word) String.[] h = cc
begins_with-splits (String.◌∷◌ c word) (String.◌∷◌ d text) h =
    let (same, more) = both (char_code c == char_code d) (begins_with word text) h in
    let (after, is) = begins_with-splits word text more in
    (
      after,
      ap (λ (x : String). String.◌∷◌ d x) is
          ∙ ap (λ x. String.◌∷◌ x (word ++ after))
              (sym (Char-path c d ((nat_beq_iff (char_code c) (char_code d)).0 same)))
          ∙ sym (append.cons c word after),
    )

begins_with-append : (word after : String) → begins_with word (word ++ after) ≡ true
unfolding begins_with
begins_with-append String.[] after = refl
begins_with-append (String.◌∷◌ c word) after =
    rw (append.cons c word after) (ground (arith, begins_with-append word after))

contains-begins_with :
    (word text : String) → begins_with word text ≡ true → contains word text ≡ true
unfolding contains
contains-begins_with word String.[] h = h
contains-begins_with word (String.◌∷◌ c text) h = rw h refl

contains-Occurs : (word text : String) → contains word text ≡ true → Occurs word text
unfolding contains
contains-Occurs word String.[] h =
    let (after, is) = begins_with-splits word String.[] h in
    (String.[], after, is ∙ sym (append.nil (word ++ after)))
contains-Occurs word (String.◌∷◌ c text) h =
    elim (Bool-cases (begins_with word (String.◌∷◌ c text))) [
      | inl first ↦
          let (after, is) = begins_with-splits word (String.◌∷◌ c text) first in
          (String.[], after, is ∙ sym (append.nil (word ++ after)))
      | inr later ↦
          let (before, after, is) = contains-Occurs word text (or_right _ _ h later) in
          (
            String.◌∷◌ c before,
            after,
            ap (λ (x : String). String.◌∷◌ c x) is ∙ sym (append.cons c before (word ++ after)),
          )
    ]

contains-append : (word before after : String) → contains word (before ++ (word ++ after)) ≡ true
unfolding contains
contains-append word String.[] after =
    rw (append.nil (word ++ after))
      (contains-begins_with word (word ++ after) (begins_with-append word after))
contains-append word (String.◌∷◌ c before) after =
    rw (append.cons c before (word ++ after)) (ground (arith, contains-append word before after))

-- the test finds the words that occur
pub contains_iff : (word text : String) → (contains word text ≡ true) ↔ Occurs word text
contains_iff word text =
    (contains-Occurs word text, λ (before, after, is). rw is (contains-append word before after))
