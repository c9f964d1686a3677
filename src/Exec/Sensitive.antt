-- ===== src/Exec/Sensitive.antt =====
-- `detect_sensitive` and `_sensitive_rules` of backend/app/services/exec_service.py. `lower` is
-- Python's `str.lower`. The reasons are kept before they are written out as a text.
use Prim.Native.String.{◌++◌}
use lark_plat.Prelude.{
  ℕ, suc, zero, String, Bool, true, false, ◌&&◌, Option, none, some, List, [], ◌∷◌, ◌++◌ as ◌+++◌,
  leb, ◌==◌, string_eq, if◌then◌else◌,
}
use lark_plat.Json.{
  Json, null, bool, num, negative, str, arr, obj, items, nil, Fields, end, field, get, has, truthy,
}
use lark_plat.Errors.{internal, Result, ok, err, ◌>>=◌}
use lark_plat.Exec.Text.{contains}

-- rule.rule_value or {}, which `.get` then reads
unfoldable pub rule_fields : Json → Result Fields
rule_fields (obj f) = ok f
rule_fields value = if truthy value then err internal else ok end

pub record SensitiveRules : Type 0 where
  pub keywords : Json
  pub threshold : Json
  pub global_conc : Json
  pub host_conc : Json

abbrev pub no_rules : SensitiveRules
no_rules = record { keywords = arr nil; threshold = null; global_conc = null; host_conc = null }

-- what the rule with the key does to `out`
unfoldable pub take_rule : String → Fields → SensitiveRules → SensitiveRules
take_rule key val out =
    if key == "exec_sensitive_word"
    then record out { keywords = if has val "words" then get val "words" else arr nil }
    else if key == "exec_batch_threshold"
    then record out { threshold = get val "threshold" }
    else record out { global_conc = get val "limit" }

-- the body of the loop; `none` where there is no rule
unfoldable pub read_rule : String → Option Json → SensitiveRules → Result SensitiveRules
read_rule key none out = ok out
read_rule key (some value) out = rule_fields value >>= λ val. ok (take_rule key val out)

unfoldable pub read_rules :
    (String → Option Json) → List String → SensitiveRules → Result SensitiveRules
read_rules rule [] out = ok out
read_rules rule (key ∷ keys) out = read_rule key (rule key) out >>= read_rules rule keys

unfoldable pub sensitive_rules : (String → Option Json) → Result SensitiveRules
sensitive_rules rule =
    read_rules rule
      ("exec_sensitive_word" ∷ "exec_batch_threshold" ∷ "exec_concurrency_limit"
        ∷ "exec_host_concurrency" ∷ [])
      no_rules

-- a loop over a JSON value: the members of a list, the keys of an object, the characters of a text
abbrev pub key_list : Fields → List Json
key_list end = []
key_list (field k v f) = str k ∷ key_list f

unfoldable pub characters : String → List Json
characters String.[] = []
characters (String.◌∷◌ c s) = str (String.◌∷◌ c String.[]) ∷ characters s

unfoldable pub iterate : Json → Result (List Json)
iterate (arr xs) = ok (items xs)
iterate (obj f) = ok (key_list f)
iterate (str s) = ok (characters s)
iterate _ = err internal

pub data Reason : Type 0 where
  words : List String → Reason
  batch : ℕ → Json → Reason

-- hit_words[:5]
unfoldable pub first : ℕ → List String → List String
first zero xs = []
first (suc n) [] = []
first (suc n) (x ∷ xs) = x ∷ first n xs

module _ (lower : String → String) where
  -- [w for w in keywords if w and w.lower() in text]
  unfoldable pub hit_words : String → List Json → Result (List String)
  hit_words text [] = ok []
  hit_words text (str w ∷ ws) = do
    rest ← hit_words text ws
    ok (if truthy (str w) && contains (lower w) text then w ∷ rest else rest)
  hit_words text (w ∷ ws) = do rest ← hit_words text ws; if truthy w then err internal else ok rest

  -- f"{command or ''}\n{script_content or ''}".lower()
  abbrev pub or_empty : Option String → String
  or_empty none = ""
  or_empty (some s) = s

  unfoldable pub searched_text : Option String → Option String → String
  searched_text command content = lower ((or_empty command ++ "\n") ++ or_empty content)

-- threshold and host_count >= threshold
unfoldable pub reaches : ℕ → Json → Result Bool
reaches count null = ok false
reaches count (bool b) = ok (b && leb 1 count)
reaches count (num n) = ok (truthy (num n) && leb n count)
reaches count (negative n) = ok true
reaches count value = if truthy value then err internal else ok false

abbrev pub word_reasons : List String → List Reason
word_reasons [] = []
word_reasons (w ∷ ws) = words (first 5 (w ∷ ws)) ∷ []

abbrev pub batch_reasons : ℕ → Json → Bool → List Reason
batch_reasons count threshold false = []
batch_reasons count threshold true = batch count threshold ∷ []

abbrev pub is_sensitive : List Reason → Bool
is_sensitive [] = false
is_sensitive (r ∷ rs) = true

-- the reasons; the task is sensitive where there is one
unfoldable pub detect_sensitive :
    (String → String)
    → (String → Option Json)
    → Option String
    → Option String
    → ℕ
    → Result (List Reason)
detect_sensitive lower rule command content count = do
  rules ← sensitive_rules rule
  keywords ← iterate rules.keywords
  hits ← hit_words lower (searched_text lower command content) keywords
  reached ← reaches count rules.threshold
  ok (word_reasons hits +++ batch_reasons count rules.threshold reached)
