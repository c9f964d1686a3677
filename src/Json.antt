-- ===== src/Json.antt =====
-- JSON values as the services read them (`dict.get`, truthiness, `isinstance`). The numbers are
-- integers; object keys are texts.
use lark_plat.Prelude.{
  ℕ, zero, suc, String, Bool, true, false, ◌||◌, List, [], ◌∷◌, ◌==◌, string_eq, if◌then◌else◌,
}

mutual
  pub data Json : Type 0 where
    null : Json
    bool : Bool → Json
    num : ℕ → Json
    -- -(n + 1)
    negative : ℕ → Json
    str : String → Json
    arr : Items → Json
    obj : Fields → Json

  pub data Items : Type 0 where
    nil : Items
    cons : Json → Items → Items

  pub data Fields : Type 0 where
    end : Fields
    field : String → Json → Fields → Fields

-- d.get(key), where a missing key reads as None
unfoldable pub get : Fields → String → Json
get end k = null
get (field j v fs) k = if j == k then v else get fs k

-- bool(value)
unfoldable pub truthy : Json → Bool
truthy null = false
truthy (bool b) = b
truthy (num zero) = false
truthy (num (suc n)) = true
truthy (negative n) = true
truthy (str s) = if s == "" then false else true
truthy (arr nil) = false
truthy (arr (cons x xs)) = true
truthy (obj end) = false
truthy (obj (field k v fs)) = true

-- the list of a JSON array
abbrev pub items : Items → List Json
items nil = []
items (cons x xs) = x ∷ items xs

-- a JSON array of a list
abbrev pub array : List Json → Items
array [] = nil
array (x ∷ xs) = cons x (array xs)

-- key in d
unfoldable pub has : Fields → String → Bool
has end k = false
has (field j v fs) k = j == k || has fs k

-- d[key] = value
unfoldable pub put : Fields → String → Json → Fields
put end k v = field k v end
put (field j w fs) k v = let rest = put fs k v in if j == k then field j v fs else field j w rest

-- value or {}, for a value that is an object or falsy
abbrev pub object : Json → Fields
object (obj f) = f
object _ = end
