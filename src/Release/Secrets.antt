-- ===== src/Release/Secrets.antt =====
-- `_encrypt_config` and `_decrypt_config` of backend/app/services/cicd_service.py. The cipher of
-- backend/app/core/security.py and json.dumps are parameters.
use lark_plat.Prelude.{String, List, [], ◌∷◌, Option, none, some, ◌==◌, string_eq, if◌then◌else◌}
use lark_plat.Json.{Json, str, Fields, end, field}

pub record Cipher : Type 0 where
  pub encrypt : String → String
  -- none where decrypt_secret raises
  pub decrypt : String → Option String
  pub dumps : Json → String

module _ (c : Cipher) where
  -- value if isinstance(value, str) else json.dumps(value)
  unfoldable pub raw : Json → String
  raw (str s) = s
  raw v = c.dumps v

  -- the loop of `_encrypt_config`
  unfoldable pub encrypt_fields : Fields → List (String × String)
  encrypt_fields end = []
  encrypt_fields (field k v fs) = (k, c.encrypt (raw v)) ∷ encrypt_fields fs

  unfoldable pub encrypt_config : Option Fields → Option (List (String × String))
  encrypt_config none = none
  encrypt_config (some end) = none
  encrypt_config (some (field k v fs)) = some (encrypt_fields (field k v fs))

  abbrev pub keep_readable :
      String → Option String → List (String × String) → List (String × String)
  keep_readable k none rest = rest
  keep_readable k (some s) rest = (k, s) ∷ rest

  -- a value that cannot be read is left out
  unfoldable pub decrypt_fields : List (String × String) → List (String × String)
  decrypt_fields [] = []
  decrypt_fields ((k, v) ∷ fs) = keep_readable k (c.decrypt v) (decrypt_fields fs)

  unfoldable pub decrypt_config : Option (List (String × String)) → List (String × String)
  decrypt_config none = []
  decrypt_config (some fs) = decrypt_fields fs

-- .get(key)
unfoldable pub lookup : List (String × String) → String → Option String
lookup [] k = none
lookup ((j, v) ∷ fs) k = if j == k then some v else lookup fs k
