-- ===== src/Release/Tokens.antt =====
-- The secrets of providers and the tokens of webhooks: backend/app/services/cicd_service.py.
use lark_plat.Prelude.{
  ◌≡◌, refl, ap, ◌∙◌, arith, String, Bool, true, false, not, ◌&&◌, Option, none, some, ◌==◌,
  string_eq, if◌then◌else◌, Bool-cases, inl, inr,
}
use lark_plat.Json.{Json, null, bool, num, negative, str, arr, obj, Fields, end, field, has, get}
use lark_plat.Errors.{ok, err, unauthorized}
use lark_plat.Session.{request, ◌>>=◌}
use lark_plat.Features.{feature_on, require_feature}
use lark_plat.Release.Model.{CicdProvider, ReleaseDb}
use lark_plat.Release.Secrets.{
  Cipher, raw, encrypt_fields, encrypt_config, decrypt_fields, decrypt_config, lookup,
}
use lark_plat.Release.Providers.{find_provider, accepts, handle_webhook}

-- a value as the plain text that is kept of it: a text as it is, anything else as its JSON
unfoldable pub plain : Cipher → Json → String
plain c null = c.dumps null
plain c (bool b) = c.dumps (bool b)
plain c (num n) = c.dumps (num n)
plain c (negative n) = c.dumps (negative n)
plain c (str s) = s
plain c (arr xs) = c.dumps (arr xs)
plain c (obj f) = c.dumps (obj f)

raw-plain : (c : Cipher) (v : Json) → raw c v ≡ plain c v
unfolding raw plain
raw-plain c null = refl
raw-plain c (bool b) = refl
raw-plain c (num n) = refl
raw-plain c (negative n) = refl
raw-plain c (str s) = refl
raw-plain c (arr xs) = refl
raw-plain c (obj f) = refl

-- the entry of a configuration with a key, as plain text
abbrev pub entry : Cipher → Option Fields → String → Option String
entry c none k = none
entry c (some fs) k = if has fs k then some (plain c (get fs k)) else none

module _ (c : Cipher) (opens : (s : String) → c.decrypt (c.encrypt s) ≡ some s) where
  lookup-decrypt_fields :
      (fs : Fields) (k : String)
      → lookup (decrypt_fields c (encrypt_fields c fs)) k ≡ entry c (some fs) k
  unfolding decrypt_fields encrypt_fields lookup has get
  lookup-decrypt_fields end k = refl
  lookup-decrypt_fields (field j v fs) k = elim (Bool-cases (j == k)) [
    | inl e ↦ rw (opens (raw c v), e) (ap (λ s. some s) (raw-plain c v))
    | inr e ↦ rw (opens (raw c v), e) (lookup-decrypt_fields fs k)
  ]

  -- Where the cipher opens what it has closed, reading an entry of a configuration that was stored
  -- gives what the configuration had under that key, a text as it is and another value as its JSON,
  -- and nothing for a key that it did not have.
  pub lookup-decrypt_config :
      (f : Option Fields) (k : String)
      → lookup (decrypt_config c (encrypt_config c f)) k ≡ entry c f k
  unfolding decrypt_config encrypt_config lookup has
  lookup-decrypt_config none k = refl
  lookup-decrypt_config (some end) k = refl
  lookup-decrypt_config (some (field j v fs)) k = lookup-decrypt_fields (field j v fs) k

-- the token is sent, is not empty, and is the expected one
abbrev pub is_token : Option String → String → Bool
is_token none expected = false
is_token (some token) expected = not (token == "") && expected == token

accepts-token :
    (c : Cipher) (name expected : String) (token : Option String) (p : CicdProvider)
    (db : ReleaseDb)
    → feature_on db.feature ≡ true
    → find_provider name db.providers.rows ≡ some p
    → lookup (decrypt_config c p.config_enc) "token" ≡ some expected
    → request (handle_webhook c name token) db
      ≡ ((if is_token token expected then ok tt else err unauthorized), db)
unfolding handle_webhook accepts require_feature ◌>>=◌
accepts-token c name expected none p db on is stored = ground (arith, on, is, stored)
accepts-token c name expected (some token) p db on is stored = ground (arith, on, is, stored)

-- Where the feature flag is on and the cipher opens what it has closed, a webhook of a provider whose
-- configuration was stored with a text as its token is accepted if that token is sent and is not
-- empty, and is refused as unauthorized with any other token or with none; either way the database
-- stays as it was.
pub handle_webhook-token :
    (c : Cipher) (opens : (s : String) → c.decrypt (c.encrypt s) ≡ some s) (name expected : String)
    (token : Option String) (p : CicdProvider) (fs : Fields) (db : ReleaseDb)
    → feature_on db.feature ≡ true
    → find_provider name db.providers.rows ≡ some p
    → p.config_enc ≡ encrypt_config c (some fs)
    → has fs "token" ≡ true
    → get fs "token" ≡ str expected
    → request (handle_webhook c name token) db
      ≡ ((if is_token token expected then ok tt else err unauthorized), db)
unfolding plain
handle_webhook-token c opens name expected token p fs db on is stored there text =
    accepts-token c name expected token p db on is (
      ap (λ x. lookup (decrypt_config c x) "token") stored
      ∙ lookup-decrypt_config c opens (some fs) "token"
      ∙ rw (there, text) refl)
