-- ===== src/Release/Providers.antt =====
-- The operations on providers and the inbound webhook of backend/app/services/cicd_service.py.
use lark_plat.Prelude.{
  ℕ, String, Bool, true, false, not, ◌||◌, Option, none, some, List, [], ◌∷◌, elem, ◌==◌, nat_eq,
  string_eq, if◌then◌else◌,
}
use lark_plat.Json.{Fields}
use lark_plat.Errors.{unauthorized, not_found, conflict, validation}
use lark_plat.Session.{Db, pure, gets, fetch, modify, commit, require, CurrentUser, ◌>>=◌, ◌>>◌}
use lark_plat.Features.{require_feature}
use lark_plat.Table.{find, put, add}
use lark_plat.Release.Model.{provider_types, ProviderStatus, CicdProvider, Release, ReleaseDb}
use lark_plat.Release.Secrets.{Cipher, encrypt_config, decrypt_config, lookup}
use lark_plat.Release.Service.{release_gate}

pub record ProviderCreate : Type 0 where
  pub type : String
  pub name : String
  pub endpoint : String
  pub config : Option Fields
  pub enabled : ℕ

pub record ProviderUpdate : Type 0 where
  pub name : Option String
  pub endpoint : Option String
  pub config : Option Fields
  pub enabled : Option ℕ

unfoldable pub get_provider : ℕ → Db ReleaseDb CicdProvider
get_provider i = fetch not_found (λ (s : ReleaseDb). find s.providers i)

abbrev pub or_else {ℓ} : {A : Type ℓ} → Option A → A → A
or_else none a = a
or_else (some b) a = b

-- whether a release names the provider
unfoldable pub is_referenced : ℕ → List (ℕ × Release) → Bool
is_referenced i [] = false
is_referenced i ((k, r) ∷ rs) = r.provider_id == i || is_referenced i rs

-- the first row that the query finds
unfoldable pub find_provider : String → List (ℕ × CicdProvider) → Option CicdProvider
find_provider name [] = none
find_provider name ((i, p) ∷ ps) =
    if p.type == name || p.name == name then some p else find_provider name ps

unfoldable pub delete_row {ℓ} : {A : Type ℓ} → ℕ → List (ℕ × A) → List (ℕ × A)
delete_row i [] = []
delete_row i ((k, a) ∷ rows) =
    let rest = delete_row i rows in if k == i then rest else (k, a) ∷ rest

unfoldable pub delete_provider : CurrentUser → ℕ → Db ReleaseDb Unit
delete_provider user i = do
  release_gate user "cicd:provider:del"
  p ← get_provider i
  referenced ← gets (λ (s : ReleaseDb). is_referenced i s.releases.rows)
  require (not referenced) conflict
  modify (λ (s : ReleaseDb). record s {
    providers = record s.providers { rows = delete_row i s.providers.rows };
  })
  commit

abbrev pub tested : ℕ → CicdProvider → CicdProvider
tested now p = record p { status = ProviderStatus.healthy; last_heartbeat = some now }

unfoldable pub test_provider : CurrentUser → ℕ → ℕ → Db ReleaseDb Unit
test_provider user i now = do
  release_gate user "cicd:provider:test"
  p ← get_provider i
  modify (λ (s : ReleaseDb). record s { providers = put s.providers i (tested now p) })
  commit

module _ (c : Cipher) where
  abbrev pub new_provider : CurrentUser → ProviderCreate → CicdProvider
  new_provider user d = record {
    type = d.type;
    name = d.name;
    endpoint = d.endpoint;
    config_enc = encrypt_config c d.config;
    enabled = d.enabled;
    status = ProviderStatus.unknown;
    last_heartbeat = none;
    created_by = user.id;
  }

  unfoldable pub create_provider : CurrentUser → ProviderCreate → Db ReleaseDb ℕ
  create_provider user d = do
    release_gate user "cicd:provider:add"
    require (elem d.type provider_types) validation
    i ← gets (λ (s : ReleaseDb). s.providers.next_id)
    modify (λ (s : ReleaseDb). record s { providers = add s.providers (new_provider user d) })
    commit
    pure i

  -- `if data.config is not None`
  abbrev pub edited_config : Option Fields → CicdProvider → CicdProvider
  edited_config none p = p
  edited_config (some f) p = record p { config_enc = encrypt_config c (some f) }

  unfoldable pub edited_provider : ProviderUpdate → CicdProvider → CicdProvider
  edited_provider u p = edited_config u.config (record p {
    name = or_else u.name p.name;
    endpoint = or_else u.endpoint p.endpoint;
    enabled = or_else u.enabled p.enabled;
  })

  unfoldable pub update_provider : CurrentUser → ℕ → ProviderUpdate → Db ReleaseDb Unit
  update_provider user i u = do
    release_gate user "cicd:provider:edit"
    p ← get_provider i
    modify (λ (s : ReleaseDb). record s { providers = put s.providers i (edited_provider u p) })
    commit

  abbrev pub token_fits : Option String → String → Bool
  token_fits none token = true
  token_fits (some expected) token = expected == token

  -- an unknown provider, or one without a token, takes every token
  unfoldable pub accepts : Option CicdProvider → String → Bool
  accepts none token = true
  accepts (some p) token = token_fits (lookup (decrypt_config c p.config_enc) "token") token

  abbrev pub has_token : Option String → Bool
  has_token none = false
  has_token (some t) = not (t == "")

  abbrev pub text_of : Option String → String
  text_of none = ""
  text_of (some t) = t

  unfoldable pub handle_webhook : String → Option String → Db ReleaseDb Unit
  handle_webhook provider token = do
    require_feature (λ (s : ReleaseDb). s.feature)
    require (has_token token) unauthorized
    prov ← gets (λ (s : ReleaseDb). find_provider provider s.providers.rows)
    require (accepts prov (text_of token)) unauthorized
