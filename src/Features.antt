-- ===== src/Features.antt =====
-- The feature flags: `_require_feature` of the ticket, workflow and CI/CD services, over the value
-- of a row of config_rule (`ConfigRuleRepository.by_key` of backend/app/repositories/__init__.py).
pub mod After
use lark_plat.Prelude.{Bool, false, Option, none, some}
use lark_plat.Json.{Json, object, get, truthy}
use lark_plat.Errors.{bad_request}
use lark_plat.Session.{Db, gets, require, ◌>>=◌}

-- `(rule.rule_value or {}).get("value", False)` as a test; `none` where there is no rule
unfoldable pub feature_on : Option Json → Bool
feature_on none = false
feature_on (some value) = truthy (get (object value) "value")

-- `flag` reads the rule of the service's feature
unfoldable pub require_feature : {S : Type 0} → (S → Option Json) → Db S Unit
require_feature flag = do on ← gets (λ s. feature_on (flag s)); require on bad_request
