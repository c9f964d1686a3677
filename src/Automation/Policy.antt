-- ===== src/Automation/Policy.antt =====
-- `resolve_auto_policy` of backend/app/services/ai_automation_service.py.
use lark_plat.Prelude.{
  ℕ, String, Bool, true, false, not, ◌&&◌, Option, none, some, List, [], ◌∷◌, elem, any, ◌==◌,
  string_eq, if◌then◌else◌,
}
use lark_plat.Json.{Json, Fields, null, str, get, truthy, object}
use lark_plat.Errors.{internal, Result, ok, err, ◌>>=◌}
use lark_plat.Features.{feature_on}
use lark_plat.Automation.Model.{
  AutomationLevel, RemediationPolicy, AutomationWhitelist, CircuitBreakerState, Governance,
  auto_risk_levels,
}

-- _current_level
unfoldable pub current_level : List AutomationLevel → String
current_level [] = "L3"
current_level (r ∷ rows) = let rest = current_level rows in if r.enabled then r.level else rest

-- _breaker_state
unfoldable pub breaker_state : List CircuitBreakerState → String
breaker_state [] = "closed"
breaker_state (r ∷ rows) =
    let rest = breaker_state rows in if r.scope == "global" then r.state else rest

-- a JSON value as the argument of a comparison with a text column that is not null
unfoldable pub text_argument : Json → Result (Option String)
text_argument null = ok none
text_argument (str s) = ok (some s)
text_argument _ = err internal

abbrev pub equals_argument : Option String → String → Bool
equals_argument none s = false
equals_argument (some t) s = s == t

abbrev pub present : Option String → Bool
present none = false
present (some s) = true

abbrev pub eligible : Option String → Option String → RemediationPolicy → Bool
eligible asset op p =
    equals_argument asset p.asset_class
    && equals_argument op p.op_type
    && p.level == "L4"
    && present p.whitelist_ref
    && present p.verification_ref

-- the rows that the query of the policies returns
unfoldable pub matching :
    Option String → Option String → List (ℕ × RemediationPolicy) → List (ℕ × RemediationPolicy)
matching asset op [] = []
matching asset op ((i, p) ∷ rows) =
    let rest = matching asset op rows in if eligible asset op p then (i, p) ∷ rest else rest

-- value in L4_AUTO_RISK_LEVELS
abbrev pub is_auto_risk : Json → Bool
is_auto_risk (str s) = elem s auto_risk_levels
is_auto_risk _ = false

-- action != policy.whitelist_ref
abbrev pub is_action : Json → Option String → Bool
is_action (str s) (some t) = s == t
is_action _ _ = false

abbrev pub is_whitelisted : Option String → AutomationWhitelist → Bool
is_whitelisted ref w =
    equals_argument ref w.action && w.enabled && elem w.risk_level auto_risk_levels

abbrev pub the_policy : Json → Governance → List (ℕ × RemediationPolicy) → Option ℕ
the_policy action g ((i, p) ∷ []) =
    if is_action action p.whitelist_ref && any (is_whitelisted p.whitelist_ref) g.whitelist
    then some i
    else none
the_policy action g _ = none

-- The part after the tests of the flag, the risk, the level and the breaker
unfoldable pub find_policy : Fields → Governance → Result (Option ℕ)
find_policy remediation g = do
  asset ← text_argument (get remediation "asset_class")
  op ← text_argument (get remediation "op_type")
  ok (the_policy (get remediation "action") g (matching asset op g.policies))

-- the id of the policy, for `policy_ref`
unfoldable pub resolve_auto_policy : Option Json → Governance → Json → Result (Option ℕ)
resolve_auto_policy feature g remediation =
    let found = find_policy (object remediation) g in
    if truthy remediation
      && feature_on feature
      && is_auto_risk (get (object remediation) "risk_level")
      && current_level g.levels == "L4"
      && not (breaker_state g.breakers == "open")
    then found
    else ok none
