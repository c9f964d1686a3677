-- ===== src/Automation/Model.antt =====
-- The rows of backend/app/db/models/ai_automation.py that the automatic approval reads.
use lark_plat.Prelude.{ℕ, String, Bool, Option, List, [], ◌∷◌}

pub record AutomationLevel : Type 0 where
  pub level : String
  pub enabled : Bool

pub record RemediationPolicy : Type 0 where
  pub asset_class : String
  pub op_type : String
  pub level : String
  pub whitelist_ref : Option String
  pub verification_ref : Option String

pub record AutomationWhitelist : Type 0 where
  pub action : String
  pub risk_level : String
  pub enabled : Bool

pub record CircuitBreakerState : Type 0 where
  pub scope : String
  pub state : String

pub record Governance : Type 0 where
  pub levels : List AutomationLevel
  pub policies : List (ℕ × RemediationPolicy)
  pub whitelist : List AutomationWhitelist
  pub breakers : List CircuitBreakerState

-- L4_AUTO_RISK_LEVELS
abbrev pub auto_risk_levels : List String
auto_risk_levels = "low" ∷ []
