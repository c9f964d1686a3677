-- ===== src/Release/Model.antt =====
-- The rows of backend/app/db/models/cicd.py, the transition table of
-- backend/app/services/cicd_service.py, and the rows of a workflow that a release makes.
use lark_plat.Prelude.{ℕ, String, Bool, false, ◌||◌, Option, List, [], ◌∷◌, ◌==◌, nat_eq}
use lark_plat.Json.{Json}
use lark_plat.Table.{Table}
use lark_plat.Workflow.Model.{WorkflowRun, WorkflowRow, VersionRow, NodeRow}

-- RELEASE_STATUSES
pub data ReleaseStatus : Type 0 where
  pending deploying canary succeeded failed rolled_back cancelled : ReleaseStatus

-- the keys of RELEASE_TRANSITIONS
pub data ReleaseAction : Type 0 where
  deploy canary promote fail rollback cancel : ReleaseAction

abbrev pub release_code : ReleaseStatus → ℕ
release_code ReleaseStatus.pending = 0
release_code ReleaseStatus.deploying = 1
release_code ReleaseStatus.canary = 2
release_code ReleaseStatus.succeeded = 3
release_code ReleaseStatus.failed = 4
release_code ReleaseStatus.rolled_back = 5
release_code ReleaseStatus.cancelled = 6

unfoldable pub status_among : ReleaseStatus → List ReleaseStatus → Bool
status_among s [] = false
status_among s (x ∷ xs) = release_code x == release_code s || status_among s xs

-- RELEASE_TRANSITIONS[action][0]
unfoldable pub sources : ReleaseAction → List ReleaseStatus
sources ReleaseAction.deploy = ReleaseStatus.pending ∷ []
sources ReleaseAction.canary = ReleaseStatus.pending ∷ ReleaseStatus.deploying ∷ []
sources ReleaseAction.promote = ReleaseStatus.canary ∷ []
sources ReleaseAction.fail = ReleaseStatus.deploying ∷ ReleaseStatus.canary ∷ []
sources ReleaseAction.rollback =
    ReleaseStatus.deploying ∷ ReleaseStatus.canary ∷ ReleaseStatus.failed ∷ []
sources ReleaseAction.cancel =
    ReleaseStatus.pending ∷ ReleaseStatus.deploying ∷ ReleaseStatus.canary ∷ []

-- RELEASE_TRANSITIONS[action][1]
unfoldable pub goal : ReleaseAction → ReleaseStatus
goal ReleaseAction.deploy = ReleaseStatus.deploying
goal ReleaseAction.canary = ReleaseStatus.canary
goal ReleaseAction.promote = ReleaseStatus.succeeded
goal ReleaseAction.fail = ReleaseStatus.failed
goal ReleaseAction.rollback = ReleaseStatus.rolled_back
goal ReleaseAction.cancel = ReleaseStatus.cancelled

abbrev pub provider_types : List String
provider_types = "gitlab" ∷ "jenkins" ∷ "generic" ∷ []

abbrev pub release_envs : List String
release_envs = "dev" ∷ "test" ∷ "prod" ∷ []

-- CICD_PROVIDER_STATUSES
pub data ProviderStatus : Type 0 where
  unknown healthy broken : ProviderStatus

-- `config_enc` maps names to ciphertexts
pub record CicdProvider : Type 0 where
  pub type : String
  pub name : String
  pub endpoint : String
  pub config_enc : Option (List (String × String))
  pub enabled : ℕ
  pub status : ProviderStatus
  pub last_heartbeat : Option ℕ
  pub created_by : ℕ

pub record Release : Type 0 where
  pub provider_id : ℕ
  pub app : String
  pub version : Option String
  pub artifact_ref : Option String
  pub env : String
  pub status : ReleaseStatus
  pub workflow_run_id : Option ℕ
  pub target_host_ids : Option (List ℕ)
  pub rolled_back_from : Option ℕ
  pub created_by : ℕ

-- the columns of an audit row that depend on the release; `by` is none for the engine
pub record AuditRow : Type 0 where
  pub by : Option ℕ
  pub action : ReleaseAction
  pub release_id : ℕ
  pub status : ReleaseStatus
  pub workflow_run_id : Option ℕ

pub record ReleaseDb : Type 0 where
  pub feature : Option Json
  pub providers : Table CicdProvider
  pub releases : Table Release
  pub audits : Table AuditRow
  pub workflows : Table WorkflowRow
  pub versions : Table VersionRow
  pub runs : Table WorkflowRun
  pub nodes : Table NodeRow
