-- ===== src/Release/Seam.antt =====
-- What a failed run does to its release: fail_release_for_run of
-- backend/app/services/cicd_service.py.
use lark_plat.Prelude.{◌≢◌, ◌++◌, All, ◌≡◌, ℕ, Bool, true, false, none, some, List, ◌∷◌, nat_eq}
use lark_plat.Workflow.Model.{WorkflowRun, TriggerType}
use lark_plat.Release.Model.{ReleaseStatus, ReleaseAction, Release, ReleaseDb}
use lark_plat.Release.Service.{save_release}
use lark_plat.Release.After.{shifted}
use lark_plat.Release.Lifecycle.{Edge}

-- a release under its key is among the rows
abbrev pub IsAmong : ℕ → Release → List (ℕ × Release) → Type 0
IsAmong i r rows =
    (before : List (ℕ × Release)) × (after : List (ℕ × Release)) × (rows ≡ before ++ (i, r) ∷ after)

-- no release of the rows is linked to the run
abbrev pub Unlinked : ℕ → List (ℕ × Release) → Type 0
Unlinked run rows = All (λ (x : ℕ × Release). x.1.workflow_run_id ≢ some run) rows

-- What the engine's seam does: nothing, where the run was not started for a release, where no release
-- is linked to it, or where a linked one is neither deploying nor in canary; else it fails a release
-- that is linked to the run and was deploying or in canary, under an audit row without a user.
pub data Seam (run : WorkflowRun) (db : ReleaseDb) : Bool × ReleaseDb → Type 0 where
  other_trigger : run.trigger_type ≢ TriggerType.release → Seam run db (false, db)
  unlinked : Unlinked run.run_id db.releases.rows → Seam run db (false, db)
  settled :
      (i : ℕ) (r : Release)
      → IsAmong i r db.releases.rows
      → r.workflow_run_id ≡ some run.run_id
      → r.status ≢ ReleaseStatus.deploying
      → r.status ≢ ReleaseStatus.canary
      → Seam run db (false, db)
  failed_one :
      (i : ℕ) (r : Release)
      → run.trigger_type ≡ TriggerType.release
      → IsAmong i r db.releases.rows
      → r.workflow_run_id ≡ some run.run_id
      → Edge r.status ReleaseStatus.failed ReleaseAction.fail
      → Seam run db (true, save_release none ReleaseAction.fail i (shifted ReleaseAction.fail r) db)
