-- ===== src/Release/Lifecycle.antt =====
-- The life of a release over the requests of backend/app/services/cicd_service.py.
use lark_plat.Prelude.{
  ◌≡◌, refl, ap, ℕ, zero, suc, true, Option, none, some, nat_eq, Bool-cases, inl, inr,
}
use lark_plat.Errors.{AppError, Result, ok, err}
use lark_plat.Session.{request, CurrentUser, has_perm}
use lark_plat.Session.After.{Leaves}
use lark_plat.Features.{feature_on}
use lark_plat.Table.{find, put, add}
use lark_plat.Workflow.Model.{WorkflowRun, run_terminal}
use lark_plat.Workflow.Model.{WorkflowRow}
use lark_plat.Release.Model.{
  ReleaseStatus, ReleaseAction, status_among, sources, goal, Release, ReleaseDb,
}
use lark_plat.Release.Runs.{
  release_workflow_name, or_new_workflow, ensure_release_workflow, find_workflow, start_run,
  trigger_release_run,
}
use lark_plat.Release.Service.{
  audit, save_release, canary_db, stop_run, stop_linked, carry_out, release_perm, move_release,
}
use lark_plat.Release.After.{shifted, after-move}

-- a move of a release
pub data Edge : ReleaseStatus → ReleaseStatus → ReleaseAction → Type 0 where
  deploys : Edge ReleaseStatus.pending ReleaseStatus.deploying ReleaseAction.deploy
  starts_canary : Edge ReleaseStatus.pending ReleaseStatus.canary ReleaseAction.canary
  goes_canary : Edge ReleaseStatus.deploying ReleaseStatus.canary ReleaseAction.canary
  promotes : Edge ReleaseStatus.canary ReleaseStatus.succeeded ReleaseAction.promote
  fails_deploying : Edge ReleaseStatus.deploying ReleaseStatus.failed ReleaseAction.fail
  fails_canary : Edge ReleaseStatus.canary ReleaseStatus.failed ReleaseAction.fail
  rolls_deploying : Edge ReleaseStatus.deploying ReleaseStatus.rolled_back ReleaseAction.rollback
  rolls_canary : Edge ReleaseStatus.canary ReleaseStatus.rolled_back ReleaseAction.rollback
  rolls_failed : Edge ReleaseStatus.failed ReleaseStatus.rolled_back ReleaseAction.rollback
  cancels_pending : Edge ReleaseStatus.pending ReleaseStatus.cancelled ReleaseAction.cancel
  cancels_deploying : Edge ReleaseStatus.deploying ReleaseStatus.cancelled ReleaseAction.cancel
  cancels_canary : Edge ReleaseStatus.canary ReleaseStatus.cancelled ReleaseAction.cancel

pub among-Edge :
    (a : ReleaseAction) (s : ReleaseStatus) → status_among s (sources a) ≡ true → Edge s (goal a) a
unfolding status_among sources goal
among-Edge ReleaseAction.deploy ReleaseStatus.pending h = deploys
among-Edge ReleaseAction.canary ReleaseStatus.pending h = starts_canary
among-Edge ReleaseAction.canary ReleaseStatus.deploying h = goes_canary
among-Edge ReleaseAction.promote ReleaseStatus.canary h = promotes
among-Edge ReleaseAction.fail ReleaseStatus.deploying h = fails_deploying
among-Edge ReleaseAction.fail ReleaseStatus.canary h = fails_canary
among-Edge ReleaseAction.rollback ReleaseStatus.deploying h = rolls_deploying
among-Edge ReleaseAction.rollback ReleaseStatus.canary h = rolls_canary
among-Edge ReleaseAction.rollback ReleaseStatus.failed h = rolls_failed
among-Edge ReleaseAction.cancel ReleaseStatus.pending h = cancels_pending
among-Edge ReleaseAction.cancel ReleaseStatus.deploying h = cancels_deploying
among-Edge ReleaseAction.cancel ReleaseStatus.canary h = cancels_canary
among-Edge _ _ h = cc

-- The release `i` moves by `action`, no other release changes, and one audit row with the status and
-- the run that the release has now is written.
pub record Moves (by : Option ℕ) (action : ReleaseAction) (i : ℕ) (db db' : ReleaseDb)
    : Type 0 where
  pub before : Release
  pub after : Release
  pub found : find db.releases i ≡ some before
  pub edge : Edge before.status after.status action
  pub releases : db'.releases ≡ put db.releases i after
  pub audited :
      db'.audits
      ≡ add db.audits (record {
        by = by;
        action = action;
        release_id = i;
        status = after.status;
        workflow_run_id = after.workflow_run_id;
      })

-- a request is refused and leaves the database, or the release moves under the flag and the
-- permission
pub data Outcome (user : CurrentUser) (action : ReleaseAction) (i : ℕ) (db : ReleaseDb)
    : Result (Unit {0}) × ReleaseDb → Type 0 where
  refused : (e : AppError) → Outcome user action i db (err e, db)
  moved :
      (db' : ReleaseDb)
      → feature_on db.feature ≡ true
      → has_perm user (release_perm action) ≡ true
      → Moves (some user.id) action i db db'
      → Outcome user action i db (ok tt, db')

abbrev SameReleases : ReleaseDb → ReleaseDb → Type 0
SameReleases s s' = (s'.releases ≡ s.releases) × (s'.audits ≡ s.audits)

stop_run-releases :
    (run now : ℕ) (o : Option WorkflowRun) (s : ReleaseDb) → SameReleases s (stop_run run now o s)
stop_run-releases run now none s = (refl, refl)
stop_run-releases run now (some w) s = elim (Bool-cases (run_terminal w.status)) [
  | inl e ↦ rw e (refl, refl)
  | inr e ↦ rw e (refl, refl)
]

stop_linked-releases :
    (now : ℕ) (o : Option ℕ) (s : ReleaseDb) → SameReleases s (stop_linked now o s)
unfolding stop_linked
stop_linked-releases now none s = (refl, refl)
stop_linked-releases now (some zero) s = (refl, refl)
stop_linked-releases now (some (suc n)) s = stop_run-releases (suc n) now (find s.runs (suc n)) s

or_new_workflow-releases :
    (user : CurrentUser) (o : Option (ℕ × WorkflowRow)) (s : ReleaseDb)
    → SameReleases s (or_new_workflow user o s).1
unfolding or_new_workflow
or_new_workflow-releases user none s = (refl, refl)
or_new_workflow-releases user (some w) s = (refl, refl)

trigger-releases :
    (user : CurrentUser) (i : ℕ) (r : Release) (a : ReleaseAction) (s : ReleaseDb)
    → SameReleases s (trigger_release_run user i r a s).1
unfolding trigger_release_run ensure_release_workflow start_run
trigger-releases user i r a s =
    or_new_workflow-releases user (find_workflow release_workflow_name s.workflows.rows) s

module _ (user : CurrentUser) (now i : ℕ) (db : ReleaseDb) (r : Release)
    (is : find db.releases i ≡ some r) where
  saved :
      (action : ReleaseAction) (after : Release) (s : ReleaseDb)
      → SameReleases db s
      → Edge r.status after.status action
      → Moves (some user.id) action i db (save_release (some user.id) action i after s)
  unfolding audit
  saved action after s same edge = record {
    before = r;
    after = after;
    found = is;
    edge = edge;
    releases = ap (λ t. put t i after) same.0;
    audited =
        ap
          (λ t. add t (record {
            by = some user.id;
            action = action;
            release_id = i;
            status = after.status;
            workflow_run_id = after.workflow_run_id;
          }))
          same.1;
  }

  carry_out-Moves :
      (action : ReleaseAction)
      → status_among r.status (sources action) ≡ true
      → Moves (some user.id) action i db (carry_out user now action i (shifted action r) db)
  unfolding carry_out canary_db
  carry_out-Moves ReleaseAction.canary h =
      saved ReleaseAction.canary _ _
        (trigger-releases user i (shifted ReleaseAction.canary r) ReleaseAction.canary db)
        (among-Edge ReleaseAction.canary r.status h)
  carry_out-Moves ReleaseAction.rollback h =
      saved ReleaseAction.rollback _ db (refl, refl) (among-Edge ReleaseAction.rollback r.status h)
  carry_out-Moves ReleaseAction.cancel h =
      saved ReleaseAction.cancel _ _ (stop_linked-releases now r.workflow_run_id db)
        (among-Edge ReleaseAction.cancel r.status h)
  carry_out-Moves ReleaseAction.deploy h =
      saved ReleaseAction.deploy _ db (refl, refl) (among-Edge ReleaseAction.deploy r.status h)
  carry_out-Moves ReleaseAction.promote h =
      saved ReleaseAction.promote _ db (refl, refl) (among-Edge ReleaseAction.promote r.status h)
  carry_out-Moves ReleaseAction.fail h =
      saved ReleaseAction.fail _ db (refl, refl) (among-Edge ReleaseAction.fail r.status h)

-- A request to move a release is refused and leaves the database as it was; or the feature flag is
-- on, the caller has the permission of the action, the release moves along an edge of the lifecycle
-- for that action, no other release changes, and exactly one audit row is added, with the new
-- status and run.
pub move_release-Moves :
    (user : CurrentUser) (now i : ℕ) (action : ReleaseAction) (db : ReleaseDb)
    → Outcome user action i db (request (move_release user now action i) db)
unfolding Leaves
move_release-Moves user now i action db =
    after-move (Outcome user action i db) user now i action db refused
      λ r on may is allowed. moved _ on may (carry_out-Moves user now i db r is action allowed)
