-- ===== src/Release/Service.antt =====
-- The operations on releases of backend/app/services/cicd_service.py.
use lark_plat.Prelude.{
  ℕ, zero, suc, String, Bool, true, false, not, ◌||◌, Option, none, some, List, [], ◌∷◌, elem, ◌==◌,
  nat_eq, string_eq, if◌then◌else◌,
}
use lark_plat.Errors.{not_found, conflict, validation, Result, ok, err}
use lark_plat.Session.{
  Db, pure, lift, gets, fetch, modify, commit, require, CurrentUser, require_perm, ◌>>=◌, ◌>>◌,
}
use lark_plat.Features.{require_feature}
use lark_plat.Table.{find, put, add}
use lark_plat.Workflow.Model.{RunStatus, TriggerType, WorkflowRun, run_terminal}
use lark_plat.Release.Model.{
  ReleaseStatus, ReleaseAction, status_among, sources, goal, release_envs, Release, ReleaseDb,
}
use lark_plat.Release.Runs.{trigger_release_run}

-- _require_feature, require_perm
unfoldable pub release_gate : CurrentUser → String → Db ReleaseDb Unit
release_gate user perm = require_feature (λ (s : ReleaseDb). s.feature) >> require_perm user perm

unfoldable pub get_release_row : ℕ → Db ReleaseDb Release
get_release_row i = fetch not_found (λ (s : ReleaseDb). find s.releases i)

unfoldable pub apply_release_transition : Release → ReleaseAction → Result Release
apply_release_transition r action =
    if status_among r.status (sources action)
    then ok (record r { status = goal action })
    else err conflict

-- _audit
unfoldable pub audit : Option ℕ → ReleaseAction → ℕ → Release → ReleaseDb → ReleaseDb
audit by action i r s = record s {
  audits = add s.audits (record {
    by = by;
    action = action;
    release_id = i;
    status = r.status;
    workflow_run_id = r.workflow_run_id;
  });
}

-- the row and its audit
abbrev pub save_release : Option ℕ → ReleaseAction → ℕ → Release → ReleaseDb → ReleaseDb
save_release by action i r s = audit by action i r (record s { releases = put s.releases i r })

pub record ReleaseCreate : Type 0 where
  pub provider_id : ℕ
  pub app : String
  pub version : Option String
  pub artifact_ref : Option String
  pub env : String
  pub target_host_ids : List ℕ

-- bool(text) for an optional text
abbrev pub has_text : Option String → Bool
has_text none = false
has_text (some s) = not (s == "")

abbrev pub hosts : List ℕ → Option (List ℕ)
hosts [] = none
hosts (h ∷ hs) = some (h ∷ hs)

abbrev pub new_release : CurrentUser → ReleaseCreate → Release
new_release user c = record {
  provider_id = c.provider_id;
  app = c.app;
  version = c.version;
  artifact_ref = c.artifact_ref;
  env = c.env;
  status = ReleaseStatus.pending;
  workflow_run_id = none;
  target_host_ids = hosts c.target_host_ids;
  rolled_back_from = none;
  created_by = user.id;
}

unfoldable pub create_release : CurrentUser → ReleaseCreate → Db ReleaseDb ℕ
create_release user c = do
  release_gate user "release:add"
  require (elem c.env release_envs) validation
  require (has_text c.version || has_text c.artifact_ref) validation
  p ← fetch not_found (λ (s : ReleaseDb). find s.providers c.provider_id)
  i ← gets (λ (s : ReleaseDb). s.releases.next_id)
  modify (λ (s : ReleaseDb). record s { releases = add s.releases (new_release user c) })
  commit
  pure i

-- the row of a canary, which points to a run of its own
abbrev pub with_run : ℕ → Release → Release
with_run run r = record r { workflow_run_id = some run }

-- the commits that _ensure_release_workflow and _start_run make on the way are not kept apart from
-- the last one, since nothing raises between them
unfoldable pub canary_db : CurrentUser → ℕ → Release → ReleaseDb → ReleaseDb
canary_db user i r s =
    let (run, s') = trigger_release_run user i r ReleaseAction.canary s in
    save_release (some user.id) ReleaseAction.canary i (with_run run r) s'

abbrev pub from_run : Release → Release
from_run r = record r { rolled_back_from = r.workflow_run_id }

-- `if run is not None and run.status not in TERMINAL_RUN_STATUSES`
abbrev pub stop_run : ℕ → ℕ → Option WorkflowRun → ReleaseDb → ReleaseDb
stop_run run now none s = s
stop_run run now (some w) s = if run_terminal w.status then s else record s {
  runs = put s.runs run (record w { status = RunStatus.cancelled; finished_at = some now });
}

-- `if r.workflow_run_id:`
unfoldable pub stop_linked : ℕ → Option ℕ → ReleaseDb → ReleaseDb
stop_linked now none s = s
stop_linked now (some zero) s = s
stop_linked now (some (suc n)) s = stop_run (suc n) now (find s.runs (suc n)) s

-- the columns that the action sets on the moved row, and the rest of its writes
unfoldable pub carry_out : CurrentUser → ℕ → ReleaseAction → ℕ → Release → ReleaseDb → ReleaseDb
carry_out user now ReleaseAction.canary i r s = canary_db user i r s
carry_out user now ReleaseAction.rollback i r s =
    save_release (some user.id) ReleaseAction.rollback i (from_run r) s
carry_out user now ReleaseAction.cancel i r s =
    save_release (some user.id) ReleaseAction.cancel i r (stop_linked now r.workflow_run_id s)
carry_out user now action i r s = save_release (some user.id) action i r s

abbrev pub release_perm : ReleaseAction → String
release_perm ReleaseAction.deploy = "release:deploy"
release_perm ReleaseAction.canary = "release:canary"
release_perm ReleaseAction.promote = "release:promote"
release_perm ReleaseAction.fail = "release:fail"
release_perm ReleaseAction.rollback = "release:rollback"
release_perm ReleaseAction.cancel = "release:cancel"

-- deploy_release, canary_release, promote_release, fail_release, rollback_release, cancel_release
unfoldable pub move_release : CurrentUser → ℕ → ReleaseAction → ℕ → Db ReleaseDb Unit
move_release user now action i = do
  release_gate user (release_perm action)
  r ← get_release_row i
  moved ← lift (apply_release_transition r action)
  modify (carry_out user now action i moved)
  commit
  pure tt

unfoldable pub find_by_run : ℕ → List (ℕ × Release) → Option (ℕ × Release)
find_by_run run [] = none
find_by_run run ((i, r) ∷ rs) =
    let rest = find_by_run run rs in
    elim r.workflow_run_id [ some k ↦ if k == run then some (i, r) else rest | none ↦ rest ]

abbrev pub fail_found : Option (ℕ × Release) → ReleaseDb → Bool × ReleaseDb
fail_found none s = (false, s)
fail_found (some (i, r)) s =
    if status_among r.status (sources ReleaseAction.fail)
    then (
      true,
      save_release none ReleaseAction.fail i (record r { status = goal ReleaseAction.fail }) s,
    )
    else (false, s)

abbrev pub is_release : TriggerType → Bool
is_release TriggerType.release = true
is_release _ = false

-- fail_release_for_run; the engine commits
unfoldable pub fail_release_for_run : WorkflowRun → ReleaseDb → Bool × ReleaseDb
fail_release_for_run run s =
    let found = fail_found (find_by_run run.run_id s.releases.rows) s in
    if is_release run.trigger_type then found else (false, s)
