-- ===== src/Release/Traces.antt =====
-- Sequences of the requests that move releases (backend/app/services/cicd_service.py).
use lark_plat.Prelude.{
  ◌≡◌, refl, arith, ℕ, Bool, true, false, some, List, [], ◌∷◌, ◌==◌, nat_eq, Bool-cases, inl, inr,
}
use lark_plat.Errors.{Result}
use lark_plat.Session.{request, CurrentUser}
use lark_plat.Table.{find, find-put}
use lark_plat.Release.Model.{ReleaseStatus, ReleaseAction, Release, ReleaseDb}
use lark_plat.Release.Service.{move_release}
use lark_plat.Release.Lifecycle.{Edge, Outcome, move_release-Moves}

-- RELEASE_TERMINAL_STATUSES without `failed`, which can still be rolled back
abbrev pub is_over : ReleaseStatus → Bool
is_over ReleaseStatus.succeeded = true
is_over ReleaseStatus.rolled_back = true
is_over ReleaseStatus.cancelled = true
is_over _ = false

edge-live : {s s' : ReleaseStatus} {a : ReleaseAction} → Edge s s' a → is_over s ≡ false
edge-live Edge.deploys = refl
edge-live Edge.starts_canary = refl
edge-live Edge.goes_canary = refl
edge-live Edge.promotes = refl
edge-live Edge.fails_deploying = refl
edge-live Edge.fails_canary = refl
edge-live Edge.rolls_deploying = refl
edge-live Edge.rolls_canary = refl
edge-live Edge.rolls_failed = refl
edge-live Edge.cancels_pending = refl
edge-live Edge.cancels_deploying = refl
edge-live Edge.cancels_canary = refl

kept :
    (user : CurrentUser) (action : ReleaseAction) (j : ℕ) (db : ReleaseDb)
    {out : Result (Unit {0}) × ReleaseDb} (i : ℕ) (r : Release)
    → find db.releases i ≡ some r
    → is_over r.status ≡ true
    → Outcome user action j db out
    → find out.1.releases i ≡ some r
kept user action j db i r is over (Outcome.refused e) = is
kept user action j db i r is over (Outcome.moved db' on may m) =
    let live = edge-live m.edge in
    let written = find-put db.releases j i m.after {b = m.before} m.found in
    elim (Bool-cases (j == i)) [
      | inl same ↦ ground (arith, same, m.found, is, live, over)
      | inr ne ↦ ground (arith, ne, m.releases, written, is)
    ]

-- one call of the API
pub record Call : Type 0 where
  pub user : CurrentUser
  pub release : ℕ
  pub now : ℕ
  pub action : ReleaseAction

unfoldable pub move_all : List Call → ReleaseDb → ReleaseDb
move_all [] db = db
move_all (c ∷ cs) db = move_all cs (request (move_release c.user c.now c.action c.release) db).1

-- A release that has succeeded, was rolled back or was cancelled is never changed again by requests
-- to move releases, however many follow and by whomever.
pub move_all-over :
    (calls : List Call) (db : ReleaseDb) (i : ℕ) (r : Release)
    → find db.releases i ≡ some r
    → is_over r.status ≡ true
    → find (move_all calls db).releases i ≡ some r
unfolding move_all
move_all-over [] db i r is over = is
move_all-over (c ∷ cs) db i r is over =
    move_all-over cs _ i r
      (kept c.user c.action c.release db i r is over
        (move_release-Moves c.user c.now c.release c.action db))
      over
