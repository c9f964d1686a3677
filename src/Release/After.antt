-- ===== src/Release/After.antt =====
-- What an operation of backend/app/services/cicd_service.py answers and leaves.
use lark_plat.Prelude.{◌≡◌, refl, ℕ, String, Bool, true, false, some, if◌then◌else◌}
use lark_plat.Errors.{AppError, bad_request, Result, ok, err}
use lark_plat.Session.{Db, CurrentUser, has_perm, require_perm, lift, ◌>>=◌, ◌>>◌}
use lark_plat.Session.After.{
  Leaves, after-require, after-require_perm, after-write, after-fetch, after-both,
}
use lark_plat.Features.{feature_on, require_feature}
use lark_plat.Table.{find}
use lark_plat.Release.Model.{ReleaseAction, status_among, sources, goal, Release, ReleaseDb}
use lark_plat.Release.Service.{
  release_gate, get_release_row, apply_release_transition, carry_out, release_perm, move_release,
}

-- the row once the transition is applied
abbrev pub shifted : ReleaseAction → Release → Release
shifted action r = record r { status = goal action }

module _ {A : Type 0} (P : Result A × ReleaseDb → Type 0) (db : ReleaseDb) where
  pub after-feature :
      (m : Db ReleaseDb A)
      → ((e : AppError) → P (err e, db))
      → (feature_on db.feature ≡ true → Leaves P m db)
      → Leaves P (require_feature (λ (s : ReleaseDb). s.feature) >> m) db
  unfolding Leaves require_feature ◌>>=◌
  after-feature m h k = after-require P db (feature_on db.feature) bad_request m h k

  pub after-release_gate :
      (user : CurrentUser) (perm : String) (m : Db ReleaseDb A)
      → ((e : AppError) → P (err e, db))
      → (feature_on db.feature ≡ true → has_perm user perm ≡ true → Leaves P m db)
      → Leaves P (release_gate user perm >> m) db
  unfolding release_gate
  after-release_gate user perm m h k = after-both P db _ _ m (
      after-feature (require_perm user perm >> m) h
        λ on. after-require_perm P db user perm m h λ may. k on may)

  chosen :
      (b : Bool) (r : Release) (e : AppError) (k : Release → Db ReleaseDb A)
      → ((e : AppError) → P (err e, db))
      → (b ≡ true → Leaves P (k r) db)
      → Leaves P (lift (if b then ok r else err e) >>= k) db
  unfolding Leaves ◌>>=◌
  chosen true r e k h g = g refl
  chosen false r e k h g = h e

  after-shift :
      (r : Release) (action : ReleaseAction) (k : Release → Db ReleaseDb A)
      → ((e : AppError) → P (err e, db))
      → (status_among r.status (sources action) ≡ true → Leaves P (k (shifted action r)) db)
      → Leaves P (lift (apply_release_transition r action) >>= k) db
  unfolding apply_release_transition
  after-shift r action k h g = chosen (status_among r.status (sources action)) _ _ k h g

pub after-move :
    (P : Result (Unit {0}) × ReleaseDb → Type 0) (user : CurrentUser) (now i : ℕ)
    (action : ReleaseAction) (db : ReleaseDb)
    → ((e : AppError) → P (err e, db))
    → ((r : Release)
        → feature_on db.feature ≡ true
        → has_perm user (release_perm action) ≡ true
        → find db.releases i ≡ some r
        → status_among r.status (sources action) ≡ true
        → P (ok tt, carry_out user now action i (shifted action r) db))
    → Leaves P (move_release user now action i) db
unfolding move_release get_release_row
after-move P user now i action db h k = after-release_gate P db user _ _ h λ on may.
    after-fetch P db _ _ _ (h _)
      λ r is. after-shift P db r _ _ h λ allowed. after-write P db _ _ (k r on may is allowed)
