-- ===== src/Features/After.antt =====
-- What a request answers and leaves that starts with the test of a feature flag and a permission.
use lark_plat.Prelude.{◌≡◌, String, true, Option}
use lark_plat.Json.{Json}
use lark_plat.Errors.{AppError, bad_request, Result, err}
use lark_plat.Session.{Db, CurrentUser, has_perm, require_perm, ◌>>=◌, ◌>>◌}
use lark_plat.Session.After.{Leaves, after-require, after-require_perm, after-both}
use lark_plat.Features.{feature_on, require_feature}

module _ {S A : Type 0} (P : Result A × S → Type 0) (db : S) (flag : S → Option Json) where
  pub after-require_feature :
      (m : Db S A)
      → ((e : AppError) → P (err e, db))
      → (feature_on (flag db) ≡ true → Leaves P m db)
      → Leaves P (require_feature flag >> m) db
  unfolding Leaves require_feature ◌>>=◌
  after-require_feature m h k = after-require P db (feature_on (flag db)) bad_request m h k

  -- the flag, and then the permission
  pub after-feature_gate :
      (user : CurrentUser) (perm : String) (m : Db S A)
      → ((e : AppError) → P (err e, db))
      → (feature_on (flag db) ≡ true → has_perm user perm ≡ true → Leaves P m db)
      → Leaves P ((require_feature flag >> require_perm user perm) >> m) db
  after-feature_gate user perm m h k = after-both P db _ _ m (
      after-require_feature (require_perm user perm >> m) h
        λ on. after-require_perm P db user perm m h λ may. k on may)
