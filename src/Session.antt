-- ===== src/Session.antt =====
-- The SQLAlchemy session of a request (backend/app/db/session.py) and the caller
-- (backend/app/api/deps.py).
-- An operation runs against the session's view of the database. `commit` makes the view durable,
-- and the end of the request, `db.close()`, drops what was not committed.
pub mod After
use lark_plat.Errors.{AppError, forbidden, Result, ok, err}
use lark_plat.Prelude.{ℕ, String, Bool, true, ◌||◌, Option, none, some, List, elem, if◌then◌else◌}

-- what the session shows, and what a new session would show
pub record Session {ℓ} (S : Type ℓ) : Type ℓ where
  pub live : S
  pub saved : S

abbrev pub Db {ℓ} : Type ℓ → Type ℓ → Type ℓ
Db S A = Session S → Result A × Session S

module _ {ℓ} {S A : Type ℓ} where
  unfoldable pub pure : A → Db S A
  pure a s = (ok a, s)

  unfoldable pub raise : AppError → Db S A
  raise e s = (err e, s)

  unfoldable pub lift : Result A → Db S A
  lift r s = (r, s)

  -- a computation over what the session shows, which may raise
  unfoldable pub query : (S → Result A) → Db S A
  query f s = (f s.live, s)

  -- a query
  unfoldable pub gets : (S → A) → Db S A
  gets f s = (ok (f s.live), s)

  abbrev pub or_raise : AppError → Session S → Option A → Result A × Session S
  or_raise e s none = (err e, s)
  or_raise e s (some a) = (ok a, s)

  -- a query that must find a row
  unfoldable pub fetch : AppError → (S → Option A) → Db S A
  fetch e f s = or_raise e s (f s.live)

module _ {S : Type 0} where
  abbrev pub written : Session S → Result S → Result (Unit {0}) × Session S
  written s (ok next) = (ok tt, record s { live = next })
  written s (err e) = (err e, s)

  -- a write through the session
  unfoldable pub modify : (S → S) → Db S Unit
  modify f s = (ok tt, record s { live = f s.live })

  -- a write that a constraint of the database may refuse
  unfoldable pub write : (S → Result S) → Db S Unit
  write f s = written s (f s.live)

  -- db.commit()
  unfoldable pub commit : Db S Unit
  commit s = (ok tt, record { live = s.live; saved = s.live })

  -- db.rollback()
  unfoldable pub rollback : Db S Unit
  rollback s = (ok tt, record { live = s.saved; saved = s.saved })

  -- raise unless the test holds
  unfoldable pub require : Bool → AppError → Db S Unit
  require b e s = if b then (ok tt, s) else (err e, s)

module _ {ℓ} {S A B : Type ℓ} where
  abbrev pub continue : Result A → (A → Db S B) → Db S B
  continue (ok a) f s = f a s
  continue (err e) f s = (err e, s)

  infixl 10 ◌>>=◌ ◌>>◌
  -- opening this opens the actions above too
  unfoldable pub ◌>>=◌ : Db S A → (A → Db S B) → Db S B
  unfolding pure raise lift query gets fetch modify write commit rollback require
  ◌>>=◌ m f s = let (r, s') = m s in continue r f s'

  abbrev pub ◌>>◌ : Db S A → Db S B → Db S B
  m >> n = m >>= λ _. n

-- One request: a session on the database, and what is left in the database when it is closed.
abbrev pub request {ℓ} : {S A : Type ℓ} → Db S A → S → Result A × S
request m db = let (r, s) = m (record { live = db; saved = db }) in (r, s.saved)

pub record CurrentUser : Type 0 where
  pub id : ℕ
  pub username : String
  pub is_admin : Bool
  pub permissions : List String
  pub visible_group_ids : List ℕ

unfoldable pub has_perm : CurrentUser → String → Bool
has_perm u code = u.is_admin || elem code u.permissions

unfoldable pub require_perm : {S : Type 0} → CurrentUser → String → Db S Unit
require_perm u code = require (has_perm u code) forbidden
