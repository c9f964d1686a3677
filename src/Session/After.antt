-- ===== src/Session/After.antt =====
-- What a request answers and leaves in the database, one rule for each way to build it. `P` is a
-- property of the answer and of the database that is left; a request that raises before it commits
-- leaves the database it found.
use lark_plat.Prelude.{◌≡◌, refl, Bool, true, false, Option, none, some, if◌then◌else◌}
use lark_plat.Errors.{AppError, Result, ok, err}
use lark_plat.Session.{
  Session, Db, pure, lift, gets, or_raise, fetch, modify, write, written, commit, require, request,
  CurrentUser, has_perm, require_perm, ◌>>=◌, ◌>>◌,
}

-- `P` holds of what the request answers and of what it leaves
unfoldable pub Leaves : {S A : Type 0} → (Result A × S → Type 0) → Db S A → S → Type 0
Leaves P m db = P (request m db)

module _ {S A : Type 0} (P : Result A × S → Type 0) (db : S) where
  pub after-require :
      (b : Bool) (e : AppError) (m : Db S A)
      → ((e : AppError) → P (err e, db))
      → (b ≡ true → Leaves P m db)
      → Leaves P (require b e >> m) db
  unfolding Leaves ◌>>=◌
  after-require true e m h k = k refl
  after-require false e m h k = h e

  pub after-require_perm :
      (user : CurrentUser) (perm : _) (m : Db S A)
      → ((e : AppError) → P (err e, db))
      → (has_perm user perm ≡ true → Leaves P m db)
      → Leaves P (require_perm user perm >> m) db
  unfolding require_perm
  after-require_perm user perm m h k = after-require (has_perm user perm) _ m h k

  pub after-write :
      (f : S → S) (a : A) → P (ok a, f db) → Leaves P (modify f >> (commit >> pure a)) db
  unfolding Leaves ◌>>=◌
  after-write f a h = h

  after-written :
      (r : Result S) (a : A)
      → ((e : AppError) → P (err e, db))
      → ((next : S) → r ≡ ok next → P (ok a, next))
      → Leaves P ((λ s. written s r) >> (commit >> pure a)) db
  unfolding Leaves ◌>>=◌
  after-written (ok next) a h k = k next refl
  after-written (err e) a h k = h e

  pub after-flush :
      (f : S → Result S) (a : A)
      → ((e : AppError) → P (err e, db))
      → ((next : S) → f db ≡ ok next → P (ok a, next))
      → Leaves P (write f >> (commit >> pure a)) db
  unfolding Leaves ◌>>=◌
  after-flush f a h k = after-written (f db) a h k

  pub after-if :
      (b : Bool) (n₁ n₂ : Db S Unit) (m : Db S A)
      → (b ≡ true → Leaves P (n₁ >> m) db)
      → (b ≡ false → Leaves P (n₂ >> m) db)
      → Leaves P ((if b then n₁ else n₂) >> m) db
  after-if true n₁ n₂ m h k = h refl
  after-if false n₁ n₂ m h k = k refl

  -- a step that does nothing
  pub after-skip : (m : Db S A) → Leaves P m db → Leaves P (pure tt >> m) db
  unfolding Leaves ◌>>=◌
  after-skip m h = h

  pub after-pure : (a : A) → P (ok a, db) → Leaves P (pure a) db
  unfolding Leaves pure
  after-pure a h = h

module _ {S A : Type 0} (P : Result A × S → Type 0) (db : S) where
  nested :
      (r : Result Unit) (s : Session S) (b : Db S Unit) (m : Db S A)
      → Leaves P ((λ x. (r, s)) >> (b >> m)) db
      → Leaves P (((λ x. (r, s)) >> b) >> m) db
  unfolding Leaves ◌>>=◌
  nested (ok u) s b m h = h
  nested (err e) s b m h = h

  -- two steps in one
  pub after-both :
      (a b : Db S Unit) (m : Db S A) → Leaves P (a >> (b >> m)) db → Leaves P ((a >> b) >> m) db
  unfolding Leaves ◌>>=◌
  after-both a b m h =
      nested (a (record { live = db; saved = db })).0 (a (record { live = db; saved = db })).1 b m h

module _ {S : Type 0} (P : Result Unit × S → Type 0) (db : S) where
  pub after-save : (f : S → S) → P (ok tt, f db) → Leaves P (modify f >> commit) db
  unfolding Leaves ◌>>=◌
  after-save f h = h

  saved_if :
      (r : Result S)
      → ((e : AppError) → P (err e, db))
      → ((next : S) → r ≡ ok next → P (ok tt, next))
      → Leaves P ((λ s. written s r) >> commit) db
  unfolding Leaves ◌>>=◌
  saved_if (ok next) h k = k next refl
  saved_if (err e) h k = h e

  pub after-written_save :
      (f : S → Result S)
      → ((e : AppError) → P (err e, db))
      → ((next : S) → f db ≡ ok next → P (ok tt, next))
      → Leaves P (write f >> commit) db
  unfolding Leaves ◌>>=◌
  after-written_save f h k = saved_if (f db) h k

module _ {S A B : Type 0} (P : Result A × S → Type 0) (db : S) where
  pub after-gets :
      (f : S → B) (k : B → Db S A) → Leaves P (k (f db)) db → Leaves P (gets f >>= k) db
  unfolding Leaves ◌>>=◌
  after-gets f k h = h

  found :
      (e : AppError) (x : Option B) (k : B → Db S A)
      → P (err e, db)
      → ((b : B) → x ≡ some b → Leaves P (k b) db)
      → Leaves P ((λ s. or_raise e s x) >>= k) db
  unfolding Leaves ◌>>=◌
  found e none k h g = h
  found e (some b) k h g = g b refl

  pub after-fetch :
      (e : AppError) (f : S → Option B) (k : B → Db S A)
      → P (err e, db)
      → ((b : B) → f db ≡ some b → Leaves P (k b) db)
      → Leaves P (fetch e f >>= k) db
  unfolding Leaves ◌>>=◌
  after-fetch e f k h g = found e (f db) k h g

  pub after-lift :
      (r : Result B) (k : B → Db S A)
      → ((e : AppError) → P (err e, db))
      → ((b : B) → r ≡ ok b → Leaves P (k b) db)
      → Leaves P (lift r >>= k) db
  unfolding Leaves ◌>>=◌
  after-lift (ok b) k h g = g b refl
  after-lift (err e) k h g = h e
