-- ===== src/Errors.antt =====
-- The error hierarchy of backend/app/core/exceptions.py, and the result of a function that may raise.
use lark_plat.Prelude.{ℕ, Bool, ◌≡◌, refl, if◌then◌else◌}

-- one constructor for each exception class, and `internal` for any other Python exception
pub data AppError : Type 0 where
  bad_request unauthorized forbidden not_found conflict validation rate_limit business : AppError
  internal : AppError

-- `http_status`
pub http_status : AppError → ℕ
http_status bad_request = 400
http_status unauthorized = 401
http_status forbidden = 403
http_status not_found = 404
http_status conflict = 409
http_status validation = 422
http_status rate_limit = 429
http_status business = 400
http_status internal = 500

pub data Result {ℓ} (A : Type ℓ) : Type ℓ where
  err : AppError → Result A
  ok : A → Result A

-- raise unless the test holds
abbrev pub require : Bool → AppError → Result (Unit {0})
require holds e = if holds then ok tt else err e

infixl 10 ◌>>=◌ ◌>>◌
abbrev pub ◌>>=◌ {ℓ κ} : {A : Type ℓ} → {B : Type κ} → Result A → (A → Result B) → Result B
err e >>= k = err e
ok x >>= k = k x

abbrev pub ◌>>◌ {ℓ κ} : {A : Type ℓ} → {B : Type κ} → Result A → Result B → Result B
r >> rest = r >>= λ x. rest

-- a block that returns has a first part that returns
pub >>=-eq-ok {ℓ κ} :
    {A : Type ℓ}
    → {B : Type κ} → (r : Result A) → (k : A → Result B) → {y : B} → (r >>= k) ≡ ok y
    → (x : A) × (r ≡ ok x) × (k x ≡ ok y)
>>=-eq-ok (err e) k returns = cc
>>=-eq-ok (ok x) k returns = (x, refl, returns)
