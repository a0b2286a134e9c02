-- ===== src/Errors.antt =====
-- Exceptions as values: the classes of app/core/errors.py, `RateLimitExceededError` of
-- app/core/rate_limit.py, and the exceptions of Python, SQLAlchemy and FastAPI that the code
-- raises or catches. `Result` is the outcome of a call.
use ch_tech_landing_page_bac.Base.{ℕ, Option, none, some, List, [], ◌∷◌, String, ◌≡◌, refl}

pub data Error : Type 0 where
  resource_not_found conflict unauthorized forbidden : String → Error
  rate_limit_exceeded : ℕ → Error
  value_error overflow_error invalid_token_error database_error : Error
  integrity_error multiple_results_found no_result_found request_validation_error http_error : Error

-- The fields that `AppError.__init__` sets.
pub record AppError : Type 0 where
  pub status_code : ℕ
  pub code : String
  pub message : String

abbrev app_fields : ℕ → String → String → Option AppError
app_fields s c m = some (record { status_code = s; code = c; message = m })

-- Which exceptions are an `AppError`, and with which fields.
unfoldable pub app_error : Error → Option AppError
app_error (resource_not_found m) = app_fields 404 "RESOURCE_NOT_FOUND" m
app_error (conflict m) = app_fields 409 "CONFLICT" m
app_error (unauthorized m) = app_fields 401 "UNAUTHORIZED" m
app_error (forbidden m) = app_fields 403 "FORBIDDEN" m
app_error (rate_limit_exceeded _) = app_fields 429 "RATE_LIMIT_EXCEEDED" "Too many requests"
app_error value_error = none
app_error overflow_error = none
app_error invalid_token_error = none
app_error database_error = none
app_error integrity_error = none
app_error multiple_results_found = none
app_error no_result_found = none
app_error request_validation_error = none
app_error http_error = none

pub data Result {ℓ} (A : Type ℓ) : Type ℓ where
  ok : A → Result A
  err : Error → Result A

infixl 5 ◌>>=◌
abbrev pub ◌>>=◌ {ℓ κ} : {A : Type ℓ} {B : Type κ} → Result A → (A → Result B) → Result B
ok a >>= f = f a
err e >>= f = err e

-- `[f(x) for x in xs]`, where `f` may raise.
abbrev pub traverse {ℓ κ} : {A : Type ℓ} {B : Type κ} → (A → Result B) → List A → Result (List B)
traverse f [] = ok []
traverse f (x ∷ xs) = f x >>= λ y. traverse f xs >>= λ ys. ok (y ∷ ys)

-- `f(x) if x is not None else None`
abbrev pub optional {ℓ κ} :
    {A : Type ℓ} {B : Type κ} → (A → Result B) → Option A → Result (Option B)
optional f none = ok none
optional f (some x) = f x >>= λ y. ok (some y)

-- A chain returns only if its first part does.
pub bind_ok {ℓ κ} :
    {A : Type ℓ} {B : Type κ} (r : Result A) (f : A → Result B) (b : B)
    → r >>= f ≡ ok b
    → (a : A) × (r ≡ ok a) × (f a ≡ ok b)
bind_ok (ok a) f b e = (a, refl, e)
bind_ok (err x) f b e = absurd (cc)
