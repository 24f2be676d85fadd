-- ===== src/AppError.antt =====
-- The error type of the services (server-rs/src/error.rs) and the results that carry it.
use Prim.Native.String.{String}
use verdant_backend.Prelude.{ℕ, ◌≡◌, refl, ◌⊎◌, inl, inr, Option, none, some}

-- `Internal` and the others as in the source; a `StatusCode` is its number.
pub data AppError : Type 0 where
  invalid_credentials token_required token_invalid token_revoked refresh_required : AppError
  registration_failed : String → AppError
  not_found : String → AppError
  forbidden not_member missing_permission cannot_send_messages : AppError
  validation : String → AppError
  no_changes rate_limited internal : AppError
  with_code : (status : ℕ) (code message : String) → AppError

pub data AppResult {ℓ} (A : Type ℓ) : Type ℓ where
  ok : A → AppResult A
  err : AppError → AppResult A

infixl 5 ◌>>=◌ ◌>>◌
abbrev pub ◌>>=◌ {ℓ κ} : {A : Type ℓ} {B : Type κ} → AppResult A → (A → AppResult B) → AppResult B
ok a >>= f = f a
err e >>= f = err e

abbrev pub ◌>>◌ {ℓ} : {B : Type ℓ} → AppResult (Unit {0}) → AppResult B → AppResult B
m >> k = m >>= λ _. k

-- `o.ok_or(e)?`.
abbrev pub ok_or {ℓ} : {A : Type ℓ} → AppError → Option A → AppResult A
ok_or e none = err e
ok_or e (some a) = ok a

-- `r.map_err(|_| e)?`.
abbrev pub map_err {ℓ} : {A : Type ℓ} → AppError → AppResult A → AppResult A
map_err e (ok a) = ok a
map_err e (err _) = err e

unfoldable pub status_and_code : AppError → ℕ × String
status_and_code AppError.invalid_credentials = (401, "AUTH_INVALID_CREDENTIALS")
status_and_code AppError.token_required = (401, "AUTH_TOKEN_REQUIRED")
status_and_code AppError.token_invalid = (401, "AUTH_TOKEN_INVALID")
status_and_code AppError.token_revoked = (401, "AUTH_TOKEN_REVOKED")
status_and_code AppError.refresh_required = (401, "AUTH_REFRESH_REQUIRED")
status_and_code (AppError.registration_failed _) = (400, "AUTH_REGISTRATION_FAILED")
status_and_code (AppError.not_found _) = (404, "NOT_FOUND")
status_and_code AppError.forbidden = (403, "PERMISSION_MISSING")
status_and_code AppError.not_member = (403, "PERMISSION_NOT_MEMBER")
status_and_code AppError.missing_permission = (403, "PERMISSION_MISSING")
status_and_code AppError.cannot_send_messages = (403, "PERMISSION_SEND_MESSAGES")
status_and_code (AppError.validation _) = (400, "VALIDATION_FAILED")
status_and_code AppError.no_changes = (400, "VALIDATION_NO_CHANGES")
status_and_code AppError.rate_limited = (429, "RATE_LIMITED")
status_and_code AppError.internal = (500, "INTERNAL_ERROR")
status_and_code (AppError.with_code status code _) = (status, code)

pub AppResult-cases {ℓ} :
    {A : Type ℓ} (r : AppResult A) → ((a : A) × (r ≡ ok a)) ⊎ ((e : AppError) × (r ≡ err e))
AppResult-cases (ok a) = inl (a, refl)
AppResult-cases (err e) = inr (e, refl)
