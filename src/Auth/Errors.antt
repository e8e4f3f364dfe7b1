-- ===== src/Auth/Errors.antt =====
-- server/app/auth/errors.py: the error codes, `AuthError`, and what a call of the package may end in.
use encrypt_chat_app.Base.{Option, Text, codes, refl, some, ℕ, ◌≡◌}

pub data AuthErrorCode : Type 0 where
  invalid_credentials required token_invalid token_expired session_revoked rate_limited
        account_unavailable registration_rejected validation_failed :
      AuthErrorCode

abbrev pub value : AuthErrorCode → Text
value invalid_credentials = codes "AUTH_INVALID_CREDENTIALS"
value required = codes "AUTH_REQUIRED"
value token_invalid = codes "AUTH_TOKEN_INVALID"
value token_expired = codes "AUTH_TOKEN_EXPIRED"
value session_revoked = codes "AUTH_SESSION_REVOKED"
value rate_limited = codes "AUTH_RATE_LIMITED"
value account_unavailable = codes "AUTH_ACCOUNT_UNAVAILABLE"
value registration_rejected = codes "AUTH_REGISTRATION_REJECTED"
value validation_failed = codes "AUTH_VALIDATION_FAILED"

-- `AUTH_ERROR_DESCRIPTIONS[code]`
abbrev pub describe : AuthErrorCode → Text
describe invalid_credentials = codes "Invalid credentials."
describe required = codes "Authentication required."
describe token_invalid = codes "Authentication token is not valid."
describe token_expired = codes "Authentication token has expired."
describe session_revoked = codes "Session is no longer valid."
describe rate_limited = codes "Too many attempts. Try again later."
describe account_unavailable = codes "Account is not available."
describe registration_rejected = codes "Registration could not be completed."
describe validation_failed = codes "Request failed validation."

pub record AuthError : Type 0 where
  pub code : AuthErrorCode
  pub status_code : ℕ
  pub internal_reason : Option Text

-- `AuthError(code, internal_reason=reason)`, with the status that it has by default.
abbrev pub auth_error : AuthErrorCode → Text → AuthError
auth_error code reason = record { code = code; status_code = 401; internal_reason = some reason }

-- `AuthError(code, status_code=status, internal_reason=reason)`
abbrev pub auth_error_with : AuthErrorCode → ℕ → Text → AuthError
auth_error_with code status reason = record {
  code = code;
  status_code = status;
  internal_reason = some reason;
}

abbrev pub detail : AuthError → Text
detail e = describe e.code

-- A call returns, raises an `AuthError`, or raises an exception that the package does not foresee.
pub data Outcome (A : Type 0) : Type 0 where
  returned : A → Outcome A
  raised : AuthError → Outcome A
  crashed : Outcome A

infixl 5 ◌>>=◌
abbrev pub ◌>>=◌ : {A B : Type 0} → Outcome A → (A → Outcome B) → Outcome B
returned a >>= f = f a
raised e >>= f = raised e
crashed >>= f = crashed

pub >>=-eq-returned :
    {A B : Type 0} (m : Outcome A) (f : A → Outcome B) {b : B}
    → (m >>= f) ≡ returned b
    → (a : A) × (m ≡ returned a) × (f a ≡ returned b)
>>=-eq-returned (returned a) f h = (a, refl, h)
>>=-eq-returned (raised e) f h = cc
>>=-eq-returned crashed f h = cc
