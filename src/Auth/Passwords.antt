-- ===== src/Auth/Passwords.antt =====
-- server/app/auth/password.py: `PasswordHashing` over argon2-cffi, which is a parameter, as is NFKC.
use encrypt_chat_app.Base.{
  Bool, Option, Text, codes, if◌then◌else◌, ltb, none, some, true, utf8_length, ℕ, ◌++◌, ◌≡◌,
}
use encrypt_chat_app.Environ.{is_empty}
use encrypt_chat_app.Auth.Config.{AuthConfig}
use encrypt_chat_app.Auth.Identifiers.{Unicode}

-- The arguments of `PasswordHasher`.
pub record Parameters : Type 0 where
  pub time_cost : ℕ
  pub memory_cost : ℕ
  pub parallelism : ℕ

-- `PasswordHasher`: `hash` with the salt that it draws, `verify` with false for the errors that
-- `verify` below catches, and `check_needs_rehash` with none for an `InvalidHashError`.
pub record Argon2 : Type 0 where
  pub hash : Parameters → Text → Text → Text
  pub verify : Text → Text → Bool
  pub check_needs_rehash : Parameters → Text → Option Bool

-- A hash verifies the password that it was made from.
pub record IsArgon2 (a : Argon2) : Type 0 where
  pub verify-hash :
      (p : Parameters) (salt password : Text) → a.verify (a.hash p salt password) password ≡ true

-- The reasons of `PasswordPolicyError`.
pub data PasswordPolicyError : Type 0 where
  is_blank too_short too_long : PasswordPolicyError

-- The reason that the exception carries; `print` writes a number.
abbrev pub reason : (ℕ → Text) → AuthConfig → PasswordPolicyError → Text
reason print c is_blank = codes "password must not be empty"
reason print c too_short =
    codes "password must be at least " ++ (print c.min_password_length ++ codes " bytes")
reason print c too_long =
    codes "password must be at most " ++ (print c.max_password_length ++ codes " bytes")

abbrev pub parameters : AuthConfig → Parameters
parameters c = record {
  time_cost = c.argon2_time_cost;
  memory_cost = c.argon2_memory_cost_kib;
  parallelism = c.argon2_parallelism;
}

-- The error that it raises, if any.
unfoldable pub validate_policy : AuthConfig → Text → Option PasswordPolicyError
validate_policy c password =
    if is_empty password
    then some is_blank
    else if ltb (utf8_length password) c.min_password_length
    then some too_short
    else if ltb c.max_password_length (utf8_length password)
    then some too_long
    else none

-- `PasswordHashing(config)`, its methods under their names.
module _ (u : Unicode) (a : Argon2) (c : AuthConfig) where
  unfoldable pub hash : Text → Text → Text
  hash salt password = a.hash (parameters c) salt (u.nfkc password)

  unfoldable pub verify : Text → Text → Bool
  verify stored_hash password = a.verify stored_hash (u.nfkc password)

  unfoldable pub needs_rehash : Text → Bool
  needs_rehash stored_hash = elim (a.check_needs_rehash (parameters c) stored_hash) [
    | none ↦ true
    | some outdated ↦ outdated
  ]

-- `dummy_verify` runs one verification and has no other effect: it counts as one.
abbrev pub dummy_verify : ℕ
dummy_verify = 1
