-- ===== src/Auth/Tests/Accounts.antt =====
-- Registration, login and access tokens on the sample.
use encrypt_chat_app.Base.{
  List, [], arith, codes, erase, false, if◌then◌else◌, insert, leb, lookup, none, refl, text_eq,
  ◌*◌, ◌+◌, ◌∷◌, ◌≡◌,
}
use encrypt_chat_app.Websocket.Limits.{second}
use encrypt_chat_app.Auth.Config.{AuthConfig, default_auth_config}
use encrypt_chat_app.Auth.Config.Defaults.{IsSane, default_auth_config-IsSane}
use encrypt_chat_app.Auth.Tokens.Lifetime.{issued_claims, decode_access_token-issue_access_token}
use encrypt_chat_app.Auth.Errors.{
  crashed, invalid_credentials, token_expired, auth_error, returned, raised,
}
use encrypt_chat_app.Auth.FailedLogins
use encrypt_chat_app.Auth.FailedLogins.{
  FailedLoginTracker, is_blocked, record_failure, reset, prune, expire,
}
use encrypt_chat_app.Auth.Identifiers.{validate_username, username_pattern, valid}
use encrypt_chat_app.Auth.Passwords.{validate_policy, hash, verify, needs_rehash}
use encrypt_chat_app.Auth.Database.Memory.{any_clash, memory, memory_with}
use encrypt_chat_app.Auth.Database.Memory.Laws.{memory-IsDatabase, memory_with-IsDatabase}
use encrypt_chat_app.Auth.Tokens.{
  minutes, timestamp, decode_access_token, hash_refresh_token, refresh_expiry,
}
use encrypt_chat_app.Auth.Service.{
  IssuedCredentials, new_tracker, register, login, login_valid, login_user, open_session,
  resolve_access_token,
}
use encrypt_chat_app.Auth.Service.Registration.{register-login}
use encrypt_chat_app.Auth.Service.Login.{IsAdmitted, login-IsAdmitted, login-resolve_access_token}
use encrypt_chat_app.Auth.Service.Refusals.{IsRefusal, login-IsRefusal}
use encrypt_chat_app.Auth.Tests.Codec.{plain_jwt, plain_jwt-IsJwt, plain_argon2-IsArgon2}
use encrypt_chat_app.Websocket.Identifier.{all_identifier_chars}
use encrypt_chat_app.Auth.FailedLogins.History.{Attempt, failed, run}
use encrypt_chat_app.Auth.Service.Blocking.{IsBlocked, login-IsBlocked}
use encrypt_chat_app.Auth.Tests.Sample.{
  plain, settings, no_rows, eve, phrase, registering, logging_in, eve_row, store, eve_credentials,
  bob_token, sample_environ,
}

eve_registers :
    register plain memory settings no_rows eve phrase registering ≡ (returned eve_row, store)
unfolding register validate_username username_pattern all_identifier_chars validate_policy hash
    lookup text_eq insert any_clash
eve_registers = refl

eve_normalized : validate_username plain.unicode eve ≡ valid eve
unfolding validate_username username_pattern all_identifier_chars
eve_normalized = refl

eve_free : (is_blocked (new_tracker settings) eve (2 * second)).1 ≡ false
unfolding FailedLogins.init is_blocked prune expire lookup insert erase text_eq
eve_free = refl

phrase_accepted : validate_policy settings phrase ≡ none
unfolding validate_policy
phrase_accepted = refl

no_session : memory.session_by_id store (codes "a") ≡ none
unfolding lookup
no_session = refl

register-login_example :
    (cr : IssuedCredentials) × ((login plain memory settings
        (new_tracker settings)
        store
        eve
        phrase
        logging_in).outcome
      ≡ returned cr)
    × (cr.user_id ≡ codes "u")
    × (cr.session_id ≡ codes "a")
register-login_example =
    register-login plain memory settings (new_tracker settings) no_rows store eve phrase registering
      logging_in eve_row memory-IsDatabase plain_argon2-IsArgon2 eve_registers eve_free no_session

eve_logs_in :
    (login plain memory settings (new_tracker settings) store eve phrase logging_in).outcome
    ≡ returned eve_credentials
unfolding login login_valid login_user open_session validate_username username_pattern
    all_identifier_chars FailedLogins.init is_blocked prune expire lookup insert erase text_eq
    verify needs_rehash hash_refresh_token
eve_logs_in = refl

eve_mistypes :
    (login plain memory settings
      (new_tracker settings)
      store
      eve
      (codes "wrong")
      logging_in).outcome
    ≡ raised (auth_error invalid_credentials (codes "password mismatch"))
unfolding login login_valid login_user open_session validate_username username_pattern
    all_identifier_chars FailedLogins.init is_blocked prune expire lookup insert erase text_eq
    verify needs_rehash hash_refresh_token
eve_mistypes = refl

login-resolve_access_token_example :
    resolve_access_token plain memory settings
      (login plain memory settings (new_tracker settings) store eve phrase logging_in).db
      eve_credentials.access_token
      (3 * second)
      (3 * second)
    ≡ returned (record { user_id = codes "u"; username = eve; session_id = codes "a" })
unfolding refresh_expiry
login-resolve_access_token_example =
    login-resolve_access_token plain memory settings (new_tracker settings) store eve phrase
      logging_in eve_credentials (3 * second) (3 * second) memory-IsDatabase plain_jwt-IsJwt
      eve_logs_in (omega arith, omega arith) (omega arith)

eve_logs_in_naive :
    (login plain
      (memory_with false)
      settings
      (new_tracker settings)
      store
      eve
      phrase
      logging_in).outcome
    ≡ returned eve_credentials
unfolding login login_valid login_user open_session validate_username username_pattern
    all_identifier_chars FailedLogins.init is_blocked prune expire lookup insert erase text_eq
    verify needs_rehash hash_refresh_token
eve_logs_in_naive = refl

-- With a driver that drops the time zones, her token does not resolve.
eve_crashes :
    resolve_access_token plain
      (memory_with false)
      settings
      (login plain
        (memory_with false)
        settings
        (new_tracker settings)
        store
        eve
        phrase
        logging_in).db
      eve_credentials.access_token
      (3 * second)
      (3 * second)
    ≡ crashed
unfolding refresh_expiry
eve_crashes =
    login-resolve_access_token plain (memory_with false) settings (new_tracker settings) store eve
      phrase logging_in eve_credentials (3 * second) (3 * second) (memory_with-IsDatabase false)
      plain_jwt-IsJwt eve_logs_in_naive (omega arith, omega arith) (omega arith)

login-IsAdmitted_example :
    IsAdmitted plain memory settings
      (new_tracker settings)
      store
      (login plain memory settings (new_tracker settings) store eve phrase logging_in).db
      eve
      phrase
      logging_in
      eve_credentials
login-IsAdmitted_example =
    login-IsAdmitted plain memory settings (new_tracker settings) store eve phrase logging_in
      eve_credentials eve_logs_in

login-IsRefusal_example :
    IsRefusal
      (auth_error invalid_credentials (codes "password mismatch"))
      (login plain memory settings
        (new_tracker settings)
        store
        eve
        (codes "wrong")
        logging_in).verifications
login-IsRefusal_example =
    login-IsRefusal plain memory settings (new_tracker settings) store eve (codes "wrong")
      logging_in (auth_error invalid_credentials (codes "password mismatch")) eve_mistypes

decode_access_token-issue_access_token_example :
    decode_access_token plain_jwt settings bob_token (3 * second) ≡ (
      if leb (timestamp (2 * second + minutes 15) * second) (3 * second)
      then raised (auth_error token_expired (codes "access token expired"))
      else returned (issued_claims settings (codes "v") (codes "b") (codes "b") (2 * second)))
decode_access_token-issue_access_token_example =
    decode_access_token-issue_access_token plain_jwt settings (codes "v") (codes "b") (codes "b")
      (2 * second) (3 * second) plain_jwt-IsJwt (omega arith)

default_auth_config-IsSane_example : IsSane (default_auth_config sample_environ (codes "drawn"))
default_auth_config-IsSane_example = default_auth_config-IsSane sample_environ (codes "drawn")

-- Two failed logins are allowed.
abbrev strict : AuthConfig
strict = record settings { max_failed_logins_per_account = 2 }

abbrev eve_fails : List Attempt
eve_fails = failed eve second ∷ failed (codes "bob") second ∷ failed eve second ∷ []

login-IsBlocked_example :
    IsBlocked plain memory strict
      (login plain memory strict (run (new_tracker strict) eve_fails) store eve phrase logging_in)
      store
login-IsBlocked_example =
    login-IsBlocked plain memory strict store eve eve phrase logging_in 0 eve_fails eve_normalized
      (omega arith, (omega arith, (omega arith, tt))) (omega arith) (unfold text_eq in omega arith)
