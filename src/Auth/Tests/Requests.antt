-- ===== src/Auth/Tests/Requests.antt =====
-- Requests to the sample.
use encrypt_chat_app.Base.{
  All, Option, Text, [], codes, erase, insert, lookup, none, refl, some, text_eq, text_neq, true, ℕ,
  ◌*◌, ◌++◌, ◌∷◌, ◌≡◌, ◌≢◌,
}
use encrypt_chat_app.Websocket.Limits.{second}
use encrypt_chat_app.Auth.Errors.{returned, raised, auth_error, invalid_credentials}
use encrypt_chat_app.Auth.Database.Memory.{memory}
use encrypt_chat_app.Auth.Database.Memory.Laws.{memory-IsDatabase}
use encrypt_chat_app.Auth.Tokens.{
  issue_access_token, decode_access_token, check_claims, refresh_expiry,
}
use encrypt_chat_app.Auth.Repository.{session_revoke}
use encrypt_chat_app.Auth.Dependencies.{
  Strings, space, partition_space, extract_bearer_token, get_current_identity,
}
use encrypt_chat_app.Auth.Dependencies.Bearer.{extract_bearer_token-append}
use encrypt_chat_app.Auth.Responses.{model, response, Framework, IsFramework}
use encrypt_chat_app.Auth.Routes.{
  Application, Kept, post_login, post_logout, get_session, Circumstances, current_session,
  no_content, identity, logout, serve, serve_all,
}
use encrypt_chat_app.Auth.Routes.Uniform.{serve_uniform}
use encrypt_chat_app.Auth.Routes.Sessions.{logout-serve_all}
use encrypt_chat_app.Auth.Routes.Cookies.{IsRestricted, serve-IsRestricted, logout-cookies}
use encrypt_chat_app.Auth.FailedLogins
use encrypt_chat_app.Auth.FailedLogins.{is_blocked, prune, expire}
use encrypt_chat_app.Auth.Identifiers.{validate_username, username_pattern}
use encrypt_chat_app.Auth.Passwords.{verify, needs_rehash}
use encrypt_chat_app.Auth.Tokens.{hash_refresh_token}
use encrypt_chat_app.Websocket.Identifier.{all_identifier_chars}
use encrypt_chat_app.Auth.Schemas.{accepts_credentials}
use encrypt_chat_app.Auth.Service.{
  login_valid, login_user, open_session, Draws, new_tracker, resolve_access_token,
}
use encrypt_chat_app.Auth.Service
use encrypt_chat_app.Auth.Tests.Sample.{
  no_rows, plain, settings, moment, eve, phrase, both, bob_token, bob, eve_identity,
}

abbrev simple : Framework
simple = record {
  respond = λ h. elim h [
    | model status_code body injected ↦ record {
      status_code = status_code;
      content = some body;
      cookies = injected;
    }
    | response own injected ↦ own
  ];
  unprocessable = record { status_code = 422; content = none; cookies = [] };
  internal_error = record { status_code = 500; content = none; cookies = [] };
}

simple-IsFramework : IsFramework simple
simple-IsFramework = record {
  respond_model = λ s b i. refl;
  respond_own = λ r i. refl;
  unprocessable_cookies = refl;
  internal_error_cookies = refl;
}

abbrev as_written : Strings
as_written = record { strip = λ s. s; lower = λ s. s }

abbrev chat : Application
chat = record {
  libraries = plain;
  database = memory;
  config = settings;
  strings = as_written;
  framework = simple;
  secure = true;
}

abbrev kept : Kept chat
kept = record { failed_logins = new_tracker settings; db = both }

abbrev kept_empty : Kept chat
kept_empty = record { failed_logins = new_tracker settings; db = no_rows }

abbrev moment_of : ℕ → Text → Circumstances
moment_of now drawn = record { admitted = true; decoded_at = now; draws = moment now drawn }

abbrev eve_token : Text
eve_token = issue_access_token plain.jwt settings (codes "u") (codes "a") (codes "a") (2 * second)

abbrev header_of : Text → Option Text
header_of token = some (codes "bearer" ++ space ∷ token)

extract_bearer_token-append_example :
    extract_bearer_token as_written (some (codes "bearer" ++ space ∷ codes "abc"))
    ≡ returned (codes "abc")
extract_bearer_token-append_example =
    extract_bearer_token-append as_written 98 (codes "earer") (codes "abc")
      (refl, (refl, (refl, (refl, (refl, (refl, tt)))))) refl refl
      (text_neq (codes "abc") [] (unfold text_eq in refl))

eve_mistypes :
    (Service.login plain memory settings
      (new_tracker settings)
      both
      eve
      (codes "wrong")
      (moment (3 * second) (codes "c"))).outcome
    ≡ raised (auth_error invalid_credentials (codes "password mismatch"))
unfolding Service.login login_valid login_user open_session validate_username username_pattern
    all_identifier_chars FailedLogins.init is_blocked prune expire lookup insert erase text_eq
    verify needs_rehash hash_refresh_token
eve_mistypes = refl

eve_unknown :
    (Service.login plain memory settings
      (new_tracker settings)
      no_rows
      eve
      phrase
      (moment (3 * second) (codes "c"))).outcome
    ≡ raised (auth_error invalid_credentials (codes "unknown account"))
unfolding Service.login login_valid login_user open_session validate_username username_pattern
    all_identifier_chars FailedLogins.init is_blocked prune expire lookup insert erase text_eq
    verify needs_rehash hash_refresh_token
eve_unknown = refl

serve_uniform_example :
    ((serve chat kept (post_login eve (codes "wrong")) (moment_of (3 * second) (codes "c"))).0
      ≡ (serve chat kept_empty (post_login eve phrase) (moment_of (3 * second) (codes "c"))).0)
    × ((serve chat kept
          (post_login eve (codes "wrong"))
          (moment_of (3 * second) (codes "c"))).1.failed_logins
        ≡ (serve chat kept_empty
            (post_login eve phrase)
            (moment_of (3 * second) (codes "c"))).1.failed_logins)
unfolding accepts_credentials
serve_uniform_example =
    serve_uniform chat (new_tracker settings) both no_rows eve (codes "wrong") phrase
      (moment_of (3 * second) (codes "c"))
      (auth_error invalid_credentials (codes "password mismatch"))
      (auth_error invalid_credentials (codes "unknown account")) refl eve_mistypes eve_unknown

serve-IsRestricted_example :
    All
      (IsRestricted chat)
      (serve chat kept (post_login eve phrase) (moment_of (3 * second) (codes "c"))).0.cookies
serve-IsRestricted_example =
    serve-IsRestricted chat simple-IsFramework kept (post_login eve phrase)
      (moment_of (3 * second) (codes "c"))

eve_identified :
    identity chat kept (header_of eve_token) (moment_of (3 * second) (codes "c"))
    ≡ returned eve_identity
unfolding get_current_identity extract_bearer_token partition_space text_eq resolve_access_token
    decode_access_token issue_access_token check_claims lookup refresh_expiry
eve_identified = refl

logout-cookies_example :
    (serve chat kept (post_logout (header_of eve_token)) (moment_of (3 * second) (codes "c"))).0
    ≡ no_content chat []
logout-cookies_example =
    logout-cookies chat simple-IsFramework kept (header_of eve_token)
      (moment_of (3 * second) (codes "c")) eve_identity eve_identified

bob_identified :
    identity chat
      (serve_all chat
        (serve chat kept (post_logout (header_of eve_token)) (moment_of (3 * second) (codes "c"))).1
        ((get_session (header_of eve_token), moment_of (4 * second) (codes "d")) ∷ []))
      (header_of bob_token)
      (moment_of (5 * second) (codes "e"))
    ≡ returned bob
unfolding serve serve_all logout current_session Service.logout session_revoke insert
    get_current_identity extract_bearer_token partition_space text_eq resolve_access_token
    decode_access_token issue_access_token check_claims lookup refresh_expiry
bob_identified = refl

logout-serve_all_example : bob.session_id ≢ codes "a"
logout-serve_all_example =
    logout-serve_all chat kept (header_of eve_token) (header_of bob_token)
      (moment_of (3 * second) (codes "c")) (moment_of (5 * second) (codes "e"))
      ((get_session (header_of eve_token), moment_of (4 * second) (codes "d")) ∷ []) eve_identity
      bob memory-IsDatabase eve_identified
      (
        (
          text_neq (codes "d") (codes "a") (unfold text_eq in refl),
          text_neq (codes "d") (codes "u") (unfold text_eq in refl),
        ),
        tt,
      )
      bob_identified
