-- ===== src/Auth/Service.antt =====
-- server/app/auth/service.py: `AuthService`. A method takes the database and what it draws from the
-- clocks and from the random generators, and gives the database back with its outcome.
pub mod Resolution
pub mod Revocation
pub mod Opening
pub mod Login
pub mod Refusals
pub mod Refreshed
pub mod Refresh
pub mod Granted
pub mod Registration
pub mod Blocking
pub mod Guessing
pub mod Uniform
use encrypt_chat_app.Base.{
  Bool, Option, Text, codes, false, if◌then◌else◌, none, not, some, text_eq, true, ℕ, ◌*◌, ◌++◌,
}
use encrypt_chat_app.Auth.Config.{AuthConfig}
use encrypt_chat_app.Auth.Errors.{
  AuthErrorCode, invalid_credentials, session_revoked, rate_limited, account_unavailable,
  token_invalid, registration_rejected, validation_failed, AuthError, auth_error, auth_error_with,
  Outcome, returned, raised, crashed, ◌>>=◌,
}
use encrypt_chat_app.Auth.FailedLogins.{FailedLoginTracker, is_blocked, record_failure, reset}
use encrypt_chat_app.Auth.FailedLogins
use encrypt_chat_app.Auth.Identifiers.{
  Unicode, InvalidUsernameError, valid, invalid, validate_username,
}
use encrypt_chat_app.Auth.Identifiers
use encrypt_chat_app.Auth.Models.{User, AuthSession, aware, is_active, is_usable, is_none}
use encrypt_chat_app.Auth.Passwords.{
  Argon2, validate_policy, hash, verify, needs_rehash, dummy_verify,
}
use encrypt_chat_app.Auth.Passwords
use encrypt_chat_app.Auth.Tokens.{
  Jwt, AccessTokenClaims, minutes, issue_access_token, decode_access_token, hash_refresh_token,
  refresh_expiry,
}
use encrypt_chat_app.Auth.Database.{Database}
use encrypt_chat_app.Auth.Repository.{
  new_user, new_session, user_create, user_delete, session_create, session_get_by_refresh_hash,
  session_revoke, session_revoke_all_for_user, session_rotate_refresh_token,
}
use encrypt_chat_app.Websocket.Authentication.{AuthenticatedIdentity}

pub record IssuedCredentials : Type 0 where
  pub access_token : Text
  pub refresh_token : Text
  pub expires_in_seconds : ℕ
  pub user_id : Text
  pub username : Text
  pub created_at : ℕ
  pub session_id : Text

-- `datetime.now`, before and at the end of a method; `time.monotonic` of the tracker's test and of its
-- record; the `uuid4`s of an account, of a session and of a token; a refresh token; a salt.
pub record Draws : Type 0 where
  pub now : ℕ
  pub rehashed_at : ℕ
  pub checked_at : ℕ
  pub failed_at : ℕ
  pub user_id : Text
  pub session_id : Text
  pub token_id : Text
  pub refresh_token : Text
  pub salt : Text

-- The libraries that the service stands on; `print` is `str` of a number.
pub record Libraries : Type 0 where
  pub unicode : Unicode
  pub argon2 : Argon2
  pub jwt : Jwt
  pub print : ℕ → Text

-- The tracker of `AuthService(config)`.
abbrev pub new_tracker : AuthConfig → FailedLoginTracker
new_tracker c = FailedLogins.init c.max_failed_logins_per_account c.failed_login_window_seconds

module _ (L : Libraries) (D : Database) (c : AuthConfig) where
  -- What `login` leaves behind: its outcome, the tracker, the database, and how many Argon2
  -- verifications it has run.
  pub record LoginRun : Type 0 where
    pub outcome : Outcome IssuedCredentials
    pub failed_logins : FailedLoginTracker
    pub db : D.State
    pub verifications : ℕ

  abbrev pub register_user : D.State → User → Option D.State → Outcome User × D.State
  register_user db user none = (
    raised (auth_error_with registration_rejected 409 (codes "identifier already registered")),
    db,
  )
  register_user db user (some db') = (returned user, db')

  abbrev pub register_valid : D.State → Text → Text → Text → Draws → Outcome User × D.State
  register_valid db username normalized password d = elim (validate_policy c password) [
    | some error ↦ (
      raised (
          auth_error_with validation_failed 400
            (codes "invalid password: " ++ Passwords.reason L.print c error)),
      db,
    )
    | none ↦
        let user =
          new_user d.user_id (L.unicode.strip username) normalized
            (hash L.unicode L.argon2 c d.salt password) d.now in
        register_user db user (user_create D db user)
  ]

  abbrev pub invalid_username : InvalidUsernameError → Outcome User
  invalid_username error = raised (
      auth_error_with validation_failed 400
        (codes "invalid username: " ++ Identifiers.reason error))

  unfoldable pub register : D.State → Text → Text → Draws → Outcome User × D.State
  register db username password d = elim (validate_username L.unicode username) [
    | invalid error ↦ (invalid_username error, db)
    | valid normalized ↦ register_valid db username normalized password d
  ]

  -- The credentials at the end of `_open_session` and of `refresh`.
  abbrev pub credentials : User → Text → Draws → IssuedCredentials
  credentials user session_id d = record {
    access_token = issue_access_token L.jwt c user.id session_id d.token_id d.now;
    refresh_token = d.refresh_token;
    expires_in_seconds = c.access_token_ttl_minutes * 60;
    user_id = user.id;
    username = user.username;
    created_at = user.created_at;
    session_id = session_id;
  }

  -- The row that `_open_session` creates.
  abbrev pub opened_session : User → Draws → AuthSession
  opened_session user d =
      new_session d.session_id user.id (hash_refresh_token L.jwt c d.refresh_token) d.now
        (aware (refresh_expiry L.jwt c d.now))

  abbrev pub session_opened :
      D.State → User → Draws → Option D.State → Outcome IssuedCredentials × D.State
  session_opened db user d none = (crashed, db)
  session_opened db user d (some db') = (returned (credentials user d.session_id d), db')

  unfoldable pub open_session : D.State → User → Draws → Outcome IssuedCredentials × D.State
  open_session db user d = session_opened db user d (session_create D db (opened_session user d))

  -- The upgrade of an outdated hash, flushed with the session that follows.
  abbrev pub upgraded : User → Text → Draws → User
  upgraded user password d = record user {
    password_hash = hash L.unicode L.argon2 c d.salt password;
    updated_at = d.rehashed_at;
  }

  abbrev pub rehashed : User → Text → Draws → User
  rehashed user password d =
      if needs_rehash L.unicode L.argon2 c user.password_hash
      then upgraded user password d
      else user

  abbrev pub rehash : D.State → User → Text → Draws → D.State
  rehash db user password d =
      if needs_rehash L.unicode L.argon2 c user.password_hash
      then D.flush_user db (upgraded user password d)
      else db

  -- A refusal after the failure has been recorded, and one verification, of the password or the dummy.
  abbrev pub failed : FailedLoginTracker → D.State → Text → Draws → Text → LoginRun
  failed t db normalized d reason = record {
    outcome = raised (auth_error invalid_credentials reason);
    failed_logins = (record_failure t normalized d.failed_at).0;
    db = db;
    verifications = 1;
  }

  -- From the test of the password on.
  unfoldable pub login_user : FailedLoginTracker → D.State → Text → User → Text → Draws → LoginRun
  login_user t db normalized user password d =
      if not (verify L.unicode L.argon2 c user.password_hash password)
      then failed t db normalized d (codes "password mismatch")
      else if not (is_active user)
      then failed t db normalized d (codes "account disabled")
      else let (outcome, db') =
          open_session (rehash db user password d) (rehashed user password d) d in
        record {
          outcome = outcome;
          failed_logins = reset t normalized;
          db = db';
          verifications = 1;
        }

  abbrev pub login_found :
      FailedLoginTracker → D.State → Text → Option User → Text → Draws → LoginRun
  login_found t db normalized none password d = failed t db normalized d (codes "unknown account")
  login_found t db normalized (some user) password d = login_user t db normalized user password d

  -- From the test of the tracker on.
  unfoldable pub login_valid : FailedLoginTracker → D.State → Text → Text → Draws → LoginRun
  login_valid t db normalized password d =
      let (t', blocked) = is_blocked t normalized d.checked_at in
      if blocked
      then record {
        outcome =
            raised
              (auth_error_with rate_limited 429 (codes "per-account failure threshold reached"));
        failed_logins = t';
        db = db;
        verifications = 0;
      }
      else login_found t' db normalized (D.user_by_normalized db normalized) password d

  abbrev pub malformed : FailedLoginTracker → D.State → LoginRun
  malformed t db = record {
    outcome = raised (auth_error invalid_credentials (codes "malformed identifier"));
    failed_logins = t;
    db = db;
    verifications = dummy_verify;
  }

  unfoldable pub login : FailedLoginTracker → D.State → Text → Text → Draws → LoginRun
  login t db username password d = elim (validate_username L.unicode username) [
    | invalid error ↦ malformed t db
    | valid normalized ↦ login_valid t db normalized password d
  ]

  -- The reason for a session that is not usable.
  abbrev pub unusable : AuthSession → AuthError
  unusable a =
      auth_error session_revoked
        (if is_none a.revoked_at then codes "session expired" else codes "session revoked")

  abbrev pub identify : AuthSession → User → AuthenticatedIdentity
  identify a user = record { user_id = user.id; username = user.username; session_id = a.id }

  abbrev pub resolve_user : AuthSession → Option User → Outcome AuthenticatedIdentity
  resolve_user a none = raised (auth_error session_revoked (codes "account no longer exists"))
  resolve_user a (some user) =
      if not (is_active user)
      then raised (auth_error_with account_unavailable 403 (codes "account disabled"))
      else if not (text_eq a.user_id user.id)
      then raised (auth_error token_invalid (codes "session/user mismatch"))
      else returned (identify a user)

  abbrev pub resolve_session :
      D.State → ℕ → AccessTokenClaims → Option AuthSession → Outcome AuthenticatedIdentity
  resolve_session db now claims none =
      raised (auth_error session_revoked (codes "session no longer exists"))
  resolve_session db now claims (some a) = is_usable a now >>= λ usable.
      if not usable then raised (unusable a) else resolve_user a (D.user_by_id db claims.user_id)

  -- `at` is the time that the decoding reads, and `now` the time read after it.
  unfoldable pub resolve_access_token : D.State → Text → ℕ → ℕ → Outcome AuthenticatedIdentity
  resolve_access_token db token at now = decode_access_token L.jwt c token at >>= λ claims.
      resolve_session db now claims (D.session_by_id db claims.session_id)

  abbrev pub refresh_user :
      D.State → AuthSession → Draws → Option User → Outcome IssuedCredentials × D.State
  refresh_user db a d none = (raised (auth_error session_revoked (codes "account unavailable")), db)
  refresh_user db a d (some user) =
      if not (is_active user)
      then (raised (auth_error session_revoked (codes "account unavailable")), db)
      else (
        returned (credentials user a.id d),
        session_rotate_refresh_token D db a (hash_refresh_token L.jwt c d.refresh_token)
            (aware (refresh_expiry L.jwt c d.now)),
      )

  -- After the test of the session.
  abbrev pub refresh_usable :
      D.State → AuthSession → Draws → Outcome Bool → Outcome IssuedCredentials × D.State
  refresh_usable db a d (returned true) = refresh_user db a d (D.user_by_id db a.user_id)
  refresh_usable db a d (returned false) = (raised (unusable a), db)
  refresh_usable db a d (raised e) = (raised e, db)
  refresh_usable db a d crashed = (crashed, db)

  abbrev pub refresh_session :
      D.State → Draws → Outcome (Option AuthSession) → Outcome IssuedCredentials × D.State
  refresh_session db d crashed = (crashed, db)
  refresh_session db d (raised e) = (raised e, db)
  refresh_session db d (returned none) =
      (raised (auth_error session_revoked (codes "refresh token not recognized")), db)
  refresh_session db d (returned (some a)) = refresh_usable db a d (is_usable a d.now)

  unfoldable pub refresh : D.State → Text → Draws → Outcome IssuedCredentials × D.State
  refresh db refresh_token d =
      refresh_session db d
        (session_get_by_refresh_hash D db (hash_refresh_token L.jwt c refresh_token))

  unfoldable pub logout : D.State → Text → ℕ → D.State
  logout db session_id now = elim (D.session_by_id db session_id) [
    | none ↦ db
    | some a ↦ session_revoke D db a now
  ]

  abbrev pub delete_user : D.State → Text → ℕ → Option User → Outcome (Unit {0}) × D.State
  delete_user db password now none =
      (raised (auth_error session_revoked (codes "account no longer exists")), db)
  delete_user db password now (some user) =
      if not (verify L.unicode L.argon2 c user.password_hash password)
      then (raised (auth_error invalid_credentials (codes "re-authentication failed")), db)
      else (returned tt, user_delete D (session_revoke_all_for_user D db user.id now).0 user)

  unfoldable pub delete_account :
      D.State → AuthenticatedIdentity → Text → ℕ → Outcome (Unit {0}) × D.State
  delete_account db identity password now =
      delete_user db password now (D.user_by_id db identity.user_id)
