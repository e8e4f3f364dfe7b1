-- ===== src/Auth/Routes.antt =====
-- server/app/auth/routes.py: the handlers, each with its dependencies, from the request to the response
-- and the committed database.
pub mod Uniform
pub mod Sessions
pub mod Cookies
use encrypt_chat_app.Base.{
  Bool, List, Option, Text, [], codes, if◌then◌else◌, none, not, some, true, ℕ, ◌∷◌,
}
use encrypt_chat_app.Environ.{is_empty}
use encrypt_chat_app.Auth.Config.{AuthConfig}
use encrypt_chat_app.Auth.Errors.{
  Outcome, returned, raised, crashed, required, session_revoked, ◌>>=◌,
}
use encrypt_chat_app.Auth.Errors
use encrypt_chat_app.Auth.FailedLogins.{FailedLoginTracker}
use encrypt_chat_app.Auth.Models.{User}
use encrypt_chat_app.Auth.Database.{Database}
use encrypt_chat_app.Auth.Schemas.{
  accepts_credentials, accepts_password, PublicUser, from_model, SessionStatus, from_config,
}
use encrypt_chat_app.Auth.Dependencies.{Strings, get_current_identity}
use encrypt_chat_app.Auth.Responses.{
  Cookie, Body, public_user, authentication, session_status, password_policy, Response, Handled,
  model, response, Framework, set_refresh_cookie, clear_refresh_cookie, authentication_response,
  auth_error_handler, rate_limit_handler,
}
use encrypt_chat_app.Auth.Service.{Libraries, Draws, IssuedCredentials, LoginRun}
use encrypt_chat_app.Auth.Service
use encrypt_chat_app.Auth.Service.Revocation.{committed}
use encrypt_chat_app.Websocket.Authentication.{AuthenticatedIdentity}

-- A request with what the handler reads of it: the fields of its body, the refresh cookie, or the
-- Authorization header.
pub data Request : Type 0 where
  get_policy : Request
  post_register post_login : (username password : Text) → Request
  post_refresh : (cookie : Option Text) → Request
  post_logout get_session : (authorization : Option Text) → Request
  post_delete : (authorization : Option Text) (password : Text) → Request

-- What a request meets: whether the limiter by address admits it, the time at which its token is
-- decoded, and what the service draws.
pub record Circumstances : Type 0 where
  pub admitted : Bool
  pub decoded_at : ℕ
  pub draws : Draws

-- The libraries and the settings of the application, `secure` being what `_cookie_secure` returns.
pub record Application : Type 1 where
  pub libraries : Libraries
  pub database : Database
  pub config : AuthConfig
  pub strings : Strings
  pub framework : Framework
  pub secure : Bool

module _ (A : Application) where
  -- What the application keeps between requests.
  pub record Kept : Type 0 where
    pub failed_logins : FailedLoginTracker
    pub db : A.database.State

  abbrev pub authenticated : IssuedCredentials → Handled
  authenticated credentials =
      model 200 (authentication (authentication_response credentials))
        (set_refresh_cookie credentials A.secure ∷ [])

  -- The end of a request: what a handler that returns has done is committed.
  abbrev pub finish :
      Kept → Outcome Handled → FailedLoginTracker → A.database.State → Response × Kept
  finish k (returned h) t db = (A.framework.respond h, record { failed_logins = t; db = db })
  finish k (raised e) t db = (auth_error_handler e, record k { failed_logins = t })
  finish k crashed t db = (A.framework.internal_error, record k { failed_logins = t })

  -- A handler that leaves the tracker alone.
  abbrev pub finish_with : Kept → Outcome Handled × A.database.State → Response × Kept
  finish_with k (outcome, db) = finish k outcome k.failed_logins db

  abbrev pub created : User → Outcome Handled
  created user = returned (model 201 (public_user (from_model user)) [])

  unfoldable pub register : Kept → Text → Text → Draws → Response × Kept
  register k username password d =
      let (outcome, db) =
        Service.register A.libraries A.database A.config k.db username password d in
      finish_with k (outcome >>= created, db)

  abbrev pub logged_in : IssuedCredentials → Outcome Handled
  logged_in credentials = returned (authenticated credentials)

  unfoldable pub login : Kept → Text → Text → Draws → Response × Kept
  login k username password d =
      let run =
        Service.login A.libraries A.database A.config k.failed_logins k.db username password d in
      finish k (run.outcome >>= logged_in) run.failed_logins run.db

  abbrev pub missing_cookie : Outcome Handled
  missing_cookie = raised (Errors.auth_error required (codes "missing refresh cookie"))

  abbrev pub refresh_with : Kept → Text → Draws → Outcome Handled × A.database.State
  refresh_with k token d =
      let (outcome, db) = Service.refresh A.libraries A.database A.config k.db token d in
      (outcome >>= logged_in, db)

  unfoldable pub refresh : Kept → Option Text → Draws → Response × Kept
  refresh k none d = finish_with k (missing_cookie, k.db)
  refresh k (some token) d =
      if is_empty token
      then finish_with k (missing_cookie, k.db)
      else finish_with k (refresh_with k token d)

  -- The dependency on the caller's identity.
  abbrev pub identity : Kept → Option Text → Circumstances → Outcome AuthenticatedIdentity
  identity k authorization at =
      get_current_identity A.strings A.libraries A.database A.config k.db authorization
        at.decoded_at at.draws.now

  -- The response that `logout` and `delete_account` make.
  abbrev pub no_content : List Cookie → Response
  no_content cookies = record { status_code = 204; content = none; cookies = cookies }

  abbrev pub logout_caller :
      Kept → Draws → Outcome AuthenticatedIdentity → Outcome Handled × A.database.State
  logout_caller k d (returned caller) = (
    returned (response (no_content []) (clear_refresh_cookie ∷ [])),
    Service.logout A.libraries A.database A.config k.db caller.session_id d.now,
  )
  logout_caller k d (raised e) = (raised e, k.db)
  logout_caller k d crashed = (crashed, k.db)

  unfoldable pub logout : Kept → Option Text → Circumstances → Response × Kept
  logout k authorization at = finish_with k (logout_caller k at.draws (identity k authorization at))

  abbrev pub session_of : AuthenticatedIdentity → Option User → Outcome Handled
  session_of caller none = raised (Errors.auth_error session_revoked (codes "account vanished"))
  session_of caller (some user) = returned (
      model 200
        (session_status (record {
          authenticated = true;
          user = from_model user;
          session_id = caller.session_id;
          encryption_status = codes "not_implemented";
          identity_verification_status = codes "not_implemented";
        }))
        [])

  abbrev pub show_session : Kept → AuthenticatedIdentity → Outcome Handled
  show_session k caller = session_of caller (A.database.user_by_id k.db caller.user_id)

  unfoldable pub current_session : Kept → Option Text → Circumstances → Response × Kept
  current_session k authorization at =
      finish_with k (identity k authorization at >>= show_session k, k.db)

  abbrev pub deleted : Unit {0} → Outcome Handled
  deleted _ = returned (response (no_content (clear_refresh_cookie ∷ [])) [])

  abbrev pub delete_caller :
      Kept → AuthenticatedIdentity → Text → Draws → Outcome Handled × A.database.State
  delete_caller k caller password d =
      let (outcome, db) =
        Service.delete_account A.libraries A.database A.config k.db caller password d.now in
      (outcome >>= deleted, db)

  -- A body is validated before the limiter is asked.
  abbrev pub guarded : Kept → Bool → Bool → Response × Kept → Response × Kept
  guarded k accepted admitted handled =
      if not accepted
      then (A.framework.unprocessable, k)
      else if not admitted
      then (rate_limit_handler, k)
      else handled

  -- The identity is resolved before the body is validated.
  abbrev pub delete_identified :
      Kept → Text → Draws → Outcome AuthenticatedIdentity → Response × Kept
  delete_identified k password d (returned caller) =
      guarded k (accepts_password password) true (finish_with k (delete_caller k caller password d))
  delete_identified k password d (raised e) = finish_with k (raised e, k.db)
  delete_identified k password d crashed = finish_with k (crashed, k.db)

  unfoldable pub delete_account : Kept → Option Text → Text → Circumstances → Response × Kept
  delete_account k authorization password at =
      delete_identified k password at.draws (identity k authorization at)

  unfoldable pub serve : Kept → Request → Circumstances → Response × Kept
  serve k get_policy at =
      (A.framework.respond (model 200 (password_policy (from_config A.config)) []), k)
  serve k (post_register username password) at =
      guarded k (accepts_credentials username password) at.admitted
        (register k username password at.draws)
  serve k (post_login username password) at =
      guarded k (accepts_credentials username password) at.admitted
        (login k username password at.draws)
  serve k (post_refresh cookie) at = refresh k cookie at.draws
  serve k (post_logout authorization) at = logout k authorization at
  serve k (get_session authorization) at = current_session k authorization at
  serve k (post_delete authorization password) at = delete_account k authorization password at

  unfoldable pub serve_all : Kept → List (Request × Circumstances) → Kept
  serve_all k [] = k
  serve_all k ((request, at) ∷ requests) = serve_all (serve k request at).1 requests
