-- ===== src/Auth/Responses.antt =====
-- Responses over HTTP: the cookies of server/app/auth/routes.py, and the exception handlers and the
-- health check of server/app/main.py.
use encrypt_chat_app.Base.{
  Bool, List, Option, Text, [], codes, false, none, some, text_eq, true, ℕ, ◌*◌, ◌||◌, ◌≡◌,
}
use encrypt_chat_app.Auth.Errors.{rate_limited, value, describe, AuthError, detail}
use encrypt_chat_app.Auth.Schemas.{
  PublicUser, AuthenticationResponse, SessionStatus, AuthErrorResponse, PasswordPolicyInfo,
}
use encrypt_chat_app.Auth.Dependencies.{Strings, refresh_cookie_name}
use encrypt_chat_app.Auth.Service.{IssuedCredentials}

-- A cookie that is set, or deleted.
pub data Cookie : Type 0 where
  set_cookie :
      (key value : Text) (httponly secure : Bool) (samesite path : Text) (max_age : ℕ) → Cookie
  delete_cookie : (key path : Text) (secure httponly : Bool) (samesite : Text) → Cookie

pub record HealthResponse : Type 0 where
  pub status : Text
  pub phase : Text
  pub authentication : Text
  pub encrypted_messaging : Text

pub data Body : Type 0 where
  public_user : PublicUser → Body
  authentication : AuthenticationResponse → Body
  session_status : SessionStatus → Body
  password_policy : PasswordPolicyInfo → Body
  auth_error : AuthErrorResponse → Body
  health_response : HealthResponse → Body

-- `Response` and `JSONResponse`.
pub record Response : Type 0 where
  pub status_code : ℕ
  pub content : Option Body
  pub cookies : List Cookie

-- What a handler ends in: a model, or a response of its own; `injected` is what it has done to the
-- response that FastAPI passes to it.
pub data Handled : Type 0 where
  model : (status_code : ℕ) (body : Body) (injected : List Cookie) → Handled
  response : (own : Response) (injected : List Cookie) → Handled

-- What the application takes from FastAPI: the response to what a handler returns, to a body that is
-- refused, and to an exception without a handler.
pub record Framework : Type 0 where
  pub respond : Handled → Response
  pub unprocessable : Response
  pub internal_error : Response

-- A model is sent with the injected cookies, and a response of the handler's own as it is. The two
-- answers of the framework's own have no cookies.
pub record IsFramework (F : Framework) : Type 0 where
  pub respond_model :
      (status_code : ℕ) (body : Body) (injected : List Cookie)
      → F.respond (model status_code body injected)
        ≡ record { status_code = status_code; content = some body; cookies = injected }
  pub respond_own :
      (own : Response) (injected : List Cookie) → F.respond (response own injected) ≡ own
  pub unprocessable_cookies : F.unprocessable.cookies ≡ []
  pub internal_error_cookies : F.internal_error.cookies ≡ []

-- `_cookie_secure`, of the value of `AUTH_COOKIE_SECURE`.
unfoldable pub cookie_secure : Strings → Option Text → Bool
cookie_secure S none = false
cookie_secure S (some raw) =
    let setting = S.lower (S.strip raw) in
    text_eq setting (codes "1") || (text_eq setting (codes "true") || text_eq setting (codes "yes"))

abbrev pub set_refresh_cookie : IssuedCredentials → Bool → Cookie
set_refresh_cookie credentials secure =
    set_cookie refresh_cookie_name credentials.refresh_token true secure (codes "strict")
      (codes "/auth") (60 * 60 * 24 * 14)

-- Without `secure`, which is false by default.
abbrev pub clear_refresh_cookie : Cookie
clear_refresh_cookie = delete_cookie refresh_cookie_name (codes "/auth") false true (codes "strict")

abbrev pub authentication_response : IssuedCredentials → AuthenticationResponse
authentication_response credentials = record {
  access_token = credentials.access_token;
  token_type = codes "Bearer";
  expires_in = credentials.expires_in_seconds;
  user = record {
    user_id = credentials.user_id;
    username = credentials.username;
    created_at = credentials.created_at;
  };
}

-- `_auth_error_handler`
unfoldable pub auth_error_handler : AuthError → Response
auth_error_handler e = record {
  status_code = e.status_code;
  content = some (auth_error (record { code = value e.code; detail = detail e }));
  cookies = [];
}

-- `_rate_limit_handler`
unfoldable pub rate_limit_handler : Response
rate_limit_handler = record {
  status_code = 429;
  content =
      some (auth_error (record { code = value rate_limited; detail = describe rate_limited }));
  cookies = [];
}

-- `health`
abbrev pub health : HealthResponse
health = record {
  status = codes "ok";
  phase = codes "3";
  authentication = codes "implemented";
  encrypted_messaging = codes "not_implemented";
}
