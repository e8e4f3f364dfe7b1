-- ===== src/Auth/Dependencies.antt =====
-- server/app/auth/dependencies.py: the bearer token and the caller's identity. The transaction of
-- `get_db` is `committed` in Auth/Service/Revocation.
pub mod Bearer
use encrypt_chat_app.Base.{
  Option, Text, [], codes, if◌then◌else◌, none, not, some, text_eq, ℕ, ◌==◌, ◌||◌, ◌∷◌,
}
use encrypt_chat_app.Environ.{is_empty}
use encrypt_chat_app.Auth.Config.{AuthConfig}
use encrypt_chat_app.Auth.Errors.{Outcome, returned, raised, crashed, auth_error, required, ◌>>=◌}
use encrypt_chat_app.Auth.Database.{Database}
use encrypt_chat_app.Auth.Service.{Libraries, resolve_access_token}
use encrypt_chat_app.Websocket.Authentication.{AuthenticatedIdentity}

abbrev pub refresh_cookie_name : Text
refresh_cookie_name = codes "ecapp_refresh"

-- What it takes from `str`.
pub record Strings : Type 0 where
  pub strip : Text → Text
  pub lower : Text → Text

abbrev pub space : ℕ
space = 32

-- `s.partition(" ")` without the separator.
unfoldable pub partition_space : Text → Text × Text
partition_space [] = ([], [])
partition_space (c ∷ s) =
    let (scheme, credential) = partition_space s in
    if c == space then ([], s) else (c ∷ scheme, credential)

module _ (S : Strings) where
  abbrev bearer_of : Text → Text → Outcome Text
  bearer_of scheme credential =
      if not (text_eq (S.lower scheme) (codes "bearer")) || is_empty (S.strip credential)
      then raised (auth_error required (codes "malformed Authorization header"))
      else returned (S.strip credential)

  -- From the value of the header, if it is there.
  unfoldable pub extract_bearer_token : Option Text → Outcome Text
  extract_bearer_token none = raised (auth_error required (codes "missing Authorization header"))
  extract_bearer_token (some header) =
      let (scheme, credential) = partition_space header in
      if is_empty header
      then raised (auth_error required (codes "missing Authorization header"))
      else bearer_of scheme credential

  module _ (L : Libraries) (D : Database) (c : AuthConfig) where
    unfoldable pub get_current_identity :
        D.State → Option Text → ℕ → ℕ → Outcome AuthenticatedIdentity
    get_current_identity db authorization at now =
        extract_bearer_token authorization >>= λ token. resolve_access_token L D c db token at now
