-- ===== src/Auth/Tests/Sample.antt =====
-- Two accounts on a database in memory, with plain stand-ins for the libraries.
use encrypt_chat_app.Base.{Text, [], codes, none, some, ℕ, ◌*◌, ◌∷◌}
use encrypt_chat_app.Websocket.Limits.{second}
use encrypt_chat_app.Websocket.Authentication.{AuthenticatedIdentity}
use encrypt_chat_app.Auth.Config.{AuthConfig}
use encrypt_chat_app.Auth.Config
use encrypt_chat_app.Auth.Config.{default_auth_config}
use encrypt_chat_app.Environ.{Environ, negsuc}
use encrypt_chat_app.Auth.Models.{User, AuthSession, aware}
use encrypt_chat_app.Auth.Database.Memory.{Memory}
use encrypt_chat_app.Auth.Tokens.{issue_access_token, refresh_expiry}
use encrypt_chat_app.Auth.Service.{Libraries, Draws, IssuedCredentials}
use encrypt_chat_app.Auth.Tests.Codec.{plain_jwt, plain_unicode, plain_argon2}

abbrev pub plain : Libraries
plain = record {
  unicode = plain_unicode;
  argon2 = plain_argon2;
  jwt = plain_jwt;
  print = λ n. n ∷ [];
}

abbrev pub settings : AuthConfig
settings = Config.class_defaults (codes "secret")

abbrev pub no_rows : Memory
no_rows = record { users = []; names = []; sessions = [] }

abbrev pub moment : ℕ → Text → Draws
moment now drawn = record {
  now = now;
  rehashed_at = now;
  checked_at = now;
  failed_at = now;
  user_id = drawn;
  session_id = drawn;
  token_id = drawn;
  refresh_token = drawn;
  salt = drawn;
}

abbrev pub eve : Text
eve = codes "eve_1"

abbrev pub phrase : Text
phrase = codes "correct horse"

abbrev pub registering : Draws
registering = moment second (codes "u")

abbrev pub logging_in : Draws
logging_in = moment (2 * second) (codes "a")

abbrev pub eve_row : User
eve_row = record {
  id = codes "u";
  username = eve;
  username_normalized = eve;
  password_hash = phrase;
  status = codes "active";
  created_at = second;
  updated_at = second;
}

abbrev pub store : Memory
store = record {
  users = (codes "u", some eve_row) ∷ [];
  names = (eve, codes "u") ∷ [];
  sessions = [];
}

abbrev pub bob_row : User
bob_row = record {
  id = codes "v";
  username = codes "bob";
  username_normalized = codes "bob";
  password_hash = phrase;
  status = codes "active";
  created_at = second;
  updated_at = second;
}

abbrev pub session_of : Text → Text → ℕ → AuthSession
session_of session_id user_id now = record {
  id = session_id;
  user_id = user_id;
  refresh_token_hash = session_id;
  created_at = now;
  expires_at = aware (refresh_expiry plain_jwt settings now);
  revoked_at = none;
}

-- Both have an account and a session.
abbrev pub both : Memory
both = record {
  users = (codes "u", some eve_row) ∷ (codes "v", some bob_row) ∷ [];
  names = (eve, codes "u") ∷ (codes "bob", codes "v") ∷ [];
  sessions =
      (codes "a", some (session_of (codes "a") (codes "u") (2 * second)))
      ∷ (codes "b", some (session_of (codes "b") (codes "v") (2 * second)))
      ∷ [];
}

abbrev pub eve_credentials : IssuedCredentials
eve_credentials = record {
  access_token =
      issue_access_token plain_jwt settings (codes "u") (codes "a") (codes "a") (2 * second);
  refresh_token = codes "a";
  expires_in_seconds = 900;
  user_id = codes "u";
  username = eve;
  created_at = second;
  session_id = codes "a";
}

-- A token of the session of the other account.
abbrev pub bob_token : Text
bob_token = issue_access_token plain_jwt settings (codes "v") (codes "b") (codes "b") (2 * second)

abbrev pub bob : AuthenticatedIdentity
bob = record { user_id = codes "v"; username = codes "bob"; session_id = codes "b" }

abbrev pub eve_identity : AuthenticatedIdentity
eve_identity = record { user_id = codes "u"; username = eve; session_id = codes "a" }

abbrev pub refreshing : Draws
refreshing = moment (3 * second) (codes "r")

abbrev pub bob_credentials : IssuedCredentials
bob_credentials = record {
  access_token =
      issue_access_token plain_jwt settings (codes "v") (codes "b") (codes "r") (3 * second);
  refresh_token = codes "r";
  expires_in_seconds = 900;
  user_id = codes "v";
  username = codes "bob";
  created_at = second;
  session_id = codes "b";
}

abbrev pub rotated : Memory
rotated = record both {
  sessions =
      (codes "a", some (session_of (codes "a") (codes "u") (2 * second)))
      ∷ (
        codes "b",
        some (record (session_of (codes "b") (codes "v") (2 * second)) {
          refresh_token_hash = codes "r";
          expires_at = aware (refresh_expiry plain_jwt settings (3 * second));
        }),
      )
      ∷ [];
}

abbrev pub sample_environ : Environ
sample_environ = record {
  get = λ name. some name;
  strip = λ s. s;
  int = λ s. some (negsuc 4);
  float = λ s. none;
}
