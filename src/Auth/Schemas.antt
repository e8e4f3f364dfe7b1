-- ===== src/Auth/Schemas.antt =====
-- server/app/auth/schemas.py: the bodies of the requests and of the responses, without their
-- serialisation.
use encrypt_chat_app.Base.{Bool, Text, leb, length, ℕ, ◌&&◌}
use encrypt_chat_app.Auth.Config.{AuthConfig}
use encrypt_chat_app.Auth.Models.{User}

abbrev pub max_password_field_length : ℕ
max_password_field_length = 1024

-- `Field(min_length=1, max_length=n)`
abbrev pub is_within : ℕ → Text → Bool
is_within n s = leb 1 (length s) && leb (length s) n

-- The fields of `RegistrationRequest` and of `LoginRequest`, and of `DeleteAccountRequest`.
unfoldable pub accepts_credentials : Text → Text → Bool
accepts_credentials username password =
    is_within 64 username && is_within max_password_field_length password

unfoldable pub accepts_password : Text → Bool
accepts_password password = is_within max_password_field_length password

pub record PublicUser : Type 0 where
  pub user_id : Text
  pub username : Text
  pub created_at : ℕ

abbrev pub from_model : User → PublicUser
from_model user = record {
  user_id = user.id;
  username = user.username;
  created_at = user.created_at;
}

pub record AuthenticationResponse : Type 0 where
  pub access_token : Text
  pub token_type : Text
  pub expires_in : ℕ
  pub user : PublicUser

pub record SessionStatus : Type 0 where
  pub authenticated : Bool
  pub user : PublicUser
  pub session_id : Text
  pub encryption_status : Text
  pub identity_verification_status : Text

pub record AuthErrorResponse : Type 0 where
  pub code : Text
  pub detail : Text

pub record PasswordPolicyInfo : Type 0 where
  pub min_password_length : ℕ
  pub max_password_length : ℕ
  pub min_username_length : ℕ
  pub max_username_length : ℕ

abbrev pub from_config : AuthConfig → PasswordPolicyInfo
from_config c = record {
  min_password_length = c.min_password_length;
  max_password_length = c.max_password_length;
  min_username_length = c.min_username_length;
  max_username_length = c.max_username_length;
}
