-- ===== src/Auth/Models.antt =====
-- server/app/auth/models.py: the rows of accounts and of sessions. The relationship between them is
-- in their columns.
use encrypt_chat_app.Base.{
  Bool, Option, Text, codes, false, if◌then◌else◌, ltb, none, some, text_eq, true, ℕ, ◌||◌,
}
use encrypt_chat_app.Auth.Errors.{Outcome, returned, crashed}

-- The values of `AccountStatus`.
abbrev pub active : Text
active = codes "active"

abbrev pub disabled : Text
disabled = codes "disabled"

pub record User : Type 0 where
  pub id : Text
  pub username : Text
  pub username_normalized : Text
  pub password_hash : Text
  pub status : Text
  pub created_at : ℕ
  pub updated_at : ℕ

-- Two rows with one value in a unique column: the primary key, or that of
-- `uq_users_username_normalized`.
unfoldable pub conflicts : User → User → Bool
conflicts user other =
    text_eq user.id other.id || text_eq user.username_normalized other.username_normalized

abbrev pub is_active : User → Bool
is_active user = text_eq user.status active

-- A `datetime` with its time zone, or without one.
pub data DateTime : Type 0 where
  aware naive : ℕ → DateTime

pub record AuthSession : Type 0 where
  pub id : Text
  pub user_id : Text
  pub refresh_token_hash : Text
  pub created_at : ℕ
  pub expires_at : DateTime
  pub revoked_at : Option ℕ

-- `x is None`
abbrev pub is_none : Option ℕ → Bool
is_none none = true
is_none (some x) = false

-- `expires_at > now`: the comparison of a naive with the aware `now` is a `TypeError`.
abbrev pub is_after : DateTime → ℕ → Outcome Bool
is_after (aware expires_at) now = returned (ltb now expires_at)
is_after (naive expires_at) now = crashed

abbrev pub is_usable : AuthSession → ℕ → Outcome Bool
is_usable auth_session now =
    if is_none auth_session.revoked_at then is_after auth_session.expires_at now else returned false
