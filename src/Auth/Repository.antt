-- ===== src/Auth/Repository.antt =====
-- server/app/auth/repository.py: `UserRepository` and `SessionRepository`, whose methods have the
-- prefixes user and session here.
use encrypt_chat_app.Base.{Bool, Option, Text, if◌then◌else◌, none, some, text_eq, ℕ, ◌&&◌}
use encrypt_chat_app.Auth.Errors.{Outcome, returned, crashed}
use encrypt_chat_app.Auth.Models.{User, DateTime, AuthSession, active, is_none}
use encrypt_chat_app.Auth.Database.{Database, Rows, no_row, one_row, several_rows}

-- `scalar_one_or_none`
abbrev pub scalar_one_or_none : {A : Type 0} → Rows A → Outcome (Option A)
scalar_one_or_none no_row = returned none
scalar_one_or_none (one_row a) = returned (some a)
scalar_one_or_none several_rows = crashed

-- The row of a new account, and of a new session.
abbrev pub new_user : Text → Text → Text → Text → ℕ → User
new_user user_id username username_normalized password_hash now = record {
  id = user_id;
  username = username;
  username_normalized = username_normalized;
  password_hash = password_hash;
  status = active;
  created_at = now;
  updated_at = now;
}

abbrev pub new_session : Text → Text → Text → ℕ → DateTime → AuthSession
new_session session_id user_id refresh_token_hash now expires_at = record {
  id = session_id;
  user_id = user_id;
  refresh_token_hash = refresh_token_hash;
  created_at = now;
  expires_at = expires_at;
  revoked_at = none;
}

-- `revoked_at = now` on the sessions of an account that have none.
abbrev pub is_live_of : Text → AuthSession → Bool
is_live_of user_id a = text_eq a.user_id user_id && is_none a.revoked_at

abbrev pub revoked : ℕ → AuthSession → AuthSession
revoked now a = record a { revoked_at = some now }

module _ (D : Database) where
  -- None for the `UsernameTakenError`; the database is as before then, by the rollback.
  abbrev pub user_create : D.State → User → Option D.State
  user_create s user = D.insert_user s user

  abbrev pub user_delete : D.State → User → D.State
  user_delete s user = D.delete_user s user

  abbrev pub session_create : D.State → AuthSession → Option D.State
  session_create s a = D.insert_session s a

  abbrev pub session_get_by_refresh_hash : D.State → Text → Outcome (Option AuthSession)
  session_get_by_refresh_hash s refresh_token_hash =
      scalar_one_or_none (D.sessions_by_hash s refresh_token_hash)

  unfoldable pub session_revoke : D.State → AuthSession → ℕ → D.State
  session_revoke s a now = if is_none a.revoked_at then D.flush_session s (revoked now a) else s

  unfoldable pub session_revoke_all_for_user : D.State → Text → ℕ → D.State × ℕ
  session_revoke_all_for_user s user_id now = D.update_sessions s (is_live_of user_id) (revoked now)

  unfoldable pub session_rotate_refresh_token : D.State → AuthSession → Text → DateTime → D.State
  session_rotate_refresh_token s a refresh_token_hash expires_at =
      D.flush_session s
        (record a { refresh_token_hash = refresh_token_hash; expires_at = expires_at })
