-- ===== src/Auth/Service/Revocation/Steps.antt =====
-- Every operation keeps what is revoked or missing.
use encrypt_chat_app.Base.{
  All, Bool, Bool-cases, List, Option, Option-cases, Text, [], ap, false, inl, inr, none, refl,
  some, subst, sym, true, ℕ, ◌∙◌, ◌∷◌, ◌≡◌, ◌≢◌,
}
use encrypt_chat_app.Auth.Config.{AuthConfig}
use encrypt_chat_app.Auth.Errors.{returned, raised, crashed, Outcome}
use encrypt_chat_app.Auth.FailedLogins.{FailedLoginTracker, is_blocked}
use encrypt_chat_app.Auth.Identifiers.{valid, invalid, validate_username}
use encrypt_chat_app.Auth.Models.{User, AuthSession, is_none, is_usable, is_active}
use encrypt_chat_app.Auth.Passwords.{validate_policy, needs_rehash, verify}
use encrypt_chat_app.Auth.Database.{Database, IsDatabase, Rows, no_row, one_row, several_rows}
use encrypt_chat_app.Auth.Repository.{
  scalar_one_or_none, session_revoke, session_revoke_all_for_user, session_rotate_refresh_token,
  is_live_of,
}
use encrypt_chat_app.Auth.Repository
use encrypt_chat_app.Auth.Service.{
  invalid_username, malformed, LoginRun, Libraries, Draws, register, register_valid, register_user,
  login, login_valid, login_found, login_user, open_session, session_opened, opened_session, rehash,
  rehashed, refresh, refresh_session, refresh_usable, refresh_user, logout, delete_account,
  delete_user,
}
use encrypt_chat_app.Auth.Service.Revocation.{
  Operation, registers, logs_in, refreshes, logs_out, deletes, Avoids, perform, perform_all,
  IsRevoked,
}
use encrypt_chat_app.Websocket.Authentication.{AuthenticatedIdentity}
use encrypt_chat_app.Auth.Service.Resolution.{returned_inj}
use encrypt_chat_app.Auth.Service.Revocation.Writes.{
  Kept, Keeps-refl, Keeps-trans, committed-Keeps, insert_user-Keeps, insert_session-Keeps,
  flush_user-Keeps, flush_session-Keeps, update_sessions-Keeps, delete_user-Keeps,
}

module _ (L : Libraries) (D : Database) (c : AuthConfig) (law : IsDatabase D)
    (session_id user_id : Text) where
  register_user-Keeps :
      (db : D.State) (user : User)
      → user.id ≢ user_id
      → (o : Option D.State) → D.insert_user db user ≡ o
      → Kept L D c law session_id user_id db (register_user L D c db user o).1
  register_user-Keeps db user other none h = Keeps-refl L D c law session_id user_id db
  register_user-Keeps db user other (some db') h =
      insert_user-Keeps L D c law session_id user_id db db' user other h

  register_valid-Keeps :
      (db : D.State) (username normalized password : Text) (d : Draws)
      → d.user_id ≢ user_id
      → Kept L D c law session_id user_id db
          (register_valid L D c db username normalized password d).1
  register_valid-Keeps db username normalized password d other =
      elim (Option-cases (validate_policy c password)) [
        | inl fine ↦ rw (fine, register_valid) (register_user-Keeps db _ other _ refl)
        | inr (error, e) ↦ rw (e, register_valid) (Keeps-refl L D c law session_id user_id db)
      ]

  register-Keeps :
      (db : D.State) (username password : Text) (d : Draws)
      → d.user_id ≢ user_id
      → Kept L D c law session_id user_id db (register L D c db username password d).1
  unfolding register
  register-Keeps db username password d other =
      elim (validate_username L.unicode username)
        as (λ v.
          let r : Outcome User × D.State = elim v [
            | invalid error ↦ (invalid_username L D c error, db)
            | valid normalized ↦ register_valid L D c db username normalized password d
          ] in
          Kept L D c law session_id user_id db r.1) [
            | invalid error ↦ Keeps-refl L D c law session_id user_id db
            | valid normalized ↦ register_valid-Keeps db username normalized password d other
          ]

  open_session-Keeps :
      (db : D.State) (user : User) (d : Draws)
      → d.session_id ≢ session_id
      → Kept L D c law session_id user_id db (open_session L D c db user d).1
  unfolding open_session
  open_session-Keeps db user d other = go (D.insert_session db (opened_session L D c user d)) refl
    where
      go :
          (o : Option D.State)
          → D.insert_session db (opened_session L D c user d) ≡ o
          → Kept L D c law session_id user_id db (session_opened L D c db user d o).1
      go none h = Keeps-refl L D c law session_id user_id db
      go (some db') h =
          insert_session-Keeps L D c law session_id user_id db db' (opened_session L D c user d)
            other h

  rehash-Keeps :
      (db : D.State) (user : User) (password : Text) (d : Draws)
      → D.user_by_id db user.id ≡ some user
      → Kept L D c law session_id user_id db (rehash L D c db user password d)
  rehash-Keeps db user password d row =
      elim (Bool-cases (needs_rehash L.unicode L.argon2 c user.password_hash)) [
        | inl outdated ↦
            rw outdated (flush_user-Keeps L D c law session_id user_id db _ user row refl)
        | inr current ↦ rw current (Keeps-refl L D c law session_id user_id db)
      ]

  login_user-Keeps :
      (t : FailedLoginTracker) (db : D.State) (normalized : Text) (user : User) (password : Text)
      (d : Draws)
      → d.session_id ≢ session_id
      → D.user_by_id db user.id ≡ some user
      → Kept L D c law session_id user_id db (login_user L D c t db normalized user password d).db
  unfolding login_user
  login_user-Keeps t db normalized user password d other row =
      elim (Bool-cases (verify L.unicode L.argon2 c user.password_hash password)) [
        | inr wrong ↦ rw wrong (Keeps-refl L D c law session_id user_id db)
        | inl right ↦ elim (Bool-cases (is_active user)) [
          | inr inactive ↦ rw (right, inactive) (Keeps-refl L D c law session_id user_id db)
          | inl active ↦
              rw (right, active)
                (Keeps-trans L D c law session_id user_id db (rehash L D c db user password d) _
                  (rehash-Keeps db user password d row)
                  (open_session-Keeps (rehash L D c db user password d)
                    (rehashed L D c user password d) d other))
        ]
      ]

  login_found-Keeps :
      (t : FailedLoginTracker) (db : D.State) (normalized password : Text) (d : Draws)
      (o : Option User)
      → D.user_by_normalized db normalized ≡ o
      → d.session_id ≢ session_id
      → Kept L D c law session_id user_id db (login_found L D c t db normalized o password d).db
  login_found-Keeps t db normalized password d none h other =
      Keeps-refl L D c law session_id user_id db
  login_found-Keeps t db normalized password d (some user) h other =
      login_user-Keeps t db normalized user password d other (law.user_row db normalized user h).0

  login_valid-Keeps :
      (t : FailedLoginTracker) (db : D.State) (normalized password : Text) (d : Draws)
      → d.session_id ≢ session_id
      → Kept L D c law session_id user_id db (login_valid L D c t db normalized password d).db
  unfolding login_valid
  login_valid-Keeps t db normalized password d other =
      elim (Bool-cases (is_blocked t normalized d.checked_at).1) [
        | inl blocked ↦ rw blocked (Keeps-refl L D c law session_id user_id db)
        | inr free ↦ rw free (login_found-Keeps _ db normalized password d _ refl other)
      ]

  login-Keeps :
      (t : FailedLoginTracker) (db : D.State) (username password : Text) (d : Draws)
      → d.session_id ≢ session_id
      → Kept L D c law session_id user_id db (login L D c t db username password d).db
  unfolding login
  login-Keeps t db username password d other =
      elim (validate_username L.unicode username)
        as (λ v.
          let r : LoginRun L D c = elim v [
            | invalid error ↦ malformed L D c t db
            | valid normalized ↦ login_valid L D c t db normalized password d
          ] in
          Kept L D c law session_id user_id db r.db) [
            | invalid error ↦ Keeps-refl L D c law session_id user_id db
            | valid normalized ↦ login_valid-Keeps t db normalized password d other
          ]

  -- A session that is usable has not been revoked.
  usable-live :
      (a : AuthSession) (now : ℕ) → is_usable a now ≡ returned true → is_none a.revoked_at ≡ true
  usable-live a now h = elim (Bool-cases (is_none a.revoked_at)) [
    | inl live ↦ live
    | inr dead ↦ cc (returned_inj (rw dead at h))
  ]

  refresh_user-Keeps :
      (db : D.State) (a : AuthSession) (d : Draws) (o : Option User)
      → D.session_by_id db a.id ≡ some a
      → is_usable a d.now ≡ returned true
      → Kept L D c law session_id user_id db (refresh_user L D c db a d o).1
  unfolding session_rotate_refresh_token
  refresh_user-Keeps db a d none row usable = Keeps-refl L D c law session_id user_id db
  refresh_user-Keeps db a d (some user) row usable = elim (Bool-cases (is_active user)) [
    | inr inactive ↦ rw inactive (Keeps-refl L D c law session_id user_id db)
    | inl active ↦ rw active (
        flush_session-Keeps L D c law session_id user_id db _ a row (λ same r.
          let stale : IsRevoked (some a) =
            subst IsRevoked (ap (D.session_by_id db) (sym same) ∙ row) r in
          stale))
  ]

  refresh_usable-Keeps :
      (db : D.State) (a : AuthSession) (d : Draws) (o : Outcome Bool)
      → D.session_by_id db a.id ≡ some a
      → is_usable a d.now ≡ o
      → Kept L D c law session_id user_id db (refresh_usable L D c db a d o).1
  refresh_usable-Keeps db a d (returned true) row usable =
      refresh_user-Keeps db a d (D.user_by_id db a.user_id) row usable
  refresh_usable-Keeps db a d (returned false) row usable =
      Keeps-refl L D c law session_id user_id db
  refresh_usable-Keeps db a d (raised e) row usable = Keeps-refl L D c law session_id user_id db
  refresh_usable-Keeps db a d crashed row usable = Keeps-refl L D c law session_id user_id db

  refresh_session-Keeps :
      (db : D.State) (hash : Text) (d : Draws) (rows : Rows AuthSession)
      → D.sessions_by_hash db hash ≡ rows
      → Kept L D c law session_id user_id db
          (refresh_session L D c db d (scalar_one_or_none rows)).1
  refresh_session-Keeps db hash d no_row h = Keeps-refl L D c law session_id user_id db
  refresh_session-Keeps db hash d several_rows h = Keeps-refl L D c law session_id user_id db
  refresh_session-Keeps db hash d (one_row a) h =
      refresh_usable-Keeps db a d (is_usable a d.now) (law.hash_row db hash a h).0 refl

  refresh-Keeps :
      (db : D.State) (token : Text) (d : Draws)
      → Kept L D c law session_id user_id db (refresh L D c db token d).1
  unfolding refresh
  refresh-Keeps db token d = refresh_session-Keeps db _ d _ refl

  revoke-Keeps :
      (db : D.State) (a : AuthSession) (now : ℕ)
      → D.session_by_id db a.id ≡ some a
      → Kept L D c law session_id user_id db (session_revoke D db a now)
  unfolding session_revoke
  revoke-Keeps db a now row = elim (Bool-cases (is_none a.revoked_at)) [
    | inl live ↦ rw live (
        flush_session-Keeps L D c law session_id user_id db (Repository.revoked now a) a row
          (λ same r. refl))
    | inr dead ↦ rw dead (Keeps-refl L D c law session_id user_id db)
  ]

  logout-Keeps :
      (db : D.State) (id : Text) (now : ℕ)
      → Kept L D c law session_id user_id db (logout L D c db id now)
  unfolding logout
  logout-Keeps db id now = elim (Option-cases (D.session_by_id db id)) [
    | inl missing ↦ rw (missing, logout) (Keeps-refl L D c law session_id user_id db)
    | inr (a, found) ↦
        rw (found, logout)
          (revoke-Keeps db a now (ap (D.session_by_id db) (law.session_key db id a found) ∙ found))
  ]

  delete_account-Keeps :
      (db : D.State) (identity : AuthenticatedIdentity) (password : Text) (now : ℕ)
      → Kept L D c law session_id user_id db (delete_account L D c db identity password now).1
  unfolding delete_account
  delete_account-Keeps db identity password now = go (D.user_by_id db identity.user_id)
    where
      go :
          (o : Option User)
          → Kept L D c law session_id user_id db (delete_user L D c db password now o).1
      go none = Keeps-refl L D c law session_id user_id db
      go (some user) = elim (Bool-cases (verify L.unicode L.argon2 c user.password_hash password)) [
        | inr wrong ↦ rw wrong (Keeps-refl L D c law session_id user_id db)
        | inl right ↦ rw right (
            unfold session_revoke_all_for_user in
            (Keeps-trans L D c law session_id user_id db _ _
              (update_sessions-Keeps L D c law session_id user_id db (is_live_of user.id) now)
              (delete_user-Keeps L D c law session_id user_id _ user)))
      ]

  perform-Keeps :
      (db : D.State) (operation : Operation)
      → Avoids session_id user_id operation
      → Kept L D c law session_id user_id db (perform L D c db operation)
  unfolding perform
  perform-Keeps db (registers username password d) other =
      committed-Keeps L D c law session_id user_id db _ _
        (register-Keeps db username password d other)
  perform-Keeps db (logs_in t username password d) other =
      committed-Keeps L D c law session_id user_id db _ _
        (login-Keeps t db username password d other)
  perform-Keeps db (refreshes token d) other =
      committed-Keeps L D c law session_id user_id db _ _ (refresh-Keeps db token d)
  perform-Keeps db (logs_out id now) other = logout-Keeps db id now
  perform-Keeps db (deletes identity password now) other =
      committed-Keeps L D c law session_id user_id db _ _
        (delete_account-Keeps db identity password now)

  pub perform_all-Keeps :
      (db : D.State) (operations : List Operation)
      → All (Avoids session_id user_id) operations
      → Kept L D c law session_id user_id db (perform_all L D c db operations)
  unfolding perform_all
  perform_all-Keeps db [] h = Keeps-refl L D c law session_id user_id db
  perform_all-Keeps db (operation ∷ operations) h =
      Keeps-trans L D c law session_id user_id db (perform L D c db operation) _
        (perform-Keeps db operation h.0)
        (perform_all-Keeps (perform L D c db operation) operations h.1)
