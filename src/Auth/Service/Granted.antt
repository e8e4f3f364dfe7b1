-- ===== src/Auth/Service/Granted.antt =====
-- The conditions under which a login succeeds.
use encrypt_chat_app.Base.{Text, ap, false, none, refl, some, subst, sym, true, ◌∙◌, ◌≡◌}
use encrypt_chat_app.Auth.Config.{AuthConfig}
use encrypt_chat_app.Auth.Errors.{returned}
use encrypt_chat_app.Auth.FailedLogins.{FailedLoginTracker, is_blocked}
use encrypt_chat_app.Auth.Identifiers.{
  InvalidUsernameError, Username, valid, invalid, validate_username,
}
use encrypt_chat_app.Auth.Models.{User, is_active, active}
use encrypt_chat_app.Auth.Passwords.{verify}
use encrypt_chat_app.Auth.Database.{Database, IsDatabase}
use encrypt_chat_app.Auth.Service.{
  Libraries, Draws, credentials, opened_session, open_session, rehash, rehashed, LoginRun,
  malformed, login, login_valid, login_user,
}
use encrypt_chat_app.Auth.Service.Opening.{rehash-rows, rehashed_ids}

module _ (L : Libraries) (D : Database) (c : AuthConfig) where
  login_user-returned :
      (t : FailedLoginTracker) (db : D.State) (normalized password : Text) (user : User) (d : Draws)
      → IsDatabase D
      → D.user_by_id db user.id ≡ some user
      → verify L.unicode L.argon2 c user.password_hash password ≡ true
      → is_active user ≡ true
      → D.session_by_id db d.session_id ≡ none
      → (login_user L D c t db normalized user password d).outcome
        ≡ returned (credentials L D c (rehashed L D c user password d) d.session_id d)
  unfolding login_user open_session
  login_user-returned t db normalized password user d law row right active unused =
      let s = rehash L D c db user password d in
      let owner = rehashed L D c user password d in
      let (kept, sessions) = rehash-rows L D c db user password d law row in
      let (_, inserted) =
        law.insert_session_free s (opened_session L D c owner d) owner
          (sessions d.session_id ∙ unused)
          (ap (D.user_by_id s) (rehashed_ids L D c user password d).0 ∙ kept) in
      rw (right, active) (rw inserted refl)

  login_valid-returned :
      (t : FailedLoginTracker) (db : D.State) (normalized password : Text) (user : User) (d : Draws)
      → IsDatabase D
      → (is_blocked t normalized d.checked_at).1 ≡ false
      → D.user_by_normalized db normalized ≡ some user
      → verify L.unicode L.argon2 c user.password_hash password ≡ true
      → is_active user ≡ true
      → D.session_by_id db d.session_id ≡ none
      → (login_valid L D c t db normalized password d).outcome
        ≡ returned (credentials L D c (rehashed L D c user password d) d.session_id d)
  unfolding login_valid
  login_valid-returned t db normalized password user d law free found right active unused =
      rw (free, found)
        (login_user-returned (is_blocked t normalized d.checked_at).0 db normalized password user d
          law (law.user_row db normalized user found).0 right active unused)

  pub login_of_valid :
      (t : FailedLoginTracker) (db : D.State) (username normalized password : Text) (d : Draws)
      → validate_username L.unicode username ≡ valid normalized
      → login L D c t db username password d ≡ login_valid L D c t db normalized password d
  unfolding login
  login_of_valid t db username normalized password d validated =
      ap
        (λ (v : Username).
          let r : LoginRun L D c = elim v [
            | invalid error ↦ malformed L D c t db
            | valid normalized ↦ login_valid L D c t db normalized password d
          ] in
          r)
        validated

  -- A valid name that is not blocked logs in with the password of its account, if that is active and
  -- the new session's id is free.
  pub login-returned :
      (t : FailedLoginTracker) (db : D.State) (username normalized password : Text) (user : User)
      (d : Draws)
      → IsDatabase D
      → validate_username L.unicode username ≡ valid normalized
      → (is_blocked t normalized d.checked_at).1 ≡ false
      → D.user_by_normalized db normalized ≡ some user
      → verify L.unicode L.argon2 c user.password_hash password ≡ true
      → is_active user ≡ true
      → D.session_by_id db d.session_id ≡ none
      → (login L D c t db username password d).outcome
        ≡ returned (credentials L D c (rehashed L D c user password d) d.session_id d)
  login-returned t db username normalized password user d law validated free found right active
        unused =
      subst
        (λ (r : LoginRun L D c).
          r.outcome ≡ returned (credentials L D c (rehashed L D c user password d) d.session_id d))
        (sym (login_of_valid t db username normalized password d validated))
        (login_valid-returned t db normalized password user d law free found right active unused)

  pub login_of_invalid :
      (t : FailedLoginTracker) (db : D.State) (username password : Text) (d : Draws)
      (error : InvalidUsernameError)
      → validate_username L.unicode username ≡ invalid error
      → login L D c t db username password d ≡ malformed L D c t db
  unfolding login
  login_of_invalid t db username password d error validated =
      ap
        (λ (v : Username).
          let r : LoginRun L D c = elim v [
            | invalid error ↦ malformed L D c t db
            | valid normalized ↦ login_valid L D c t db normalized password d
          ] in
          r)
        validated
