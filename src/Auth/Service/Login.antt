-- ===== src/Auth/Service/Login.antt =====
-- What a login checks, what it answers, and that its access token works.
use encrypt_chat_app.Base.{
  Bool-cases, Option, Text, ap, false, if◌then◌else◌, inl, inr, none, refl, some, subst,
  text_eq_refl, true, ℕ, ◌<◌, ◌∙◌, ◌≡◌,
}
use encrypt_chat_app.Auth.Config.{AuthConfig}
use encrypt_chat_app.Auth.Errors.{crashed, returned}
use encrypt_chat_app.Auth.FailedLogins.{FailedLoginTracker, is_blocked}
use encrypt_chat_app.Auth.Identifiers.{Username, valid, invalid, validate_username}
use encrypt_chat_app.Auth.Models.{is_usable, AuthSession, User, is_active}
use encrypt_chat_app.Auth.Passwords.{verify}
use encrypt_chat_app.Auth.Tokens.{IsJwt, refresh_expiry}
use encrypt_chat_app.Auth.Database.{Database, IsDatabase, stored}
use encrypt_chat_app.Auth.Service.{
  Libraries, Draws, IssuedCredentials, LoginRun, open_session, opened_session, rehash, rehashed,
  login, login_valid, login_found, login_user, malformed, resolve_access_token,
}
use encrypt_chat_app.Auth.Service.Opening.{
  resolution, identity_of, is_usable-opened, IsFresh, resolve_access_token-issue_access_token,
  open_session_inv, rehashed_ids, rehash-rows,
}
use encrypt_chat_app.Auth.Service.Resolution.{raised_returned}

module _ (L : Libraries) (D : Database) (c : AuthConfig) where
  -- What a login has established when it opens a session.
  pub record IsAdmitted (t : FailedLoginTracker) (db db' : D.State) (username password : Text)
      (d : Draws) (cr : IssuedCredentials) : Type 0 where
    pub normalized : Text
    pub user : User
    pub validated : validate_username L.unicode username ≡ valid normalized
    pub free : (is_blocked t normalized d.checked_at).1 ≡ false
    pub found : D.user_by_normalized db normalized ≡ some user
    pub right : verify L.unicode L.argon2 c user.password_hash password ≡ true
    pub active : is_active user ≡ true
    pub opened :
        open_session L D c (rehash L D c db user password d) (rehashed L D c user password d) d
        ≡ (returned cr, db')

  login_user_inv :
      (t : FailedLoginTracker) (db : D.State) (normalized : Text) (user : User) (password : Text)
      (d : Draws) (cr : IssuedCredentials)
      → (login_user L D c t db normalized user password d).outcome ≡ returned cr
      → (verify L.unicode L.argon2 c user.password_hash password ≡ true)
        × (is_active user ≡ true)
        × (open_session L D c (rehash L D c db user password d) (rehashed L D c user password d) d
            ≡ (returned cr, (login_user L D c t db normalized user password d).db))
  unfolding login_user
  login_user_inv t db normalized user password d cr h =
      elim (Bool-cases (verify L.unicode L.argon2 c user.password_hash password)) [
        | inr wrong ↦ absurd (raised_returned (rw wrong at h))
        | inl right ↦ elim (Bool-cases (is_active user)) [
          | inr inactive ↦ absurd (raised_returned (rw (right, inactive) at h))
          | inl active ↦
              let opened =
                open_session L D c (rehash L D c db user password d)
                  (rehashed L D c user password d) d in
              let k : opened.0 ≡ returned cr = rw (right, active) at h in
              (right, active, rw (right, active) (ap (λ o. (o, opened.1)) k))
        ]
      ]

  login_valid_inv :
      (t : FailedLoginTracker) (db : D.State) (username normalized password : Text) (d : Draws)
      (cr : IssuedCredentials)
      → validate_username L.unicode username ≡ valid normalized
      → (login_valid L D c t db normalized password d).outcome ≡ returned cr
      → IsAdmitted t db (login_valid L D c t db normalized password d).db username password d cr
  unfolding login_valid
  login_valid_inv t db username normalized password d cr validated h =
      elim (Bool-cases (is_blocked t normalized d.checked_at).1) [
        | inl blocked ↦ absurd (raised_returned (rw blocked at h))
        | inr free ↦ rw free (go free (D.user_by_normalized db normalized) refl (rw free at h))
      ]
    where
      go :
          (is_blocked t normalized d.checked_at).1 ≡ false
          → (o : Option User) → D.user_by_normalized db normalized ≡ o
          → (login_found L D c
              (is_blocked t normalized d.checked_at).0
              db
              normalized
              o
              password
              d).outcome
            ≡ returned cr
          → IsAdmitted t db
              (login_found L D c
                (is_blocked t normalized d.checked_at).0
                db
                normalized
                o
                password
                d).db
              username
              password
              d
              cr
      go free none found k = absurd (raised_returned k)
      go free (some user) found k =
          let (right, active, opened) =
            login_user_inv (is_blocked t normalized d.checked_at).0 db normalized user password d cr
              k in
          record {
            normalized = normalized;
            user = user;
            validated = validated;
            free = free;
            found = found;
            right = right;
            active = active;
            opened = opened;
          }

  -- A login succeeds only for a valid name that is not blocked, whose account exists, is active and has
  -- this password.
  pub login-IsAdmitted :
      (t : FailedLoginTracker) (db : D.State) (username password : Text) (d : Draws)
      (cr : IssuedCredentials)
      → (login L D c t db username password d).outcome ≡ returned cr
      → IsAdmitted t db (login L D c t db username password d).db username password d cr
  unfolding login
  login-IsAdmitted t db username password d cr h = go (validate_username L.unicode username) refl h
    where
      go :
          (v : Username)
          → validate_username L.unicode username ≡ v
          → let r : LoginRun L D c = elim v [
            | invalid error ↦ malformed L D c t db
            | valid normalized ↦ login_valid L D c t db normalized password d
          ] in
            (r.outcome ≡ returned cr → IsAdmitted t db r.db username password d cr)
      go (invalid error) validated k = absurd (raised_returned k)
      go (valid normalized) validated k =
          login_valid_inv t db username normalized password d cr validated k

  -- With a lawful database and a lawful JWT library, the access token of a successful login resolves
  -- to the account and the session, while it is fresh and the session has not expired, if the driver
  -- keeps the time zones; with a driver that drops them, as SQLite's does, the call ends in an
  -- exception that is not an AuthError.
  pub login-resolve_access_token :
      (t : FailedLoginTracker) (db : D.State) (username password : Text) (d : Draws)
      (cr : IssuedCredentials) (at now : ℕ)
      → IsDatabase D
      → IsJwt L.jwt
      → (login L D c t db username password d).outcome ≡ returned cr
      → IsFresh L D c d.now at
      → now < refresh_expiry L.jwt c d.now
      → resolve_access_token L D c (login L D c t db username password d).db cr.access_token at now
        ≡ (if D.keeps_timezone
            then returned (record {
              user_id = cr.user_id;
              username = cr.username;
              session_id = cr.session_id;
            })
            else crashed)
  login-resolve_access_token t db username password d cr at now law jwt h fresh unexpired =
      let a = login-IsAdmitted t db username password d cr h in
      let user = rehashed L D c a.user password d in
      let s = rehash L D c db a.user password d in
      let db' = (login L D c t db username password d).db in
      let row = (law.user_row db a.normalized a.user a.found).0 in
      let (inserted, same) = open_session_inv L D c s db' user d cr a.opened in
      let (_, sessions, users, _) =
        law.inserted_session s db' (opened_session L D c user d) inserted in
      let (kept, _) = rehash-rows L D c db a.user password d law row in
      let ids = rehashed_ids L D c a.user password d in
      let session = stored D.keeps_timezone (opened_session L D c user d) in
      subst
        (λ (r : IssuedCredentials). resolve_access_token L D c db' r.access_token at now ≡ (
          if D.keeps_timezone
          then returned
              (record { user_id = r.user_id; username = r.username; session_id = r.session_id })
          else crashed))
        same
        (resolve_access_token-issue_access_token L D c db' user session d.token_id d.now at now jwt
            fresh (sessions d.session_id ∙ rw text_eq_refl refl) refl
            (users user.id ∙ ap (D.user_by_id s) ids.0 ∙ kept) (ids.1 ∙ a.active)
          ∙ decided session user (is_usable-opened L D c user d now unexpired))
    where
      decided :
          (a : AuthSession) (user : User)
          → is_usable a now ≡ (if D.keeps_timezone then returned true else crashed)
          → resolution L D c a user now
            ≡ (if D.keeps_timezone then returned (identity_of L D c user a.id) else crashed)
      decided a user h = elim (Bool-cases D.keeps_timezone) [
        | inl keeps ↦ rw (h, keeps) refl
        | inr drops ↦ rw (h, drops) refl
      ]
