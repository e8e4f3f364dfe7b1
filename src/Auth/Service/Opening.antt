-- ===== src/Auth/Service/Opening.antt =====
-- The session that a login opens, and the token that it is answered with.
use encrypt_chat_app.Base.{
  Bool-cases, Option, Text, ap, arith, false, if◌then◌else◌, inl, inr, leb, none, not, refl, some,
  text_eq, text_eq_iff, text_eq_refl, true, ℕ, ◌*◌, ◌+◌, ◌<◌, ◌∙◌, ◌≡◌, ◌≤◌,
}
use encrypt_chat_app.Auth.Config.{AuthConfig}
use encrypt_chat_app.Auth.Errors.{Outcome, returned, raised, crashed, ◌>>=◌}
use encrypt_chat_app.Auth.Models.{User, AuthSession, is_active, is_usable}
use encrypt_chat_app.Auth.Passwords.{needs_rehash}
use encrypt_chat_app.Auth.Tokens.{IsJwt, minutes, timestamp, issue_access_token}
use encrypt_chat_app.Auth.Tokens.Lifetime.{decode_access_token-issue_access_token}
use encrypt_chat_app.Auth.Database.{Database, IsDatabase, stored}
use encrypt_chat_app.Auth.Service.{
  refresh_expiry, Libraries, Draws, IssuedCredentials, credentials, opened_session, session_opened,
  open_session, rehash, rehashed, upgraded, resolve_access_token, resolve_session, unusable,
}
use encrypt_chat_app.Auth.Service.Resolution.{returned_inj}
use encrypt_chat_app.Websocket.Authentication.{AuthenticatedIdentity}
use encrypt_chat_app.Websocket.Limits.{second}

module _ (L : Libraries) (D : Database) (c : AuthConfig) where
  -- The time in which an access token that was issued at `now` counts as fresh, by the whole second.
  abbrev pub IsFresh : ℕ → ℕ → Type 0
  IsFresh now at = (now ≤ at) × (at < timestamp (now + minutes c.access_token_ttl_minutes) * second)

  abbrev pub identity_of : User → Text → AuthenticatedIdentity
  identity_of user session_id = record {
    user_id = user.id;
    username = user.username;
    session_id = session_id;
  }

  -- How a fresh token of an active account resolves: it is the session that decides.
  abbrev pub resolution : AuthSession → User → ℕ → Outcome AuthenticatedIdentity
  resolution a user now = is_usable a now >>= λ usable.
      if not usable then raised (unusable L D c a) else returned (identity_of user a.id)

  pub resolve_access_token-issue_access_token :
      (db : D.State) (user : User) (a : AuthSession) (token_id : Text) (issued at now : ℕ)
      → IsJwt L.jwt
      → IsFresh issued at
      → D.session_by_id db a.id ≡ some a
      → a.user_id ≡ user.id
      → D.user_by_id db user.id ≡ some user
      → is_active user ≡ true
      → resolve_access_token L D c db
          (issue_access_token L.jwt c user.id a.id token_id issued)
          at
          now
        ≡ resolution a user now
  unfolding resolve_access_token
  resolve_access_token-issue_access_token db user a token_id issued at now jwt fresh found owned
        account active =
      let live : leb (timestamp (issued + minutes c.access_token_ttl_minutes) * second) at ≡ false =
        ground (arith, fresh.1) in
      let owner : text_eq a.user_id user.id ≡ true = (text_eq_iff a.user_id user.id).1 owned in
      rw
        (decode_access_token-issue_access_token L.jwt c user.id a.id token_id issued at jwt fresh.0)
        (rw live (rw (found, resolve_session, account, active, owner) refl))

  -- The session that a login opens is usable until it expires, and its test fails on a driver that
  -- drops the time zones.
  pub is_usable-opened :
      (user : User) (d : Draws) (now : ℕ)
      → now < refresh_expiry L.jwt c d.now
      → is_usable (stored D.keeps_timezone (opened_session L D c user d)) now
        ≡ (if D.keeps_timezone then returned true else crashed)
  is_usable-opened user d now unexpired = elim (Bool-cases D.keeps_timezone) [
    | inl keeps ↦ rw keeps (ap returned (ground (arith, unexpired)))
    | inr drops ↦ rw drops refl
  ]

  session_opened_inv :
      (db db' : D.State) (user : User) (d : Draws) (o : Option D.State) (cr : IssuedCredentials)
      → session_opened L D c db user d o ≡ (returned cr, db')
      → (o ≡ some db') × (credentials L D c user d.session_id d ≡ cr)
  session_opened_inv db db' user d none cr h = cc
  session_opened_inv db db' user d (some t) cr h =
      (ap some (ap (λ r. r.1) h), returned_inj (ap (λ r. r.0) h))

  pub open_session_inv :
      (db db' : D.State) (user : User) (d : Draws) (cr : IssuedCredentials)
      → open_session L D c db user d ≡ (returned cr, db')
      → (D.insert_session db (opened_session L D c user d) ≡ some db')
        × (credentials L D c user d.session_id d ≡ cr)
  unfolding open_session
  open_session_inv db db' user d cr h =
      session_opened_inv db db' user d (D.insert_session db (opened_session L D c user d)) cr h

  -- A flush of the upgraded hash leaves the sessions and the other accounts alone.
  pub rehash-rows :
      (db : D.State) (user : User) (password : Text) (d : Draws)
      → IsDatabase D
      → D.user_by_id db user.id ≡ some user
      → (D.user_by_id (rehash L D c db user password d) user.id
          ≡ some (rehashed L D c user password d))
        × ((i : Text) → D.session_by_id (rehash L D c db user password d) i ≡ D.session_by_id db i)
  rehash-rows db user password d law row =
      elim (Bool-cases (needs_rehash L.unicode L.argon2 c user.password_hash)) [
        | inr current ↦ rw current (row, λ i. refl)
        | inl outdated ↦
            let (users, sessions) =
              law.flushed_user db (upgraded L D c user password d) user row refl in
            rw outdated (users user.id ∙ rw text_eq_refl refl, sessions)
      ]

  pub rehashed_ids :
      (user : User) (password : Text) (d : Draws)
      → ((rehashed L D c user password d).id ≡ user.id)
        × (is_active (rehashed L D c user password d) ≡ is_active user)
  rehashed_ids user password d =
      elim (Bool-cases (needs_rehash L.unicode L.argon2 c user.password_hash)) [
        | inl outdated ↦ rw outdated (refl, refl)
        | inr current ↦ rw current (refl, refl)
      ]
