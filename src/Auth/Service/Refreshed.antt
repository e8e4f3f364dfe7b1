-- ===== src/Auth/Service/Refreshed.antt =====
-- What a refresh that succeeds has established.
use encrypt_chat_app.Base.{
  Bool, Bool-cases, Option, Text, ap, false, inl, inr, none, refl, some, true, ◌≡◌,
}
use encrypt_chat_app.Auth.Config.{AuthConfig}
use encrypt_chat_app.Auth.Errors.{crashed, AuthError, Outcome, returned, raised}
use encrypt_chat_app.Auth.Models.{aware, User, AuthSession, is_active, is_usable}
use encrypt_chat_app.Auth.Tokens.{hash_refresh_token, refresh_expiry}
use encrypt_chat_app.Auth.Database.{Database, Rows, no_row, one_row, several_rows}
use encrypt_chat_app.Auth.Repository.{scalar_one_or_none, session_rotate_refresh_token}
use encrypt_chat_app.Auth.Service.{
  Libraries, Draws, IssuedCredentials, credentials, refresh, refresh_session, refresh_usable,
  refresh_user,
}
use encrypt_chat_app.Auth.Service.Resolution.{returned_inj}

module _ (L : Libraries) (D : Database) (c : AuthConfig) where
  abbrev pub hashed : Text → Text
  hashed token = hash_refresh_token L.jwt c token

  -- The row after the rotation.
  abbrev pub rotated : AuthSession → Draws → AuthSession
  rotated a d = record a {
    refresh_token_hash = hashed d.refresh_token;
    expires_at = aware (refresh_expiry L.jwt c d.now);
  }

  -- What a refresh has established when it succeeds.
  pub record IsRefreshed (db db' : D.State) (token : Text) (d : Draws) (cr : IssuedCredentials)
      : Type 0 where
    pub auth_session : AuthSession
    pub user : User
    pub row : D.sessions_by_hash db (hash_refresh_token L.jwt c token) ≡ one_row auth_session
    pub usable : is_usable auth_session d.now ≡ returned true
    pub account : D.user_by_id db auth_session.user_id ≡ some user
    pub active : is_active user ≡ true
    pub issued : credentials L D c user auth_session.id d ≡ cr
    pub rotation :
        session_rotate_refresh_token D db auth_session
          (hash_refresh_token L.jwt c d.refresh_token)
          (aware (refresh_expiry L.jwt c d.now))
        ≡ db'

  refused :
      {e : AuthError} {db db' : D.State} {cr : IssuedCredentials}
      → ◌≡◌ {A = Outcome IssuedCredentials × D.State} (raised e, db) (returned cr, db')
      → ⊥
  refused h = cc

  refresh_user_inv :
      (db db' : D.State) (token : Text) (a : AuthSession) (d : Draws) (cr : IssuedCredentials)
      (o : Option User)
      → D.sessions_by_hash db (hashed token) ≡ one_row a
      → is_usable a d.now ≡ returned true
      → D.user_by_id db a.user_id ≡ o
      → refresh_user L D c db a d o ≡ (returned cr, db')
      → IsRefreshed db db' token d cr
  refresh_user_inv db db' token a d cr none row usable account h = absurd (refused h)
  refresh_user_inv db db' token a d cr (some user) row usable account h =
      elim (Bool-cases (is_active user)) [
        | inr inactive ↦ absurd (refused (rw inactive at h))
        | inl active ↦
            let k : ◌≡◌ {A = Outcome IssuedCredentials × D.State}
                (
                  returned (credentials L D c user a.id d),
                  session_rotate_refresh_token D db a (hashed d.refresh_token)
                      (aware (refresh_expiry L.jwt c d.now)),
                )
                (returned cr, db') =
              rw active at h in
            record {
              auth_session = a;
              user = user;
              row = row;
              usable = usable;
              account = account;
              active = active;
              issued = returned_inj (ap (λ r. r.0) k);
              rotation = ap (λ r. r.1) k;
            }
      ]

  refresh_usable_inv :
      (db db' : D.State) (token : Text) (a : AuthSession) (d : Draws) (cr : IssuedCredentials)
      (o : Outcome Bool)
      → D.sessions_by_hash db (hashed token) ≡ one_row a
      → is_usable a d.now ≡ o
      → refresh_usable L D c db a d o ≡ (returned cr, db')
      → IsRefreshed db db' token d cr
  refresh_usable_inv db db' token a d cr (returned true) row usable h =
      refresh_user_inv db db' token a d cr (D.user_by_id db a.user_id) row usable refl h
  refresh_usable_inv db db' token a d cr (returned false) row usable h = absurd (refused h)
  refresh_usable_inv db db' token a d cr (raised e) row usable h = absurd (refused h)
  refresh_usable_inv db db' token a d cr crashed row usable h = cc

  refresh_session_inv :
      (db db' : D.State) (token : Text) (d : Draws) (cr : IssuedCredentials)
      (rows : Rows AuthSession)
      → D.sessions_by_hash db (hashed token) ≡ rows
      → refresh_session L D c db d (scalar_one_or_none rows) ≡ (returned cr, db')
      → IsRefreshed db db' token d cr
  refresh_session_inv db db' token d cr no_row row h = absurd (refused h)
  refresh_session_inv db db' token d cr several_rows row h = cc
  refresh_session_inv db db' token d cr (one_row a) row h =
      refresh_usable_inv db db' token a d cr (is_usable a d.now) row refl h

  pub refresh-IsRefreshed :
      (db db' : D.State) (token : Text) (d : Draws) (cr : IssuedCredentials)
      → refresh L D c db token d ≡ (returned cr, db')
      → IsRefreshed db db' token d cr
  unfolding refresh
  refresh-IsRefreshed db db' token d cr h =
      refresh_session_inv db db' token d cr (D.sessions_by_hash db (hashed token)) refl h
