-- ===== src/Auth/Service/Refresh.antt =====
-- The rotation of refresh tokens.
use encrypt_chat_app.Base.{
  Bool-cases, Text, ap, arith, codes, if◌then◌else◌, inl, inr, refl, some, subst, sym, text_eq,
  text_eq_iff, text_eq_refl, true, ℕ, ◌<◌, ◌∙◌, ◌≡◌, ◌≢◌,
}
use encrypt_chat_app.Auth.Config.{AuthConfig}
use encrypt_chat_app.Auth.Errors.{returned, raised, auth_error, session_revoked}
use encrypt_chat_app.Auth.Models.{is_none, aware, User, AuthSession, is_active, is_usable}
use encrypt_chat_app.Auth.Tokens.{hash_refresh_token, refresh_expiry}
use encrypt_chat_app.Auth.Database.{Database, IsDatabase, one_row, stored}
use encrypt_chat_app.Auth.Repository.{session_rotate_refresh_token}
use encrypt_chat_app.Auth.Service.{Libraries, Draws, IssuedCredentials, credentials, refresh}
use encrypt_chat_app.Websocket.Schemas.Valid.{some_inj}
use encrypt_chat_app.Auth.Service.Resolution.{returned_inj}
use encrypt_chat_app.Auth.Service.Refreshed.{hashed, rotated, refresh-IsRefreshed}

module _ (L : Libraries) (D : Database) (c : AuthConfig) where
  -- The sessions after a rotation.
  rotated_rows :
      (db : D.State) (token : Text) (a : AuthSession) (d : Draws)
      → IsDatabase D
      → D.sessions_by_hash db (hashed L D c token) ≡ one_row a
      → (i : Text)
      → D.session_by_id
          (session_rotate_refresh_token D db a
            (hashed L D c d.refresh_token)
            (aware (refresh_expiry L.jwt c d.now)))
          i
        ≡ (if text_eq a.id i
            then some (stored D.keeps_timezone (rotated L D c a d))
            else D.session_by_id db i)
  unfolding session_rotate_refresh_token
  rotated_rows db token a d law row =
      (law.flushed_session db (rotated L D c a d) a
        (law.hash_row db (hashed L D c token) a row).0).0

  -- With a lawful database, after a successful refresh, the token that it was given is not
  -- recognized any more, if the hash of the new token differs from its own.
  pub refresh_rotates :
      (db db' : D.State) (token : Text) (d later : Draws) (cr : IssuedCredentials)
      → IsDatabase D
      → refresh L D c db token d ≡ (returned cr, db')
      → hash_refresh_token L.jwt c d.refresh_token ≢ hash_refresh_token L.jwt c token
      → refresh L D c db' token later
        ≡ (raised (auth_error session_revoked (codes "refresh token not recognized")), db')
  refresh_rotates db db' token d later cr law h differs =
      let r = refresh-IsRefreshed L D c db db' token d cr h in
      let a = r.auth_session in
      let (found, hash, only) = law.hash_row db (hashed L D c token) a r.row in
      unfold refresh in
      (rw (law.hash_none db' (hashed L D c token) (absent a r.row r.rotation)) refl)
    where
      absent :
          (a : AuthSession)
          → D.sessions_by_hash db (hashed L D c token) ≡ one_row a
          → session_rotate_refresh_token D db a
              (hashed L D c d.refresh_token)
              (aware (refresh_expiry L.jwt c d.now))
            ≡ db'
          → (i : Text) (b : AuthSession) → D.session_by_id db' i ≡ some b
          → b.refresh_token_hash ≢ hashed L D c token
      absent a row rotation i b found same = elim (Bool-cases (text_eq a.id i)) [
        | inl e ↦
            let new : stored D.keeps_timezone (rotated L D c a d) ≡ b = some_inj (rw e at k) in
            differs (ap (λ r. r.refresh_token_hash) new ∙ same)
        | inr e ↦
            let (stored, hash, only) = law.hash_row db (hashed L D c token) a row in
            let b_row : D.session_by_id db i ≡ some b = rw e at k in
            let b_id : b.id ≡ i = law.session_key db i b b_row in
            cc
              (sym ((text_eq_iff a.id i).1 (ap (λ r. r.id) (sym (only i b b_row same)) ∙ b_id)) ∙ e)
      ]
        where
          k :
              (if text_eq a.id i
                then some (stored D.keeps_timezone (rotated L D c a d))
                else D.session_by_id db i)
              ≡ some b
          k =
              sym (rotated_rows db token a d law row i)
              ∙ ap (λ t. D.session_by_id t i) rotation
              ∙ found

  refresh_known :
      (db : D.State) (token : Text) (a : AuthSession) (user : User) (later : Draws)
      → D.sessions_by_hash db (hashed L D c token) ≡ one_row a
      → is_usable a later.now ≡ returned true
      → D.user_by_id db a.user_id ≡ some user
      → is_active user ≡ true
      → (refresh L D c db token later).0 ≡ returned (credentials L D c user a.id later)
  unfolding refresh
  refresh_known db token a user later row usable account active =
      rw (row, usable, account, active) refl

  -- The renewed session is the only one with the new hash.
  rotated_row :
      (db : D.State) (token : Text) (a : AuthSession) (d : Draws)
      → IsDatabase D
      → D.sessions_by_hash db (hashed L D c token) ≡ one_row a
      → ((i : Text) (b : AuthSession)
          → D.session_by_id db i ≡ some b
          → b.refresh_token_hash ≢ hashed L D c d.refresh_token)
      → D.sessions_by_hash
          (session_rotate_refresh_token D db a
            (hashed L D c d.refresh_token)
            (aware (refresh_expiry L.jwt c d.now)))
          (hashed L D c d.refresh_token)
        ≡ one_row (stored D.keeps_timezone (rotated L D c a d))
  rotated_row db token a d law row unused =
      law.hash_one
        (session_rotate_refresh_token D db a (hashed L D c d.refresh_token)
          (aware (refresh_expiry L.jwt c d.now)))
        (hashed L D c d.refresh_token) a.id (stored D.keeps_timezone (rotated L D c a d))
        (rotated_rows db token a d law row a.id ∙ rw text_eq_refl refl) refl only
    where
      only :
          (k : Text) (b : AuthSession)
          → D.session_by_id
              (session_rotate_refresh_token D db a
                (hashed L D c d.refresh_token)
                (aware (refresh_expiry L.jwt c d.now)))
              k
            ≡ some b
          → b.refresh_token_hash ≡ hashed L D c d.refresh_token
          → b ≡ stored D.keeps_timezone (rotated L D c a d)
      only k b found same = elim (Bool-cases (text_eq a.id k)) [
        | inl e ↦ sym (some_inj (rw e at at_row))
        | inr e ↦ absurd (unused k b (rw e at at_row) same)
      ]
        where
          at_row :
              (if text_eq a.id k
                then some (stored D.keeps_timezone (rotated L D c a d))
                else D.session_by_id db k)
              ≡ some b
          at_row = sym (rotated_rows db token a d law row k) ∙ found

  is_usable-rotated :
      (a : AuthSession) (d : Draws) (now : ℕ)
      → D.keeps_timezone ≡ true
      → is_usable a d.now ≡ returned true
      → now < refresh_expiry L.jwt c d.now
      → is_usable (stored D.keeps_timezone (rotated L D c a d)) now ≡ returned true
  is_usable-rotated a d now keeps usable unexpired = elim (Bool-cases (is_none a.revoked_at)) [
    | inl live ↦ rw (keeps, live) (ap returned (ground (arith, unexpired)))
    | inr dead ↦ cc (returned_inj (rw dead at usable))
  ]

  -- With a lawful database whose driver keeps the time zones, when no session has the hash of the new
  -- token yet, a refresh with the new token succeeds for the same session and account, until the
  -- renewed session expires.
  pub refresh_continues :
      (db db' : D.State) (token : Text) (d later : Draws) (cr : IssuedCredentials)
      → IsDatabase D
      → D.keeps_timezone ≡ true
      → refresh L D c db token d ≡ (returned cr, db')
      → ((i : Text) (b : AuthSession)
          → D.session_by_id db i ≡ some b
          → b.refresh_token_hash ≢ hash_refresh_token L.jwt c d.refresh_token)
      → later.now < refresh_expiry L.jwt c d.now
      → (next : IssuedCredentials) × ((refresh L D c db' cr.refresh_token later).0 ≡ returned next)
        × (next.session_id ≡ cr.session_id)
        × (next.user_id ≡ cr.user_id)
  refresh_continues db db' token d later cr law keeps h unused unexpired =
      let r = refresh-IsRefreshed L D c db db' token d cr h in
      let a = r.auth_session in
      subst
        (λ (x : IssuedCredentials).
          (next : IssuedCredentials) × ((refresh L D c db' x.refresh_token later).0 ≡ returned next)
          × (next.session_id ≡ x.session_id)
          × (next.user_id ≡ x.user_id))
        r.issued
        (
          credentials L D c r.user a.id later,
          subst
              (λ t.
                (refresh L D c t d.refresh_token later).0
                ≡ returned (credentials L D c r.user a.id later))
              r.rotation (renewed a r.user r.row r.usable r.account r.active),
          refl,
          refl,
        )
    where
      renewed :
          (a : AuthSession) (user : User)
          → D.sessions_by_hash db (hashed L D c token) ≡ one_row a
          → is_usable a d.now ≡ returned true
          → D.user_by_id db a.user_id ≡ some user
          → is_active user ≡ true
          → (refresh L D c
              (session_rotate_refresh_token D db a
                (hashed L D c d.refresh_token)
                (aware (refresh_expiry L.jwt c d.now)))
              d.refresh_token
              later).0
            ≡ returned (credentials L D c user a.id later)
      renewed a user row usable account active =
          refresh_known _ d.refresh_token (stored D.keeps_timezone (rotated L D c a d)) user later
            (rotated_row db token a d law row unused)
            (is_usable-rotated a d later.now keeps usable unexpired)
            (unfold session_rotate_refresh_token in
              (law.flushed_session db (rotated L D c a d) a
                  (law.hash_row db (hashed L D c token) a row).0).1
                a.user_id
              ∙ account)
            active
