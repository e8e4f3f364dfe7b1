-- ===== src/Auth/Service/Revocation/Forever.antt =====
-- Logout and deletion hold for good.
use encrypt_chat_app.Base.{
  All, Bool-cases, List, Option, Option-cases, Text, ap, inl, inr, none, refl, some, subst, sym,
  text_eq_refl, true, ℕ, ◌∙◌, ◌≡◌, ◌≢◌,
}
use encrypt_chat_app.Auth.Config.{AuthConfig}
use encrypt_chat_app.Auth.Errors.{returned}
use encrypt_chat_app.Auth.Models.{AuthSession, User, is_none, is_usable}
use encrypt_chat_app.Auth.Passwords.{verify}
use encrypt_chat_app.Auth.Database.{Database, IsDatabase, stored}
use encrypt_chat_app.Auth.Repository.{session_revoke}
use encrypt_chat_app.Auth.Repository
use encrypt_chat_app.Auth.Service.{
  Libraries, resolve_access_token, logout, delete_account, delete_user,
}
use encrypt_chat_app.Auth.Service.Resolution.{
  resolve_access_token-IsBacked, raised_returned, returned_inj,
}
use encrypt_chat_app.Auth.Service.Revocation.{Operation, Avoids, perform_all, IsRevoked}
use encrypt_chat_app.Auth.Service.Revocation.Steps.{perform_all-Keeps}
use encrypt_chat_app.Websocket.Authentication.{AuthenticatedIdentity}

module _ (L : Libraries) (D : Database) (c : AuthConfig) where
  revoke-IsRevoked :
      (db : D.State) (a : AuthSession) (now : ℕ)
      → IsDatabase D
      → D.session_by_id db a.id ≡ some a
      → IsRevoked (D.session_by_id (session_revoke D db a now) a.id)
  unfolding session_revoke
  revoke-IsRevoked db a now law row = elim (Bool-cases (is_none a.revoked_at)) [
    | inr dead ↦ rw dead (subst IsRevoked (sym row) dead)
    | inl live ↦
        let dead : AuthSession = Repository.revoked now a in
        let written : D.session_by_id (D.flush_session db dead) a.id
            ≡ some (stored D.keeps_timezone dead) =
          (law.flushed_session db dead a row).0 a.id ∙ rw text_eq_refl refl in
        rw live (subst IsRevoked (sym written) refl)
  ]

  logout-IsRevoked :
      (db : D.State) (session_id : Text) (now : ℕ)
      → IsDatabase D
      → IsRevoked (D.session_by_id (logout L D c db session_id now) session_id)
  unfolding logout
  logout-IsRevoked db session_id now law = elim (Option-cases (D.session_by_id db session_id)) [
    | inl missing ↦ rw (missing, logout) (subst IsRevoked (sym missing) tt)
    | inr (a, found) ↦
        let key = law.session_key db session_id a found in
        rw (found, logout)
          (subst (λ i. IsRevoked (D.session_by_id (session_revoke D db a now) i)) key
            (revoke-IsRevoked db a now law (ap (D.session_by_id db) key ∙ found)))
  ]

  revoked_unusable :
      (o : Option AuthSession) (a : AuthSession) (now : ℕ)
      → o ≡ some a
      → IsRevoked o
      → is_usable a now ≡ returned true
      → ⊥
  revoked_unusable o a now found r usable =
      let dead : IsRevoked (some a) = subst IsRevoked found r in
      cc (returned_inj (rw dead at usable))

  -- After a session has been logged out, no token resolves to it again, at any time and whatever
  -- operations follow, if none of them draws the session's id or the given account id anew.
  pub logout_forever :
      (db : D.State) (session_id user_id token : Text) (now at later : ℕ)
      (operations : List Operation) (identity : AuthenticatedIdentity)
      → IsDatabase D
      → All (Avoids session_id user_id) operations
      → resolve_access_token L D c
          (perform_all L D c (logout L D c db session_id now) operations)
          token
          at
          later
        ≡ returned identity
      → identity.session_id ≢ session_id
  logout_forever db session_id user_id token now at later operations identity law avoids h same =
      let out = logout L D c db session_id now in
      let end = perform_all L D c out operations in
      let r =
        (perform_all-Keeps L D c law session_id user_id out operations avoids).revoked
          (logout-IsRevoked db session_id now law) in
      let backed = resolve_access_token-IsBacked L D c end token at later identity law h in
      revoked_unusable (D.session_by_id end session_id) backed.auth_session later
        (ap (D.session_by_id end) (sym same) ∙ backed.found) r backed.usable

  delete_account-missing :
      (db : D.State) (identity : AuthenticatedIdentity) (password : Text) (now : ℕ)
      → IsDatabase D
      → (delete_account L D c db identity password now).0 ≡ returned tt
      → D.user_by_id (delete_account L D c db identity password now).1 identity.user_id ≡ none
  unfolding delete_account
  delete_account-missing db identity password now law = go (D.user_by_id db identity.user_id) refl
    where
      go :
          (o : Option User)
          → D.user_by_id db identity.user_id ≡ o
          → (delete_user L D c db password now o).0 ≡ returned tt
          → D.user_by_id (delete_user L D c db password now o).1 identity.user_id ≡ none
      go none missing h = absurd (raised_returned h)
      go (some user) found h =
          elim (Bool-cases (verify L.unicode L.argon2 c user.password_hash password)) [
            | inr wrong ↦ absurd (raised_returned (rw wrong at h))
            | inl right ↦ rw right (
                (law.deleted_user _ user).0 identity.user_id
                ∙ rw (law.user_key db identity.user_id user found, text_eq_refl) refl)
          ]

  -- With a lawful database, after an account has been deleted, no token resolves to it again, at
  -- any time and whatever operations follow, if none of them draws the account's id or the given
  -- session id anew.
  pub delete_account_forever :
      (db : D.State) (deleted : AuthenticatedIdentity) (password session_id token : Text)
      (now at later : ℕ) (operations : List Operation) (identity : AuthenticatedIdentity)
      → IsDatabase D
      → (delete_account L D c db deleted password now).0 ≡ returned tt
      → All (Avoids session_id deleted.user_id) operations
      → resolve_access_token L D c
          (perform_all L D c (delete_account L D c db deleted password now).1 operations)
          token
          at
          later
        ≡ returned identity
      → identity.user_id ≢ deleted.user_id
  delete_account_forever db deleted password session_id token now at later operations identity law
        done avoids h same =
      let gone = (delete_account L D c db deleted password now).1 in
      let end = perform_all L D c gone operations in
      let missing =
        (perform_all-Keeps L D c law session_id deleted.user_id gone operations avoids).missing
          (delete_account-missing db deleted password now law done) in
      let backed = resolve_access_token-IsBacked L D c end token at later identity law h in
      some_distinct (sym backed.account ∙ ap (D.user_by_id end) same ∙ missing)
    where
      some_distinct : {A : Type 0} {a : A} → some a ≡ none → ⊥
      some_distinct h = cc
