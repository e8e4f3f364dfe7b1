-- ===== src/Auth/Service/Resolution.antt =====
-- What a resolved access token says of the database.
use encrypt_chat_app.Base.{
  Bool, Bool-cases, Option, Text, ap, false, if◌then◌else◌, inl, inr, none, not, refl, some, subst,
  text_eq, text_eq_iff, true, ℕ, ◌∙◌, ◌≡◌,
}
use encrypt_chat_app.Auth.Config.{AuthConfig}
use encrypt_chat_app.Auth.Errors.{AuthError, returned, raised, >>=-eq-returned}
use encrypt_chat_app.Auth.Models.{User, AuthSession, is_active, is_usable}
use encrypt_chat_app.Auth.Tokens.{AccessTokenClaims, decode_access_token}
use encrypt_chat_app.Auth.Database.{Database, IsDatabase}
use encrypt_chat_app.Auth.Service.{
  unusable, Libraries, identify, resolve_user, resolve_session, resolve_access_token,
}
use encrypt_chat_app.Websocket.Authentication.{AuthenticatedIdentity}

pub raised_returned : {A : Type 0} {e : AuthError} {a : A} → raised e ≡ returned a → ⊥
raised_returned h = cc

pub returned_inj : {A : Type 0} {a b : A} → returned a ≡ returned b → a ≡ b
returned_inj h = cc

module _ (L : Libraries) (D : Database) (c : AuthConfig) where
  -- The session and the account behind a resolved token.
  pub record IsBacked (db : D.State) (now : ℕ) (identity : AuthenticatedIdentity) : Type 0 where
    pub auth_session : AuthSession
    pub user : User
    pub found : D.session_by_id db identity.session_id ≡ some auth_session
    pub usable : is_usable auth_session now ≡ returned true
    pub owned : auth_session.user_id ≡ identity.user_id
    pub account : D.user_by_id db identity.user_id ≡ some user
    pub active : is_active user ≡ true
    pub named : identity.username ≡ user.username

  resolve_user_inv :
      (a : AuthSession) (o : Option User) (identity : AuthenticatedIdentity)
      → resolve_user L D c a o ≡ returned identity
      → (user : User) × (o ≡ some user)
        × (is_active user ≡ true)
        × (a.user_id ≡ user.id)
        × (identify L D c a user ≡ identity)
  resolve_user_inv a none identity h = absurd (raised_returned h)
  resolve_user_inv a (some user) identity h = elim (Bool-cases (is_active user)) [
    | inr inactive ↦ absurd (raised_returned (rw inactive at h))
    | inl active ↦ elim (Bool-cases (text_eq a.user_id user.id)) [
      | inr mismatch ↦ absurd (raised_returned (rw (active, mismatch) at h))
      | inl same ↦ (
        user,
        refl,
        active,
        (text_eq_iff a.user_id user.id).0 same,
        returned_inj (rw (active, same) at h),
      )
    ]
  ]

  resolve_session_inv :
      (db : D.State) (now : ℕ) (claims : AccessTokenClaims) (o : Option AuthSession)
      (identity : AuthenticatedIdentity)
      → resolve_session L D c db now claims o ≡ returned identity
      → (a : AuthSession) × (o ≡ some a)
        × (is_usable a now ≡ returned true)
        × (resolve_user L D c a (D.user_by_id db claims.user_id) ≡ returned identity)
  resolve_session_inv db now claims none identity h = absurd (raised_returned h)
  resolve_session_inv db now claims (some a) identity h =
      let (b, usable, k) =
        >>=-eq-returned (is_usable a now)
          (λ usable.
            if not usable
            then raised (unusable L D c a)
            else resolve_user L D c a (D.user_by_id db claims.user_id))
          h in
      go b usable k
    where
      go :
          (b : Bool)
          → is_usable a now ≡ returned b
          → (if not b
              then raised (unusable L D c a)
              else resolve_user L D c a (D.user_by_id db claims.user_id))
            ≡ returned identity
          → (x : AuthSession) × (some a ≡ some x)
            × (is_usable x now ≡ returned true)
            × (resolve_user L D c x (D.user_by_id db claims.user_id) ≡ returned identity)
      go true usable k = (a, refl, usable, k)
      go false usable k = absurd (raised_returned k)

  -- With a lawful database, a token resolves only to an identity with a session that is neither
  -- revoked nor expired, which belongs to the identity's account, and whose account is active and
  -- has that username.
  pub resolve_access_token-IsBacked :
      (db : D.State) (token : Text) (at now : ℕ) (identity : AuthenticatedIdentity)
      → IsDatabase D
      → resolve_access_token L D c db token at now ≡ returned identity
      → IsBacked db now identity
  unfolding resolve_access_token
  resolve_access_token-IsBacked db token at now identity law h =
      let (claims, _, h₁) =
        >>=-eq-returned (decode_access_token L.jwt c token at)
          (λ claims. resolve_session L D c db now claims (D.session_by_id db claims.session_id))
          h in
      let (a, found, usable, h₂) =
        resolve_session_inv db now claims (D.session_by_id db claims.session_id) identity h₁ in
      let (user, account, active, owned, same) =
        resolve_user_inv a (D.user_by_id db claims.user_id) identity h₂ in
      let key : user.id ≡ claims.user_id = law.user_key db claims.user_id user account in
      let session_key : a.id ≡ claims.session_id = law.session_key db claims.session_id a found in
      subst (IsBacked db now) same (record {
        auth_session = a;
        user = user;
        found = ap (D.session_by_id db) session_key ∙ found;
        usable = usable;
        owned = owned;
        account = ap (D.user_by_id db) key ∙ account;
        active = active;
        named = refl;
      })
