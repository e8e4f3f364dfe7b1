-- ===== src/Auth/Service/Revocation/Writes.antt =====
-- The writes of the database keep what is revoked or missing.
use encrypt_chat_app.Base.{
  Bool, Bool-cases, Option, Text, ap, arith, false, if◌then◌else◌, inl, inr, none, refl, some,
  subst, sym, text_eq, text_eq_iff, true, ℕ, ◌∙◌, ◌≡◌, ◌≢◌,
}
use encrypt_chat_app.Auth.Config.{AuthConfig}
use encrypt_chat_app.Auth.Errors.{Outcome, returned, raised, crashed}
use encrypt_chat_app.Auth.Models.{User, AuthSession, is_none}
use encrypt_chat_app.Auth.Database.{stored, Database, IsDatabase, map_if, unless_of}
use encrypt_chat_app.Auth.Repository.{
  scalar_one_or_none, session_revoke, session_revoke_all_for_user, session_rotate_refresh_token,
  is_live_of,
}
use encrypt_chat_app.Auth.Repository
use encrypt_chat_app.Auth.Service.{Libraries}
use encrypt_chat_app.Auth.Service.Revocation.{committed, IsRevoked, Keeps}

pub text_ne : (s t : Text) → s ≢ t → text_eq s t ≡ false
text_ne s t h = ground (arith, text_eq_iff s t)

module _ (L : Libraries) (D : Database) (c : AuthConfig) (law : IsDatabase D)
    (session_id user_id : Text) where
  abbrev pub Kept : D.State → D.State → Type 0
  Kept db db' = Keeps L D c session_id user_id db db'

  pub Keeps-refl : (db : D.State) → Kept db db
  Keeps-refl db = record { revoked = λ h. h; missing = λ h. h }

  pub Keeps-trans : (a b e : D.State) → Kept a b → Kept b e → Kept a e
  Keeps-trans a b e s t = record {
    revoked = λ h. t.revoked (s.revoked h);
    missing = λ h. t.missing (s.missing h);
  }

  -- What is not committed keeps everything.
  pub committed-Keeps :
      {A : Type 0} (db db' : D.State) (o : Outcome A)
      → Kept db db'
      → Kept db (committed L D c db o db')
  committed-Keeps db db' (returned a) h = h
  committed-Keeps db db' (raised e) h = Keeps-refl db
  committed-Keeps db db' crashed h = Keeps-refl db

  pub insert_user-Keeps :
      (db db' : D.State) (user : User)
      → user.id ≢ user_id
      → D.insert_user db user ≡ some db'
      → Kept db db'
  insert_user-Keeps db db' user other h =
      let (ids, _, sessions) = law.inserted_user db db' user h in
      record {
        revoked = subst IsRevoked (sym (sessions session_id));
        missing = λ none. ids user_id ∙ rw (text_ne user.id user_id other) none;
      }

  pub insert_session-Keeps :
      (db db' : D.State) (a : AuthSession)
      → a.id ≢ session_id
      → D.insert_session db a ≡ some db'
      → Kept db db'
  insert_session-Keeps db db' a other h =
      let (_, sessions, users, _) = law.inserted_session db db' a h in
      record {
        revoked =
            subst IsRevoked (sym (sessions session_id ∙ rw (text_ne a.id session_id other) refl));
        missing = λ none. users user_id ∙ none;
      }

  some_distinct : {A : Type 0} {a : A} → some a ≡ none → ⊥
  some_distinct h = cc

  pub flush_user-Keeps :
      (db : D.State) (u v : User)
      → D.user_by_id db u.id ≡ some v
      → v.username_normalized ≡ u.username_normalized
      → Kept db (D.flush_user db u)
  flush_user-Keeps db u v row same =
      let (ids, sessions) = law.flushed_user db u v row same in
      record {
        revoked = subst IsRevoked (sym (sessions session_id));
        missing = λ missing.
            ids user_id
            ∙ rw
                (text_ne u.id user_id
                  (λ e. some_distinct (sym row ∙ ap (D.user_by_id db) e ∙ missing)))
                missing;
      }

  -- A session that is written keeps them if it is another one, or is revoked.
  pub flush_session-Keeps :
      (db : D.State) (a b : AuthSession)
      → D.session_by_id db a.id ≡ some b
      → (a.id ≡ session_id
          → IsRevoked (D.session_by_id db session_id)
          → is_none a.revoked_at ≡ false)
      → Kept db (D.flush_session db a)
  flush_session-Keeps db a b row h =
      let (sessions, users) = law.flushed_session db a b row in
      record {
        revoked = λ r. subst IsRevoked (sym (sessions session_id)) (written r);
        missing = λ missing. users user_id ∙ missing;
      }
    where
      written :
          IsRevoked (D.session_by_id db session_id)
          → IsRevoked (
              if text_eq a.id session_id
              then some (stored D.keeps_timezone a)
              else D.session_by_id db session_id)
      written r = elim (Bool-cases (text_eq a.id session_id)) [
        | inl e ↦ rw e (h ((text_eq_iff a.id session_id).0 e) r)
        | inr e ↦ rw e r
      ]

  pub update_sessions-Keeps :
      (db : D.State) (p : AuthSession → Bool) (now : ℕ)
      → Kept db (D.update_sessions db p (Repository.revoked now)).0
  update_sessions-Keeps db p now =
      let (sessions, users) =
        law.updated_sessions db p (Repository.revoked now) (λ a. refl) (λ a. refl) in
      record {
        revoked = λ r.
            subst IsRevoked (sym (sessions session_id)) (mapped (D.session_by_id db session_id) r);
        missing = λ missing. users user_id ∙ missing;
      }
    where
      mapped :
          (o : Option AuthSession) → IsRevoked o → IsRevoked (map_if p (Repository.revoked now) o)
      mapped none h = tt
      mapped (some a) h =
          elim (p a) as (λ b. IsRevoked (if b then some (Repository.revoked now a) else some a)) [
            | true ↦ refl
            | false ↦ h
          ]

  pub delete_user-Keeps : (db : D.State) (u : User) → Kept db (D.delete_user db u)
  delete_user-Keeps db u =
      let (users, sessions) = law.deleted_user db u in
      record {
        revoked = λ r.
            subst IsRevoked (sym (sessions session_id)) (left (D.session_by_id db session_id) r);
        missing = λ missing. users user_id ∙ gone missing;
      }
    where
      left : (o : Option AuthSession) → IsRevoked o → IsRevoked (unless_of u.id o)
      left none h = tt
      left (some a) h =
          elim (text_eq a.user_id u.id) as (λ b. IsRevoked (if b then none else some a)) [
            | true ↦ tt
            | false ↦ h
          ]

      gone :
          D.user_by_id db user_id ≡ none
          → (if text_eq u.id user_id then none else D.user_by_id db user_id) ≡ none
      gone missing =
          rw missing
            (elim (text_eq u.id user_id)
              as (λ b. (if b then none else (let r : Option User = none in r)) ≡ none) [
                | true ↦ refl
                | false ↦ refl
              ])
