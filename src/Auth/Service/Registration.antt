-- ===== src/Auth/Service/Registration.antt =====
-- A registration, and the logins and registrations that follow it.
use encrypt_chat_app.Base.{
  Option, Text, ap, arith, codes, false, none, refl, some, subst, sym, text_eq_iff, text_eq_refl,
  true, ◌++◌, ◌∙◌, ◌≡◌,
}
use encrypt_chat_app.Auth.Config.{AuthConfig}
use encrypt_chat_app.Auth.Errors.{
  Outcome, returned, raised, auth_error_with, registration_rejected, validation_failed,
}
use encrypt_chat_app.Auth.FailedLogins.{FailedLoginTracker, is_blocked}
use encrypt_chat_app.Auth.Identifiers.{Username, valid, invalid, validate_username}
use encrypt_chat_app.Auth.Models.{conflicts, User, is_active, active}
use encrypt_chat_app.Auth.Passwords.{IsArgon2, PasswordPolicyError, validate_policy, verify, hash}
use encrypt_chat_app.Auth.Passwords
use encrypt_chat_app.Auth.Database.{Database, IsDatabase}
use encrypt_chat_app.Auth.Repository.{new_user, user_create}
use encrypt_chat_app.Auth.Service.{
  Libraries, Draws, IssuedCredentials, credentials, rehashed, login, register, register_valid,
  register_user, invalid_username,
}
use encrypt_chat_app.Auth.Service.Opening.{rehashed_ids}
use encrypt_chat_app.Auth.Service.Resolution.{raised_returned, returned_inj}
use encrypt_chat_app.Auth.Service.Granted.{login-returned}

module _ (L : Libraries) (D : Database) (c : AuthConfig) where
  -- What a registration has established when it succeeds.
  pub record IsRegistered (db db' : D.State) (username password : Text) (d : Draws) (user : User)
      : Type 0 where
    pub normalized : Text
    pub validated : validate_username L.unicode username ≡ valid normalized
    pub accepted : validate_policy c password ≡ none
    pub created :
        new_user d.user_id
          (L.unicode.strip username)
          normalized
          (hash L.unicode L.argon2 c d.salt password)
          d.now
        ≡ user
    pub inserted : D.insert_user db user ≡ some db'

  register_user_inv :
      (db db' : D.State) (u user : User) (o : Option D.State)
      → register_user L D c db u o ≡ (returned user, db')
      → (u ≡ user) × (o ≡ some db')
  register_user_inv db db' u user none h = cc
  register_user_inv db db' u user (some t) h =
      (returned_inj (ap (λ r. r.0) h), ap some (ap (λ r. r.1) h))

  register_valid_inv :
      (db db' : D.State) (username normalized password : Text) (d : Draws) (user : User)
      → validate_username L.unicode username ≡ valid normalized
      → register_valid L D c db username normalized password d ≡ (returned user, db')
      → IsRegistered db db' username password d user
  register_valid_inv db db' username normalized password d user validated h =
      go (validate_policy c password) refl h
    where
      candidate : User
      candidate =
          new_user d.user_id (L.unicode.strip username) normalized
            (hash L.unicode L.argon2 c d.salt password) d.now

      go :
          (p : Option PasswordPolicyError)
          → validate_policy c password ≡ p
          → (let r : Outcome User × D.State = elim p [
            | some error ↦ (
              raised (
                  auth_error_with validation_failed 400
                    (codes "invalid password: " ++ Passwords.reason L.print c error)),
              db,
            )
            | none ↦ register_user L D c db candidate (user_create D db candidate)
          ] in
              r)
            ≡ (returned user, db')
          → IsRegistered db db' username password d user
      go (some error) accepted k = absurd (raised_returned (ap (λ r. r.0) k))
      go none accepted k =
          let (created, inserted) =
            register_user_inv db db' candidate user (user_create D db candidate) k in
          record {
            normalized = normalized;
            validated = validated;
            accepted = accepted;
            created = created;
            inserted = subst (λ u. D.insert_user db u ≡ some db') created inserted;
          }

  pub register-IsRegistered :
      (db db' : D.State) (username password : Text) (d : Draws) (user : User)
      → register L D c db username password d ≡ (returned user, db')
      → IsRegistered db db' username password d user
  unfolding register
  register-IsRegistered db db' username password d user h =
      go (validate_username L.unicode username) refl h
    where
      go :
          (v : Username)
          → validate_username L.unicode username ≡ v
          → (let r : Outcome User × D.State = elim v [
            | invalid error ↦ (invalid_username L D c error, db)
            | valid normalized ↦ register_valid L D c db username normalized password d
          ] in
              r)
            ≡ (returned user, db')
          → IsRegistered db db' username password d user
      go (invalid error) validated k = absurd (raised_returned (ap (λ r. r.0) k))
      go (valid normalized) validated k =
          register_valid_inv db db' username normalized password d user validated k

  -- The account that a registration has created is found by its name.
  registered_row :
      (db db' : D.State) (username password : Text) (d : Draws) (user : User)
      → IsDatabase D
      → IsRegistered db db' username password d user
      → D.user_by_normalized db' user.username_normalized ≡ some user
  registered_row db db' username password d user law r =
      let (_, by_name, _) = law.inserted_user db db' user r.inserted in
      by_name user.username_normalized ∙ rw text_eq_refl refl

  verify-created :
      (username normalized password : Text) (d : Draws) (user : User)
      → IsArgon2 L.argon2
      → new_user d.user_id
          (L.unicode.strip username)
          normalized
          (hash L.unicode L.argon2 c d.salt password)
          d.now
        ≡ user
      → (user.username_normalized ≡ normalized)
        × (verify L.unicode L.argon2 c user.password_hash password ≡ true)
        × (is_active user ≡ true)
  unfolding verify hash
  verify-created username normalized password d user argon created =
      subst
        (λ (u : User).
          (u.username_normalized ≡ normalized)
          × (verify L.unicode L.argon2 c u.password_hash password ≡ true)
          × (is_active u ≡ true))
        created (refl, argon.verify-hash _ _ _, text_eq_refl active)

  -- With a lawful database and a lawful Argon2, after a successful registration, the same name and
  -- password log in to the account that it created, if the name is not blocked and the new
  -- session's id is free.
  pub register-login :
      (t : FailedLoginTracker) (db db' : D.State) (username password : Text) (d later : Draws)
      (user : User)
      → IsDatabase D
      → IsArgon2 L.argon2
      → register L D c db username password d ≡ (returned user, db')
      → (is_blocked t user.username_normalized later.checked_at).1 ≡ false
      → D.session_by_id db' later.session_id ≡ none
      → (cr : IssuedCredentials) × ((login L D c t db' username password later).outcome
          ≡ returned cr)
        × (cr.user_id ≡ user.id)
        × (cr.session_id ≡ later.session_id)
  register-login t db db' username password d later user law argon h free unused =
      let r = register-IsRegistered db db' username password d user h in
      let (name, right, active) =
        verify-created username r.normalized password d user argon r.created in
      (
        credentials L D c (rehashed L D c user password later) later.session_id later,
        login-returned L D c t db' username user.username_normalized password user later law
            (r.validated ∙ ap valid (sym name)) free
            (registered_row db db' username password d user law r) right active unused,
        (rehashed_ids L D c user password later).0,
        refl,
      )

  abbrev taken : Outcome User
  taken = raised (auth_error_with registration_rejected 409 (codes "identifier already registered"))

  register_of_taken :
      (db : D.State) (username normalized password : Text) (d : Draws) (user : User)
      → IsDatabase D
      → validate_username L.unicode username ≡ valid normalized
      → validate_policy c password ≡ none
      → D.user_by_normalized db normalized ≡ some user
      → register L D c db username password d ≡ (taken, db)
  unfolding register conflicts
  register_of_taken db username normalized password d user law validated accepted found =
      ap
        (λ (v : Username).
          let r : Outcome User × D.State = elim v [
            | invalid error ↦ (invalid_username L D c error, db)
            | valid normalized ↦ register_valid L D c db username normalized password d
          ] in
          r)
        validated
      ∙ rw
          (
            register_valid,
            accepted,
            refused
                (new_user d.user_id (L.unicode.strip username) normalized
                  (hash L.unicode L.argon2 c d.salt password) d.now)
                refl,
          )
          refl
    where
      refused : (u : User) → u.username_normalized ≡ normalized → D.insert_user db u ≡ none
      refused u name =
          let (row, same) = law.user_row db normalized user found in
          law.insert_user_taken db user.id u user row
            (ground (arith, text_eq_iff u.username_normalized user.username_normalized, name, same))

  -- With a lawful database, after a successful registration, no other spelling of the name can be
  -- registered: the answer has the status 409 and the database stays as it is.
  pub register_unique :
      (db db' : D.State) (username password other second_password : Text) (d later : Draws)
      (user : User)
      → IsDatabase D
      → register L D c db username password d ≡ (returned user, db')
      → validate_username L.unicode other ≡ valid user.username_normalized
      → validate_policy c second_password ≡ none
      → register L D c db' other second_password later ≡ (
        raised (auth_error_with registration_rejected 409 (codes "identifier already registered")),
        db',
      )
  register_unique db db' username password other second_password d later user law h same accepted =
      register_of_taken db' other user.username_normalized second_password later user law same
        accepted
        (registered_row db db' username password d user law
          (register-IsRegistered db db' username password d user h))
