-- ===== src/Auth/Service/Refusals.antt =====
-- What a refused login reveals.
use encrypt_chat_app.Base.{Bool-cases, Option, Text, inl, inr, none, refl, some, subst, ℕ, ◌≡◌, ◌⊎◌}
use encrypt_chat_app.Auth.Config.{AuthConfig}
use encrypt_chat_app.Auth.Errors.{AuthError, Outcome, raised, invalid_credentials, rate_limited}
use encrypt_chat_app.Auth.FailedLogins.{FailedLoginTracker, is_blocked}
use encrypt_chat_app.Auth.Identifiers.{valid, invalid, validate_username}
use encrypt_chat_app.Auth.Models.{User, is_active}
use encrypt_chat_app.Auth.Passwords.{verify}
use encrypt_chat_app.Auth.Database.{Database}
use encrypt_chat_app.Auth.Service.{
  Libraries, Draws, LoginRun, open_session, session_opened, opened_session, rehash, rehashed, login,
  login_valid, login_found, login_user, malformed,
}

-- A refusal has the code and the status of bad credentials after one Argon2 verification, or those of
-- the rate limit after none.
abbrev pub IsRefusal : AuthError → ℕ → Type 0
IsRefusal e verifications =
    ((e.code ≡ invalid_credentials) × (e.status_code ≡ 401) × (verifications ≡ 1))
    ⊎ ((e.code ≡ rate_limited) × (e.status_code ≡ 429) × (verifications ≡ 0))

pub raised_inj : {A : Type 0} {e f : AuthError} → ◌≡◌ {A = Outcome A} (raised e) (raised f) → e ≡ f
raised_inj h = cc

module _ (L : Libraries) (D : Database) (c : AuthConfig) where
  abbrev Refuses : LoginRun L D c → AuthError → Type 0
  Refuses r e = r.outcome ≡ raised e → IsRefusal e r.verifications

  session_opened-raised :
      (db : D.State) (user : User) (d : Draws) (o : Option D.State) (e : AuthError)
      → (session_opened L D c db user d o).0 ≡ raised e
      → ⊥
  session_opened-raised db user d none e h = cc
  session_opened-raised db user d (some t) e h = cc

  pub open_session-raised :
      (db : D.State) (user : User) (d : Draws) (e : AuthError)
      → (open_session L D c db user d).0 ≡ raised e
      → ⊥
  unfolding open_session
  open_session-raised db user d e h =
      session_opened-raised db user d (D.insert_session db (opened_session L D c user d)) e h

  bad_credentials :
      (e f : AuthError) → e ≡ f → e.code ≡ invalid_credentials → e.status_code ≡ 401 → IsRefusal f 1
  bad_credentials e f same code status = subst (λ g. IsRefusal g 1) same (inl (code, status, refl))

  login_user-Refuses :
      (t : FailedLoginTracker) (db : D.State) (normalized : Text) (user : User) (password : Text)
      (d : Draws) (e : AuthError)
      → Refuses (login_user L D c t db normalized user password d) e
  unfolding login_user
  login_user-Refuses t db normalized user password d e =
      elim (Bool-cases (verify L.unicode L.argon2 c user.password_hash password)) [
        | inr wrong ↦ rw wrong (λ h. bad_credentials _ e (raised_inj h) refl refl)
        | inl right ↦ elim (Bool-cases (is_active user)) [
          | inr inactive ↦ rw (right, inactive) (λ h. bad_credentials _ e (raised_inj h) refl refl)
          | inl active ↦
              rw (right, active)
                (λ h. absurd (
                  open_session-raised (rehash L D c db user password d)
                    (rehashed L D c user password d) d e h))
        ]
      ]

  login_found-Refuses :
      (t : FailedLoginTracker) (db : D.State) (normalized password : Text) (d : Draws)
      (o : Option User) (e : AuthError)
      → Refuses (login_found L D c t db normalized o password d) e
  login_found-Refuses t db normalized password d none e h =
      bad_credentials _ e (raised_inj h) refl refl
  login_found-Refuses t db normalized password d (some user) e h =
      login_user-Refuses t db normalized user password d e h

  login_valid-Refuses :
      (t : FailedLoginTracker) (db : D.State) (normalized password : Text) (d : Draws)
      (e : AuthError)
      → Refuses (login_valid L D c t db normalized password d) e
  unfolding login_valid
  login_valid-Refuses t db normalized password d e =
      elim (Bool-cases (is_blocked t normalized d.checked_at).1) [
        | inl blocked ↦
            rw blocked (λ h. subst (λ g. IsRefusal g 0) (raised_inj h) (inr (refl, refl, refl)))
        | inr free ↦ rw free (
            login_found-Refuses (is_blocked t normalized d.checked_at).0 db normalized password d
              (D.user_by_normalized db normalized) e)
      ]

  -- Whatever the reason for which a login is refused, a malformed name, an unknown account, a wrong
  -- password or a disabled account, the error's code and status are the same, and exactly one Argon2
  -- verification has been run; unless the account is blocked, which has its own code and runs none.
  pub login-IsRefusal :
      (t : FailedLoginTracker) (db : D.State) (username password : Text) (d : Draws) (e : AuthError)
      → (login L D c t db username password d).outcome ≡ raised e
      → IsRefusal e (login L D c t db username password d).verifications
  unfolding login
  login-IsRefusal t db username password d e =
      elim (validate_username L.unicode username)
        as (λ v.
          let r : LoginRun L D c = elim v [
            | invalid error ↦ malformed L D c t db
            | valid normalized ↦ login_valid L D c t db normalized password d
          ] in
          Refuses r e) [
            | invalid error ↦ λ h. bad_credentials _ e (raised_inj h) refl refl
            | valid normalized ↦ login_valid-Refuses t db normalized password d e
          ]
