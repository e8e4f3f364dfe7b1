-- ===== src/Auth/Routes/Uniform.antt =====
-- What the client is told of a login that is refused.
use encrypt_chat_app.Base.{Bool-cases, Text, arith, inl, inr, refl, ℕ, ◌≡◌}
use encrypt_chat_app.Auth.Errors.{AuthError, Outcome, raised, ◌>>=◌}
use encrypt_chat_app.Auth.FailedLogins.{FailedLoginTracker}
use encrypt_chat_app.Auth.Service.Uniform.{SameRun, login-SameRun}
use encrypt_chat_app.Auth.Schemas.{accepts_credentials}
use encrypt_chat_app.Auth.Responses.{Response, auth_error_handler}
use encrypt_chat_app.Auth.Routes.{
  Application, Kept, post_login, Circumstances, logged_in, finish, login, serve,
}
use encrypt_chat_app.Auth.Service.{Draws, IssuedCredentials, LoginRun}
use encrypt_chat_app.Auth.Service
use encrypt_chat_app.Auth.Service.Refusals.{IsRefusal, login-IsRefusal}

module _ (A : Application) where
  abbrev run : Kept A → Text → Text → Draws → LoginRun A.libraries A.database A.config
  run k username password d =
      Service.login A.libraries A.database A.config k.failed_logins k.db username password d

  same_response :
      (e f : AuthError) (n m : ℕ)
      → IsRefusal e n
      → IsRefusal f m
      → n ≡ m
      → auth_error_handler e ≡ auth_error_handler f
  unfolding auth_error_handler
  same_response e f n m (inl (c, s, _)) (inl (c', s', _)) same = rw (c, s, c', s') refl
  same_response e f n m (inr (c, s, _)) (inr (c', s', _)) same = rw (c, s, c', s') refl
  same_response e f n m (inl (_, _, k)) (inr (_, _, k')) same = absurd (omega (arith, k, k', same))
  same_response e f n m (inr (_, _, k)) (inl (_, _, k')) same = absurd (omega (arith, k, k', same))

  abbrev at_db : FailedLoginTracker → A.database.State → Kept A
  at_db t db = record { failed_logins = t; db = db }

  abbrev Alike : Response × Kept A → Response × Kept A → Type 0
  Alike (r, k) (r', k') = (r ≡ r') × (k.failed_logins ≡ k'.failed_logins)

  finish-Alike :
      (k k' : Kept A) (e e' : AuthError) (o o' : Outcome IssuedCredentials)
      (t t' : FailedLoginTracker) (db db' : A.database.State)
      → o ≡ raised e
      → o' ≡ raised e'
      → auth_error_handler e ≡ auth_error_handler e'
      → t ≡ t'
      → Alike (finish A k (o >>= logged_in A) t db) (finish A k' (o' >>= logged_in A) t' db')
  finish-Alike k k' e e' o o' t t' db db' h h' response tracker = rw (h, h') (response, tracker)

  -- Two requests to log in with one name that meet the same tracker at the same times, and are refused
  -- by the service, get the same response and leave the same tracker, whatever the two databases and
  -- passwords are, if both bodies are accepted or both refused: the response does not depend on
  -- whether the account exists, is disabled or has another password.
  pub serve_uniform :
      (t : FailedLoginTracker) (db db' : A.database.State) (username password password' : Text)
      (at : Circumstances) (e e' : AuthError)
      → accepts_credentials username password ≡ accepts_credentials username password'
      → (run (at_db t db) username password at.draws).outcome ≡ raised e
      → (run (at_db t db') username password' at.draws).outcome ≡ raised e'
      → Alike
          (serve A (at_db t db) (post_login username password) at)
          (serve A (at_db t db') (post_login username password') at)
  unfolding serve login
  serve_uniform t db db' username password password' at e e' bodies h h' =
      elim (Bool-cases (accepts_credentials username password')) [
        | inr refused ↦ rw (bodies, refused) (refl, refl)
        | inl accepted ↦ elim (Bool-cases at.admitted) [
          | inr limited ↦ rw (bodies, accepted, limited) (refl, refl)
          | inl admitted ↦
              rw (bodies, accepted, admitted)
                (finish-Alike (at_db t db) (at_db t db') e e'
                  (run (at_db t db) username password at.draws).outcome
                  (run (at_db t db') username password' at.draws).outcome _ _ _ _ h h'
                  (same_response e e' _ _
                    (login-IsRefusal A.libraries A.database A.config t db username password at.draws
                      e h)
                    (login-IsRefusal A.libraries A.database A.config t db' username password'
                      at.draws e' h')
                    same.0)
                  same.1)
        ]
      ]
    where
      same :
          SameRun A.libraries A.database A.config
            (run (at_db t db) username password at.draws)
            (run (at_db t db') username password' at.draws)
      same =
          login-SameRun A.libraries A.database A.config t db db' username password password'
            at.draws e e' h h'
