-- ===== src/Auth/Service/Uniform.antt =====
-- Two refused logins with one name, which meet the same tracker at the same times.
use encrypt_chat_app.Base.{Text, ap, inl, inr, refl, sym, ◌∙◌, ◌≡◌}
use encrypt_chat_app.Auth.Config.{AuthConfig}
use encrypt_chat_app.Auth.Errors.{AuthError, raised}
use encrypt_chat_app.Auth.FailedLogins.{FailedLoginTracker}
use encrypt_chat_app.Auth.Identifiers.{Username, valid, invalid, validate_username}
use encrypt_chat_app.Auth.Database.{Database}
use encrypt_chat_app.Auth.Service.{Libraries, Draws, LoginRun, login}
use encrypt_chat_app.Auth.Service.Granted.{login_of_invalid}
use encrypt_chat_app.Auth.Service.Guessing.{IsStep, login-IsStep}

module _ (L : Libraries) (D : Database) (c : AuthConfig) where
  abbrev pub SameRun : LoginRun L D c → LoginRun L D c → Type 0
  SameRun r r' = (r.verifications ≡ r'.verifications) × (r.failed_logins ≡ r'.failed_logins)

  IsStep-SameRun :
      (t : FailedLoginTracker) (normalized : Text) (d : Draws) (r r' : LoginRun L D c)
      → IsStep L D c t normalized d r
      → IsStep L D c t normalized d r'
      → SameRun r r'
  IsStep-SameRun t normalized d r r' (inl (b, n, f)) (inl (b', n', f')) = (n ∙ sym n', f ∙ sym f')
  IsStep-SameRun t normalized d r r' (inr (b, n, f)) (inr (b', n', f')) = (n ∙ sym n', f ∙ sym f')
  IsStep-SameRun t normalized d r r' (inl (b, n, f)) (inr (b', n', f')) = cc (sym b ∙ b')
  IsStep-SameRun t normalized d r r' (inr (b, n, f)) (inl (b', n', f')) = cc (sym b ∙ b')

  pub login-SameRun :
      (t : FailedLoginTracker) (db db' : D.State) (username password password' : Text) (d : Draws)
      (e e' : AuthError)
      → (login L D c t db username password d).outcome ≡ raised e
      → (login L D c t db' username password' d).outcome ≡ raised e'
      → SameRun (login L D c t db username password d) (login L D c t db' username password' d)
  login-SameRun t db db' username password password' d e e' h h' =
      go (validate_username L.unicode username) refl
    where
      go :
          (v : Username)
          → validate_username L.unicode username ≡ v
          → SameRun (login L D c t db username password d) (login L D c t db' username password' d)
      go (invalid error) validated =
          let one = login_of_invalid L D c t db username password d error validated in
          let two = login_of_invalid L D c t db' username password' d error validated in
          (
            ap (λ (r : LoginRun L D c). r.verifications) one
                ∙ sym (ap (λ (r : LoginRun L D c). r.verifications) two),
            ap (λ (r : LoginRun L D c). r.failed_logins) one
                ∙ sym (ap (λ (r : LoginRun L D c). r.failed_logins) two),
          )
      go (valid normalized) validated =
          IsStep-SameRun t normalized d (login L D c t db username password d)
            (login L D c t db' username password' d)
            (login-IsStep L D c t db username normalized password d e validated h)
            (login-IsStep L D c t db' username normalized password' d e' validated h')
