-- ===== src/Auth/Service/Blocking.antt =====
-- A blocked name: the service over the history of the failed logins.
use encrypt_chat_app.Base.{
  List, Text, [], codes, filter, length, le→leb, refl, subst, sym, true, ℕ, ◌∙◌, ◌≡◌, ◌≤◌,
}
use encrypt_chat_app.Auth.Config.{AuthConfig}
use encrypt_chat_app.Auth.Errors.{rate_limited, auth_error_with, raised}
use encrypt_chat_app.Auth.FailedLogins.{FailedLoginTracker, is_blocked}
use encrypt_chat_app.Auth.FailedLogins.Expiry.{is_recent}
use encrypt_chat_app.Auth.FailedLogins.History.{
  Attempt, run, since, Forward, last_time, is_blocked-since,
}
use encrypt_chat_app.Auth.Identifiers.{valid, validate_username}
use encrypt_chat_app.Auth.Database.{Database}
use encrypt_chat_app.Auth.Service.{Libraries, Draws, LoginRun, new_tracker, login, login_valid}
use encrypt_chat_app.Auth.Service.Granted.{login_of_valid}

module _ (L : Libraries) (D : Database) (c : AuthConfig) where
  -- The answer to a blocked name: no password is verified.
  abbrev pub IsBlocked : LoginRun L D c → D.State → Type 0
  IsBlocked r db =
      (r.outcome
        ≡ raised (auth_error_with rate_limited 429 (codes "per-account failure threshold reached")))
      × (r.db ≡ db)
      × (r.verifications ≡ 0)

  login_valid-IsBlocked :
      (t : FailedLoginTracker) (db : D.State) (normalized password : Text) (d : Draws)
      → (is_blocked t normalized d.checked_at).1 ≡ true
      → IsBlocked (login_valid L D c t db normalized password d) db
  unfolding login_valid
  login_valid-IsBlocked t db normalized password d blocked = rw blocked (refl, refl, refl)

  -- After any attempts with a clock that does not go back, among which a valid name has failed as
  -- often as the configuration allows since its last success and within the window, a login with that
  -- name is refused as rate limited, whatever the password, without a verification and with the
  -- database as it was.
  pub login-IsBlocked :
      (db : D.State) (username normalized password : Text) (d : Draws) (clock : ℕ)
      (attempts : List Attempt)
      → validate_username L.unicode username ≡ valid normalized
      → Forward clock attempts
      → last_time clock attempts ≤ d.checked_at
      → c.max_failed_logins_per_account
        ≤ length (
            filter
              (is_recent c.failed_login_window_seconds d.checked_at)
              (since normalized [] attempts))
      → IsBlocked (login L D c (run (new_tracker c) attempts) db username password d) db
  login-IsBlocked db username normalized password d clock attempts validated forward last enough =
      let t = run (new_tracker c) attempts in
      subst (λ r. IsBlocked r db)
        (sym (login_of_valid L D c t db username normalized password d validated))
        (login_valid-IsBlocked t db normalized password d (
          is_blocked-since c.max_failed_logins_per_account c.failed_login_window_seconds
            d.checked_at clock normalized attempts forward last
          ∙ le→leb _ _ enough))
