-- ===== src/Auth/Service/Guessing.antt =====
-- How many passwords can be tried on a name within a window.
use encrypt_chat_app.Base.{
  Bool-cases, List, Option, Text, [], arith, false, filter, inl, inr, leb_false→lt, length, none,
  refl, some, subst, sym, text_eq_refl, true, ℕ, ◌++◌, ◌+◌, ◌<◌, ◌∙◌, ◌∷◌, ◌≡◌, ◌≤◌, ◌⊎◌,
}
use encrypt_chat_app.Auth.Config.{AuthConfig}
use encrypt_chat_app.Auth.Errors.{AuthError, raised}
use encrypt_chat_app.Auth.FailedLogins.{FailedLoginTracker, is_blocked, record_failure}
use encrypt_chat_app.Auth.FailedLogins.Expiry.{is_recent}
use encrypt_chat_app.Auth.FailedLogins.History.{
  Attempt, failed, asked, run, apply, time, after, since, Forward, last_time, is_blocked-since,
}
use encrypt_chat_app.Auth.Identifiers.{valid, validate_username}
use encrypt_chat_app.Auth.Models.{User, is_active}
use encrypt_chat_app.Auth.Passwords.{verify}
use encrypt_chat_app.Auth.Database.{Database}
use encrypt_chat_app.Auth.Service.{
  Libraries, Draws, LoginRun, new_tracker, login, login_valid, login_found, login_user, rehash,
  rehashed,
}
use encrypt_chat_app.Auth.Service.Granted.{login_of_valid}
use encrypt_chat_app.Auth.Service.Refusals.{open_session-raised}

run-append : (t : FailedLoginTracker) (xs ys : List Attempt) → run t (xs ++ ys) ≡ run (run t xs) ys
unfolding run
run-append t [] ys = refl
run-append t (x ∷ xs) ys = run-append (apply t x) xs ys

since-append :
    (identifier : Text) (failures : List ℕ) (xs ys : List Attempt)
    → since identifier failures (xs ++ ys) ≡ since identifier (since identifier failures xs) ys
since-append identifier failures [] ys = refl
since-append identifier failures (x ∷ xs) ys =
    since-append identifier (after identifier failures x) xs ys

last_time-append :
    (clock : ℕ) (xs ys : List Attempt)
    → last_time clock (xs ++ ys) ≡ last_time (last_time clock xs) ys
last_time-append clock [] ys = refl
last_time-append clock (x ∷ xs) ys = last_time-append (time x) xs ys

Forward-append :
    (clock : ℕ) (xs ys : List Attempt)
    → Forward clock xs
    → Forward (last_time clock xs) ys
    → Forward clock (xs ++ ys)
Forward-append clock [] ys f g = g
Forward-append clock (x ∷ xs) ys f g = (f.0, Forward-append (time x) xs ys f.1 g)

-- One more recent failure counts.
length-recent :
    (window now failure : ℕ) (failures : List ℕ)
    → is_recent window now failure ≡ true
    → length (filter (is_recent window now) (failures ++ failure ∷ []))
      ≡ length (filter (is_recent window now) failures) + 1
length-recent window now failure [] recent = rw recent (omega arith)
length-recent window now failure (f ∷ failures) recent =
    let rest = length-recent window now failure failures recent in
    elim (Bool-cases (is_recent window now f)) [
      | inl e ↦ rw e (omega (arith, rest))
      | inr e ↦ rw e rest
    ]

module _ (L : Libraries) (D : Database) (c : AuthConfig) where
  -- What a refused login leaves the tracker as, and how many verifications it has run.
  abbrev pub IsStep : FailedLoginTracker → Text → Draws → LoginRun L D c → Type 0
  IsStep t normalized d r =
      (((is_blocked t normalized d.checked_at).1 ≡ true)
        × (r.verifications ≡ 0)
        × (r.failed_logins ≡ run t (asked normalized d.checked_at ∷ [])))
      ⊎ (((is_blocked t normalized d.checked_at).1 ≡ false)
          × (r.verifications ≡ 1)
          × (r.failed_logins
              ≡ run t (asked normalized d.checked_at ∷ failed normalized d.failed_at ∷ [])))

  abbrev Recorded : FailedLoginTracker → Text → Draws → LoginRun L D c → Type 0
  Recorded t normalized d r =
      (r.verifications ≡ 1) × (r.failed_logins ≡ (record_failure t normalized d.failed_at).0)

  login_user-Recorded :
      (t : FailedLoginTracker) (db : D.State) (normalized password : Text) (user : User) (d : Draws)
      (e : AuthError)
      → (login_user L D c t db normalized user password d).outcome ≡ raised e
      → Recorded t normalized d (login_user L D c t db normalized user password d)
  unfolding login_user
  login_user-Recorded t db normalized password user d e =
      elim (Bool-cases (verify L.unicode L.argon2 c user.password_hash password)) [
        | inr wrong ↦ rw wrong (λ h. (refl, refl))
        | inl right ↦ elim (Bool-cases (is_active user)) [
          | inr inactive ↦ rw (right, inactive) (λ h. (refl, refl))
          | inl active ↦
              rw (right, active)
                (λ h. absurd (
                  open_session-raised L D c (rehash L D c db user password d)
                    (rehashed L D c user password d) d e h))
        ]
      ]

  login_found-Recorded :
      (t : FailedLoginTracker) (db : D.State) (normalized password : Text) (o : Option User)
      (d : Draws) (e : AuthError)
      → (login_found L D c t db normalized o password d).outcome ≡ raised e
      → Recorded t normalized d (login_found L D c t db normalized o password d)
  login_found-Recorded t db normalized password none d e h = (refl, refl)
  login_found-Recorded t db normalized password (some user) d e h =
      login_user-Recorded t db normalized password user d e h

  login_valid-IsStep :
      (t : FailedLoginTracker) (db : D.State) (normalized password : Text) (d : Draws)
      (e : AuthError)
      → (login_valid L D c t db normalized password d).outcome ≡ raised e
      → IsStep t normalized d (login_valid L D c t db normalized password d)
  unfolding login_valid run apply
  login_valid-IsStep t db normalized password d e =
      elim (Bool-cases (is_blocked t normalized d.checked_at).1) [
        | inl blocked ↦ rw blocked (λ h. inl (refl, refl, refl))
        | inr free ↦ rw free (λ h.
            let (one, recorded) =
              login_found-Recorded (is_blocked t normalized d.checked_at).0 db normalized password
                (D.user_by_normalized db normalized) d e h in
            inr (refl, one, recorded))
      ]

  pub login-IsStep :
      (t : FailedLoginTracker) (db : D.State) (username normalized password : Text) (d : Draws)
      (e : AuthError)
      → validate_username L.unicode username ≡ valid normalized
      → (login L D c t db username password d).outcome ≡ raised e
      → IsStep t normalized d (login L D c t db username password d)
  login-IsStep t db username normalized password d e validated =
      subst (λ (r : LoginRun L D c). r.outcome ≡ raised e → IsStep t normalized d r)
        (sym (login_of_valid L D c t db username normalized password d validated))
        (login_valid-IsStep t db normalized password d e)

  -- The verifications of a sequence of logins with one name.
  abbrev pub guesses : FailedLoginTracker → D.State → Text → List (Text × Draws) → ℕ
  guesses t db username [] = 0
  guesses t db username ((password, d) ∷ rest) =
      let r = login L D c t db username password d in
      r.verifications + guesses r.failed_logins r.db username rest

  abbrev pub AllRefused : FailedLoginTracker → D.State → Text → List (Text × Draws) → Type 0
  AllRefused t db username [] = Unit
  AllRefused t db username ((password, d) ∷ rest) =
      let r = login L D c t db username password d in
      ((e : AuthError) × (r.outcome ≡ raised e)) × AllRefused r.failed_logins r.db username rest

  -- The logins follow each other from a time on, and end before another.
  abbrev pub Within : ℕ → ℕ → List (Text × Draws) → Type 0
  Within clock end [] = Unit
  Within clock end ((password, d) ∷ rest) =
      (clock ≤ d.checked_at)
      × (d.checked_at ≤ d.failed_at)
      × (d.failed_at < end)
      × Within d.failed_at end rest

  abbrev history : List Attempt → FailedLoginTracker
  history attempts = run (new_tracker c) attempts

  abbrev count : Text → List Attempt → ℕ → ℕ
  count normalized attempts now =
      length (filter (is_recent c.failed_login_window_seconds now) (since normalized [] attempts))

  count-asked :
      (normalized : Text) (attempts : List Attempt) (at now : ℕ)
      → count normalized (attempts ++ asked normalized at ∷ []) now ≡ count normalized attempts now
  count-asked normalized attempts at now =
      rw (since-append normalized [] attempts (asked normalized at ∷ [])) refl

  count-failed :
      (normalized : Text) (attempts : List Attempt) (at failure now : ℕ)
      → now < failure + c.failed_login_window_seconds
      → count normalized (attempts ++ asked normalized at ∷ failed normalized failure ∷ []) now
        ≡ count normalized attempts now + 1
  count-failed normalized attempts at failure now recent =
      rw
        (
          since-append normalized [] attempts
              (asked normalized at ∷ failed normalized failure ∷ []),
          text_eq_refl,
        )
        (length-recent c.failed_login_window_seconds now failure (since normalized [] attempts)
          (ground (arith, recent)))

  -- The bound for the rest of a sequence, from the history that the first login has extended.
  step_on :
      (t t' : FailedLoginTracker) (db : D.State) (username : Text) (logins : List (Text × Draws))
      (k : ℕ)
      → t ≡ t'
      → (AllRefused t db username logins
          → guesses t db username logins + k ≤ c.max_failed_logins_per_account)
      → AllRefused t' db username logins
      → guesses t' db username logins + k ≤ c.max_failed_logins_per_account
  step_on t t' db username logins k same =
      subst
        (λ x.
          (AllRefused t db username logins
            → guesses t db username logins + k ≤ c.max_failed_logins_per_account)
          → AllRefused x db username logins
          → guesses x db username logins + k ≤ c.max_failed_logins_per_account)
        same (λ h. h)

  -- A sequence of refused logins that starts after a history with k recent failures.
  guesses_after :
      (username normalized : Text) (start k : ℕ) (attempts : List Attempt) (clock : ℕ)
      (db : D.State) (logins : List (Text × Draws))
      → validate_username L.unicode username ≡ valid normalized
      → Forward 0 attempts
      → last_time 0 attempts ≤ clock
      → start ≤ clock
      → k ≤ c.max_failed_logins_per_account
      → ((now : ℕ)
          → now < start + c.failed_login_window_seconds
          → k ≤ count normalized attempts now)
      → Within clock (start + c.failed_login_window_seconds) logins
      → AllRefused (history attempts) db username logins
      → guesses (history attempts) db username logins + k ≤ c.max_failed_logins_per_account
  guesses_after username normalized start k attempts clock db [] validated forward last begun few
        recent within refused =
      omega (arith, few)
  guesses_after username normalized start k attempts clock db ((password, d) ∷ rest) validated
        forward last begun few recent (later, ordered, before, within) ((e, h), refused) =
      let r = login L D c (history attempts) db username password d in
      let ask = asked normalized d.checked_at ∷ [] in
      let fail = asked normalized d.checked_at ∷ failed normalized d.failed_at ∷ [] in
      let reached : last_time 0 attempts ≤ d.checked_at = omega (arith, last, later) in
      let blocking =
        is_blocked-since c.max_failed_logins_per_account c.failed_login_window_seconds d.checked_at
          0 normalized attempts forward reached in
      elim (login-IsStep (history attempts) db username normalized password d e validated h) [
        | inl (blocked, none_run, left) ↦
            let more =
              step_on (history (attempts ++ ask)) r.failed_logins r.db username rest k
                (run-append (new_tracker c) attempts ask ∙ sym left)
                (guesses_after username normalized start k (attempts ++ ask) d.failed_at r.db rest
                  validated (Forward-append 0 attempts ask forward (reached, tt))
                  (rw (last_time-append 0 attempts ask) ordered)
                  (omega (arith, begun, later, ordered)) few
                  (λ now soon.
                    rw (count-asked normalized attempts d.checked_at now) (recent now soon))
                  within)
                refused in
            omega (arith, more, none_run)
        | inr (free, one_run, left) ↦
            let room : count normalized attempts d.checked_at < c.max_failed_logins_per_account =
              leb_false→lt _ _ (sym blocking ∙ free) in
            let known = recent d.checked_at (omega (arith, ordered, before)) in
            let more =
              step_on (history (attempts ++ fail)) r.failed_logins r.db username rest (k + 1)
                (run-append (new_tracker c) attempts fail ∙ sym left)
                (guesses_after username normalized start (k + 1) (attempts ++ fail) d.failed_at r.db
                  rest validated (Forward-append 0 attempts fail forward (reached, (ordered, tt)))
                  (rw (last_time-append 0 attempts fail) (omega arith))
                  (omega (arith, begun, later, ordered)) (omega (arith, room, known))
                  (λ now soon.
                    rw
                      (count-failed normalized attempts d.checked_at d.failed_at now
                        (omega (arith, soon, begun, later, ordered)))
                      (omega (arith, recent now soon)))
                  within)
                refused in
            omega (arith, more, one_run)
      ]

  -- In a sequence of refused logins with one valid name, from a start without failures on and shorter
  -- than the window, at most as many passwords are verified as failed logins are allowed, whatever the
  -- number of attempts.
  pub guesses-le :
      (username normalized : Text) (start : ℕ) (db : D.State) (logins : List (Text × Draws))
      → validate_username L.unicode username ≡ valid normalized
      → Within start (start + c.failed_login_window_seconds) logins
      → AllRefused (new_tracker c) db username logins
      → guesses (new_tracker c) db username logins ≤ c.max_failed_logins_per_account
  unfolding run
  guesses-le username normalized start db logins validated within refused = omega (
    arith,
    guesses_after username normalized start 0 [] start db logins validated tt (omega arith)
        (omega arith) (omega arith) (λ now soon. omega arith) within refused,
  )
