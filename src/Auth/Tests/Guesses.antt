-- ===== src/Auth/Tests/Guesses.antt =====
-- Three guesses where two are allowed.
use encrypt_chat_app.Base.{
  List, Text, [], arith, codes, erase, insert, lookup, refl, text_eq, ◌*◌, ◌∷◌, ◌≡◌, ◌≤◌,
}
use encrypt_chat_app.Websocket.Limits.{second}
use encrypt_chat_app.Websocket.Identifier.{all_identifier_chars}
use encrypt_chat_app.Auth.Config.{AuthConfig}
use encrypt_chat_app.Auth.FailedLogins
use encrypt_chat_app.Auth.FailedLogins.{is_blocked, record_failure, prune, expire}
use encrypt_chat_app.Auth.Identifiers.{validate_username, username_pattern, valid}
use encrypt_chat_app.Auth.Passwords.{verify}
use encrypt_chat_app.Auth.Database.Memory.{memory}
use encrypt_chat_app.Auth.Service.{Draws, new_tracker, login, login_valid, login_user}
use encrypt_chat_app.Auth.Service.Guessing.{guesses, AllRefused, guesses-le}
use encrypt_chat_app.Auth.Tests.Sample.{plain, settings, moment, eve, store}

abbrev strict : AuthConfig
strict = record settings { max_failed_logins_per_account = 2 }

abbrev tries : List (Text × Draws)
tries =
    (codes "guess", moment (2 * second) (codes "a"))
    ∷ (codes "other", moment (3 * second) (codes "b"))
    ∷ (codes "third", moment (4 * second) (codes "c"))
    ∷ []

tries_refused : AllRefused plain memory strict (new_tracker strict) store eve tries
unfolding login login_valid login_user validate_username username_pattern all_identifier_chars
    FailedLogins.init is_blocked record_failure prune expire lookup insert erase text_eq verify
tries_refused = ((_, refl), ((_, refl), ((_, refl), tt)))

eve_valid : validate_username plain.unicode eve ≡ valid eve
unfolding validate_username username_pattern all_identifier_chars
eve_valid = refl

guesses-le_example : guesses plain memory strict (new_tracker strict) store eve tries ≤ 2
guesses-le_example =
    guesses-le plain memory strict eve eve second store tries eve_valid
      (
        omega arith,
        omega arith,
        omega arith,
        (omega arith, omega arith, omega arith, (omega arith, omega arith, omega arith, tt)),
      )
      tries_refused
