-- ===== src/Auth/FailedLogins/Tests.antt =====
-- A tracker that allows two failures a minute, at three failures and a success.
use encrypt_chat_app.Base.{List, Text, [], arith, codes, filter, leb, length, ◌∷◌, ◌≡◌}
use encrypt_chat_app.Auth.FailedLogins.{init, is_blocked}
use encrypt_chat_app.Auth.FailedLogins.Expiry.{is_recent}
use encrypt_chat_app.Auth.FailedLogins.History.{
  Attempt, failed, asked, succeeded, Forward, run, since, is_blocked-since,
}

abbrev eve : Text
eve = codes "eve"

abbrev attempts : List Attempt
attempts =
    failed eve 10 ∷ succeeded (codes "bob") 20 ∷ failed eve 50 ∷ asked eve 65 ∷ failed eve 75 ∷ []

attempts-Forward : Forward 0 attempts
attempts-Forward = (omega arith, (omega arith, (omega arith, (omega arith, (omega arith, tt)))))

is_blocked-since_example :
    (is_blocked (run (init 2 60) attempts) eve 80).1
    ≡ leb 2 (length (filter (is_recent 60 80) (since eve [] attempts)))
is_blocked-since_example = is_blocked-since 2 60 80 0 eve attempts attempts-Forward (omega arith)
