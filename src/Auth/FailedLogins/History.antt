-- ===== src/Auth/FailedLogins/History.antt =====
-- The tracker against the history of the attempts: a window counts the failures since the last success
-- that are not older than the window.
use encrypt_chat_app.Base.{
  List, Text, [], ap, arith, false, filter, if◌then◌else◌, leb, length, lookup, refl, text_eq,
  text_eq_iff, true, ℕ, ◌++◌, ◌∙◌, ◌∷◌, ◌≡◌, ◌≤◌,
}
use encrypt_chat_app.Auth.FailedLogins.{
  init, FailedLoginTracker, expire, record_failure, reset, is_blocked, failure_count,
}
use encrypt_chat_app.Auth.FailedLogins.Expiry.{
  is_recent, expire-filter, Tracks, Tracks-expire, Tracks-later, Tracks-append,
}
use encrypt_chat_app.Auth.FailedLogins.Windows.{
  window_of, prune-window_of, record_failure-window_of, reset-window_of, prune-window_seconds,
  prune-max_failures,
}

-- A call of the tracker on an identifier, at a time.
pub data Attempt : Type 0 where
  failed asked : Text → ℕ → Attempt
  succeeded : Text → ℕ → Attempt

abbrev pub time : Attempt → ℕ
time (failed identifier now) = now
time (asked identifier now) = now
time (succeeded identifier now) = now

unfoldable pub apply : FailedLoginTracker → Attempt → FailedLoginTracker
apply t (failed identifier now) = (record_failure t identifier now).0
apply t (asked identifier now) = (is_blocked t identifier now).0
apply t (succeeded identifier now) = reset t identifier

unfoldable pub run : FailedLoginTracker → List Attempt → FailedLoginTracker
run t [] = t
run t (a ∷ attempts) = run (apply t a) attempts

-- The times of the failures of an identifier since its last success, after one more attempt and
-- after several.
abbrev pub after : Text → List ℕ → Attempt → List ℕ
after identifier failures (failed other now) =
    if text_eq other identifier then failures ++ now ∷ [] else failures
after identifier failures (asked other now) = failures
after identifier failures (succeeded other now) = if text_eq other identifier then [] else failures

abbrev pub since : Text → List ℕ → List Attempt → List ℕ
since identifier failures [] = failures
since identifier failures (a ∷ attempts) = since identifier (after identifier failures a) attempts

-- The clock does not go back.
abbrev pub Forward : ℕ → List Attempt → Type 0
Forward clock [] = Unit
Forward clock (a ∷ attempts) = (clock ≤ time a) × Forward (time a) attempts

abbrev pub last_time : ℕ → List Attempt → ℕ
last_time clock [] = clock
last_time clock (a ∷ attempts) = last_time (time a) attempts

-- The state of the tracker on one identifier: its window tracks the history.
abbrev TracksAt : Text → ℕ → FailedLoginTracker → List ℕ → Type 0
TracksAt identifier clock t failures =
    Tracks identifier clock t.window_seconds (window_of t identifier) failures

apply-window_seconds :
    (t : FailedLoginTracker) (a : Attempt) → (apply t a).window_seconds ≡ t.window_seconds
unfolding apply record_failure is_blocked reset
apply-window_seconds t (failed other now) = prune-window_seconds t other now
apply-window_seconds t (asked other now) = prune-window_seconds t other now
apply-window_seconds t (succeeded other now) = refl

-- The window of an identifier after one attempt.
abbrev window_after : Text → ℕ → List ℕ → Attempt → List ℕ
window_after identifier w window (failed other now) =
    if text_eq other identifier then expire w now window ++ now ∷ [] else window
window_after identifier w window (asked other now) =
    if text_eq other identifier then expire w now window else window
window_after identifier w window (succeeded other now) =
    if text_eq other identifier then [] else window

apply-window_of :
    (t : FailedLoginTracker) (a : Attempt) (identifier : Text)
    → window_of (apply t a) identifier
      ≡ window_after identifier t.window_seconds (window_of t identifier) a
unfolding apply is_blocked
apply-window_of t (failed other now) identifier =
    ground (arith, record_failure-window_of t other identifier now, text_eq_iff other identifier)
apply-window_of t (asked other now) identifier =
    ground (arith, prune-window_of t other identifier now, text_eq_iff other identifier)
apply-window_of t (succeeded other now) identifier = reset-window_of t other identifier

Tracks-after :
    (identifier : Text) (clock w : ℕ) (window failures : List ℕ) (a : Attempt)
    → clock ≤ time a
    → Tracks identifier clock w window failures
    → Tracks identifier
        (time a)
        w
        (window_after identifier w window a)
        (after identifier failures a)
Tracks-after identifier clock w window failures (failed other now) h t =
    elim (text_eq other identifier)
      as (λ b.
        Tracks identifier now w (if b then expire w now window ++ now ∷ [] else window)
          (if b then failures ++ now ∷ [] else failures)) [
            | true ↦
                Tracks-append identifier now w _ failures
                  (Tracks-expire identifier clock now w window failures h t)
            | false ↦ Tracks-later identifier clock now w window failures h t
          ]
Tracks-after identifier clock w window failures (asked other now) h t =
    elim (text_eq other identifier)
      as (λ b. Tracks identifier now w (if b then expire w now window else window) failures) [
        | true ↦ Tracks-expire identifier clock now w window failures h t
        | false ↦ Tracks-later identifier clock now w window failures h t
      ]
Tracks-after identifier clock w window failures (succeeded other now) h t =
    elim (text_eq other identifier)
      as (λ b. Tracks identifier now w (if b then [] else window) (if b then [] else failures)) [
        | true ↦ record { sorted = tt; until = tt; same = λ later k. refl }
        | false ↦ Tracks-later identifier clock now w window failures h t
      ]

run-Tracks :
    (t : FailedLoginTracker) (identifier : Text) (clock : ℕ) (failures : List ℕ)
    (attempts : List Attempt)
    → Forward clock attempts
    → TracksAt identifier clock t failures
    → ((run t attempts).window_seconds ≡ t.window_seconds)
      × Tracks identifier
          (last_time clock attempts)
          t.window_seconds
          (window_of (run t attempts) identifier)
          (since identifier failures attempts)
unfolding run window_of apply
run-Tracks t identifier clock failures [] f h = (refl, h)
run-Tracks t identifier clock failures (a ∷ attempts) f h =
    let same = apply-window_seconds t a in
    let (seconds, tracks) =
      run-Tracks (apply t a) identifier (time a) (after identifier failures a) attempts f.1 (
        rw (same, apply-window_of t a identifier)
          (Tracks-after identifier clock t.window_seconds _ failures a f.0 h)) in
    (seconds ∙ same, rw same at tracks)

-- After any attempts with a clock that does not go back, the count of an identifier is the number of
-- its failures since its last success that are not older than the window.
pub failure_count-since :
    (max_failures window_seconds now clock : ℕ) (identifier : Text) (attempts : List Attempt)
    → Forward clock attempts
    → last_time clock attempts ≤ now
    → (failure_count (run (init max_failures window_seconds) attempts) identifier now).1
      ≡ length (filter (is_recent window_seconds now) (since identifier [] attempts))
unfolding failure_count init
failure_count-since max_failures window_seconds now clock identifier attempts f h =
    let t = run (init max_failures window_seconds) attempts in
    let (seconds, tracks) =
      run-Tracks (init max_failures window_seconds) identifier clock [] attempts f (
        unfold init window_of lookup in
        record { sorted = tt; until = tt; same = λ later k. refl }) in
    ap length (
      (prune-window_of t identifier identifier now).0
      ∙ ap (λ w. expire w now (window_of t identifier)) seconds
      ∙ expire-filter window_seconds now (window_of t identifier) tracks.sorted
      ∙ tracks.same now h)

run-max_failures :
    (t : FailedLoginTracker) (attempts : List Attempt)
    → (run t attempts).max_failures ≡ t.max_failures
unfolding run apply record_failure is_blocked reset
run-max_failures t [] = refl
run-max_failures t (failed other now ∷ attempts) =
    run-max_failures (record_failure t other now).0 attempts ∙ prune-max_failures t other now
run-max_failures t (asked other now ∷ attempts) =
    run-max_failures (is_blocked t other now).0 attempts ∙ prune-max_failures t other now
run-max_failures t (succeeded other now ∷ attempts) = run-max_failures (reset t other) attempts

-- After any attempts with a clock that does not go back, an identifier is blocked exactly when it has
-- had as many failures as allowed since its last success within the window: other identifiers do not
-- matter.
pub is_blocked-since :
    (max_failures window_seconds now clock : ℕ) (identifier : Text) (attempts : List Attempt)
    → Forward clock attempts
    → last_time clock attempts ≤ now
    → (is_blocked (run (init max_failures window_seconds) attempts) identifier now).1
      ≡ leb max_failures
          (length (filter (is_recent window_seconds now) (since identifier [] attempts)))
unfolding is_blocked failure_count init
is_blocked-since max_failures window_seconds now clock identifier attempts f h =
    let count = failure_count-since max_failures window_seconds now clock identifier attempts f h in
    ap (λ n. leb (run (init max_failures window_seconds) attempts).max_failures n) count
    ∙ ap
        (λ k. leb k (length (filter (is_recent window_seconds now) (since identifier [] attempts))))
        (run-max_failures (init max_failures window_seconds) attempts)
