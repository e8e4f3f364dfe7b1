-- ===== src/Websocket/RateLimiter/Windows.antt =====
-- How many messages of a sequence of arrivals `RateLimiter.allow` accepts.
use encrypt_chat_app.Base.{
  All, List, [], arith, if◌then◌else◌, length, min, refl, true, ℕ, ◌*◌, ◌+◌, ◌-◌, ◌<◌, ◌∷◌, ◌≡◌,
  ◌≤◌,
}
use encrypt_chat_app.Websocket.RateLimiter.{RateLimiter, allow}

-- The limiter after the arrivals, and how many were accepted.
pub serve : RateLimiter → List ℕ → RateLimiter
serve r [] = r
serve r (now ∷ later) = serve (allow r now).0 later

pub accepted : RateLimiter → List ℕ → ℕ
accepted r [] = 0
accepted r (now ∷ later) = (if (allow r now).1 then 1 else 0) + accepted (allow r now).0 later

-- The arrivals that fall before the current window ends.
abbrev pub InWindow : RateLimiter → List ℕ → Type 0
InWindow r = All (λ now. now < r.window_started_at + r.window_seconds)

-- Of messages that all arrive before the current window ends, exactly as many are accepted as the
-- limit leaves in it, or all if they are fewer.
pub accepted-InWindow :
    (r : RateLimiter) (arrivals : List ℕ)
    → InWindow r arrivals
    → accepted r arrivals ≡ min (length arrivals) (r.max_messages - r.count)
unfolding accepted allow
accepted-InWindow r [] h = omega arith
accepted-InWindow r (now ∷ later) h =
    ground (arith, accepted-InWindow (record r { count = r.count + 1 }) later h.1)

-- A sequence that lies in one stretch of the window's length, wherever it starts.
abbrev pub Within : ℕ → ℕ → List ℕ → Type 0
Within start span = All (λ now. (start ≤ now) × (now < start + span))

Within-InWindow :
    (start span now : ℕ) (r : RateLimiter) (arrivals : List ℕ)
    → start ≤ now
    → r.window_started_at ≡ now
    → r.window_seconds ≡ span
    → Within start span arrivals
    → InWindow r arrivals
Within-InWindow start span now r [] h e f w = tt
Within-InWindow start span now r (t ∷ ts) h e f w =
    (omega arith, Within-InWindow start span now r ts h e f w.1)

-- What is left of the current window, and one more.
accepted_budget :
    (start : ℕ) (r : RateLimiter) (arrivals : List ℕ)
    → Within start r.window_seconds arrivals
    → accepted r arrivals ≤ (r.max_messages - r.count) + r.max_messages
unfolding accepted allow
accepted_budget start r [] h = omega arith
accepted_budget start r (now ∷ later) h =
    let fresh : RateLimiter = record r { window_started_at = now; count = 1 } in
    ground (
      arith,
      accepted-InWindow fresh later
          (Within-InWindow start r.window_seconds now fresh later h.0.0 refl refl h.1),
      accepted_budget start (record r { count = r.count + 1 }) later h.1,
    )

-- In any stretch of time as long as the window, from any state of the limiter and however many
-- messages arrive, at most twice the limit is accepted.
pub accepted-le-twice :
    (start : ℕ) (r : RateLimiter) (arrivals : List ℕ)
    → Within start r.window_seconds arrivals
    → accepted r arrivals ≤ 2 * r.max_messages
accepted-le-twice start r arrivals h = omega (arith, accepted_budget start r arrivals h)

-- Once the window has passed, the next message is accepted, whatever was refused before.
pub allow_after_window :
    (r : RateLimiter) (now : ℕ)
    → 0 < r.max_messages
    → r.window_started_at + r.window_seconds ≤ now
    → (allow r now).1 ≡ true
unfolding allow
allow_after_window r now h e = ground arith
