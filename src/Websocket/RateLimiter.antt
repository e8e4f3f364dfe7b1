-- ===== src/Websocket/RateLimiter.antt =====
-- server/app/websocket/limits.py: `RateLimiter`, the fixed-window counter of one connection. Time is
-- a number of ticks, and a difference of times is compared with the subtraction moved across.
pub mod Windows
use encrypt_chat_app.Base.{Bool, if◌then◌else◌, leb, ℕ, ◌+◌}

pub record RateLimiter : Type 0 where
  pub max_messages : ℕ
  pub window_seconds : ℕ
  pub window_started_at : ℕ
  pub count : ℕ

abbrev pub init : ℕ → ℕ → RateLimiter
init max_messages window_seconds = record {
  max_messages = max_messages;
  window_seconds = window_seconds;
  window_started_at = 0;
  count = 0;
}

-- The `if` of `allow`.
abbrev pub roll : ℕ → RateLimiter → RateLimiter
roll now r =
    if leb (r.window_started_at + r.window_seconds) now
    then record r { window_started_at = now; count = 0 }
    else r

unfoldable pub allow : RateLimiter → ℕ → RateLimiter × Bool
allow r now =
    let rolled = roll now r in
    let counted = record rolled { count = rolled.count + 1 } in
    (counted, leb counted.count counted.max_messages)
