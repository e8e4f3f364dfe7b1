-- ===== src/Websocket/Context.antt =====
-- server/app/websocket/manager.py: `ConnectionContext`, the transport state of one connection, and
-- the `asyncio.Queue` of what waits to be written to it.
pub mod Outbound
use encrypt_chat_app.Base.{
  Bool, List, Option, Text, [], false, if◌then◌else◌, leb, length, ltb, none, some, true, ℕ, ◌&&◌,
  ◌++◌, ◌+◌, ◌∷◌,
}
use encrypt_chat_app.Websocket.Messages.{OutboundMessage}
use encrypt_chat_app.Websocket.RateLimiter.{RateLimiter}

-- `asyncio.Queue(maxsize)`: with maxsize 0 it is never full.
pub record AsyncQueue : Type 0 where
  pub maxsize : ℕ
  pub items : List OutboundMessage

abbrev pub is_full : AsyncQueue → Bool
is_full q = ltb 0 q.maxsize && leb q.maxsize (length q.items)

-- The fields that the server reads: nothing reads `protocol_version`, which is constant.
pub record ConnectionContext : Type 0 where
  pub connection_id : ℕ
  pub transport_client_id : Text
  pub connected_at : ℕ
  pub outbound : AsyncQueue
  pub rate_limiter : RateLimiter
  pub last_activity_monotonic : ℕ
  pub authenticated : Bool
  pub user_id : Option Text
  pub account_username : Option Text
  pub session_id : Option Text
  pub remote_host : Option Text
  pub closing : Bool

unfoldable pub authenticate : ConnectionContext → Text → Text → Text → ConnectionContext
authenticate c user_id username session_id = record c {
  authenticated = true;
  user_id = some user_id;
  account_username = some username;
  session_id = some session_id;
}

abbrev pub routing_identity : ConnectionContext → Text
routing_identity c = elim c.account_username [
  | some username ↦ username
  | none ↦ c.transport_client_id
]

unfoldable pub touch : ConnectionContext → ℕ → ConnectionContext
touch c now = record c { last_activity_monotonic = now }

-- `idle_seconds(now) >= timeout`, with the subtraction moved across.
abbrev pub is_idle_for : ConnectionContext → ℕ → ℕ → Bool
is_idle_for c now timeout = leb (c.last_activity_monotonic + timeout) now

-- The message at the end of the queue.
abbrev pub append_outbound : ConnectionContext → OutboundMessage → ConnectionContext
append_outbound c message = record c {
  outbound = record c.outbound { items = c.outbound.items ++ message ∷ [] };
}

-- `put_nowait`, and false where it raises `QueueFull`.
unfoldable pub enqueue_outbound : ConnectionContext → OutboundMessage → ConnectionContext × Bool
enqueue_outbound c message =
    if c.closing
    then (c, false)
    else if is_full c.outbound
    then (c, false)
    else (append_outbound c message, true)

unfoldable pub mark_closing : ConnectionContext → ConnectionContext
mark_closing c = record c { closing = true }

unfoldable pub pending_outbound : ConnectionContext → ℕ
pending_outbound c = length c.outbound.items
