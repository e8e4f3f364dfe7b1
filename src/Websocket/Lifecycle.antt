-- ===== src/Websocket/Lifecycle.antt =====
-- server/app/websocket/endpoint.py: `websocket_transport` before and after the receive loop, and one
-- round of `_writer_loop`.
use encrypt_chat_app.Base.{Option, Text, [], codes, if◌then◌else◌, none, not, some, ℕ, ◌++◌, ◌∷◌}
use encrypt_chat_app.Websocket.Context.{mark_closing}
use encrypt_chat_app.Websocket.Errors.{CloseCode, closed_origin_rejected, closed_connection_limit}
use encrypt_chat_app.Websocket.Limits.{TransportLimits, is_origin_allowed}
use encrypt_chat_app.Websocket.Loop.{set_context, notify}
use encrypt_chat_app.Websocket.Manager.{
  ConnectionManager, Registration, registered, refused, register, unregister,
}
use encrypt_chat_app.Websocket.Messages.{OutboundMessage}

-- An upgrade denied before it is accepted, or the manager with the new connection.
pub data Opened : Type 0 where
  denied : CloseCode → Opened
  opened : ConnectionManager → Opened

abbrev pub connection_ready : TransportLimits → ℕ → OutboundMessage
connection_ready limits id = OutboundMessage.connection_ready (record {
  connection_id = id;
  authentication_deadline_seconds = limits.unauthenticated_timeout_seconds;
  heartbeat_interval_seconds = limits.heartbeat_interval_seconds;
  idle_timeout_seconds = limits.idle_timeout_seconds;
  max_message_bytes = limits.max_message_bytes;
})

-- `hex` is the `uuid4().hex` of the provisional identifier, and `id` that of the connection.
abbrev pub provisional_id : Text → Text
provisional_id hex = codes "anon-" ++ hex

abbrev pub admission : Registration → Opened
admission (refused reason) = denied closed_connection_limit
admission (registered m) = opened m

-- Up to the await of `accept`.
unfoldable pub open_connection :
    ConnectionManager → ℕ → Text → Option Text → Option Text → ℕ → ℕ → Opened
open_connection m id hex origin remote_host now connected_at =
    if not (is_origin_allowed m.limits origin)
    then denied closed_origin_rejected
    else admission (register m id (provisional_id hex) remote_host now connected_at)

-- From there to the first receive.
unfoldable pub greet : ConnectionManager → ℕ → ConnectionManager
greet m id = notify m id (connection_ready m.limits id)

-- The start of the `finally` block, and its end after the flush.
unfoldable pub begin_close : ConnectionManager → ℕ → ConnectionManager
begin_close m id = set_context m id (mark_closing (m.heap id))

unfoldable pub end_close : ConnectionManager → ℕ → ConnectionManager
end_close m id = (unregister m id).0

-- `outbound.get()`, and the message that is sent.
unfoldable pub write_next : ConnectionManager → ℕ → ConnectionManager × Option OutboundMessage
write_next m id = elim (m.heap id).outbound.items [
  | [] ↦ (m, none)
  | message ∷ rest ↦ (
    set_context m id
        (record (m.heap id) { outbound = record (m.heap id).outbound { items = rest } }),
    some message,
  )
]
