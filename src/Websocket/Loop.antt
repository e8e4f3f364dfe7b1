-- ===== src/Websocket/Loop.antt =====
-- server/app/websocket/endpoint.py: one round of `_receive_loop`, from what `receive_text` brings to
-- the answers on the outbound queue. The await inside `auth.authenticate` ends the first part of a
-- round; `resume` is the second.
pub mod Responses
pub mod Cases
pub mod Isolation
pub mod Forwarding
use encrypt_chat_app.Base.{
  List, Option, Text, [], if◌then◌else◌, ltb, none, not, some, utf8_length, ℕ, ◌∷◌,
}
use encrypt_chat_app.Websocket.Authentication.{
  AuthenticatedIdentity, Begun, answered, resolving, begin_authentication, finish_authentication,
}
use encrypt_chat_app.Websocket.Context.{ConnectionContext, touch, enqueue_outbound}
use encrypt_chat_app.Websocket.Errors.{
  ProtocolErrorCode, CloseCode, message_too_large, rate_limited, internal_protocol_error,
  idle_timeout, auth_required, normal, policy_violation, closed_auth_required, closed_idle_timeout,
}
use encrypt_chat_app.Websocket.Limits.{TransportLimits}
use encrypt_chat_app.Websocket.Manager.{ConnectionManager, write}
use encrypt_chat_app.Websocket.Messages.{OutboundMessage, error}
use encrypt_chat_app.Websocket.Protocol.{
  MessageType, auth_authenticate, heartbeat_ping, message_send, queue_status, is_privileged,
}
use encrypt_chat_app.Websocket.RateLimiter
use encrypt_chat_app.Websocket.Routing.{handle_privileged}
use encrypt_chat_app.Websocket.Schemas.{Parsers, InboundEnvelope}
use encrypt_chat_app.Websocket.Validation.{Validated, validate_inbound}

-- What follows a round: the next receive, the end of the loop with its code, the await of a token's
-- resolution, or the end of the loop by an exception.
pub data Next : Type 0 where
  receive escape : Next
  close : CloseCode → Next
  resolve : InboundEnvelope → Text → Next

abbrev pub set_context : ConnectionManager → ℕ → ConnectionContext → ConnectionManager
set_context m id c = record m { heap = write m.heap id c }

-- `context.enqueue_outbound(...)` with its result dropped.
unfoldable pub notify : ConnectionManager → ℕ → OutboundMessage → ConnectionManager
notify m id message = set_context m id (enqueue_outbound (m.heap id) message).0

-- The timeout of the next receive.
unfoldable pub receive_timeout : TransportLimits → ConnectionContext → ℕ
receive_timeout limits context =
    if context.authenticated
    then limits.idle_timeout_seconds
    else limits.unauthenticated_timeout_seconds

-- `except TimeoutError`
unfoldable pub on_timeout : ConnectionManager → ℕ → ConnectionManager × CloseCode
on_timeout m id =
    if not (m.heap id).authenticated
    then (notify m id (error auth_required none), closed_auth_required)
    else (notify m id (error idle_timeout none), closed_idle_timeout)

-- The `for` at the end of the round: it stops at the first message that is not accepted.
unfoldable pub respond : ConnectionManager → ℕ → List OutboundMessage → ConnectionManager × Next
respond m id [] = (m, receive)
respond m id (response ∷ responses) =
    let m' = notify m id response in
    let rest = respond m' id responses in
    if (enqueue_outbound (m.heap id) response).1 then rest else (m', close policy_violation)

-- The branches on the envelope's type.
unfoldable pub dispatch : ConnectionManager → ℕ → ℕ → InboundEnvelope → ConnectionManager × Next
dispatch m id server_time envelope = elim envelope.type [
  | auth_authenticate ↦ elim (begin_authentication m id envelope) [
    | answered responses ↦ respond m id responses
    | resolving raw_token ↦ (m, resolve envelope raw_token)
  ]
  | heartbeat_ping ↦
      respond m id (OutboundMessage.heartbeat_pong envelope.message_id server_time ∷ [])
  | _ ↦
      if is_privileged envelope.type
      then (let (m', responses) = handle_privileged m id envelope in respond m' id responses)
      else respond m id (error internal_protocol_error (some envelope.message_id) ∷ [])
]

abbrev pub on_validated : ConnectionManager → ℕ → ℕ → Option Validated → ConnectionManager × Next
on_validated m id server_time none = (m, escape)
on_validated m id server_time (some (none, errors)) = respond m id errors
on_validated m id server_time (some (some envelope, errors)) = dispatch m id server_time envelope

-- The context after `touch` and after the rate limiter has counted the message.
abbrev pub touched : ConnectionManager → ℕ → ℕ → ConnectionManager
touched m id now = set_context m id (touch (m.heap id) now)

abbrev pub counted : ConnectionManager → ℕ → ℕ → ConnectionManager
counted m id now =
    set_context m id
      (record (m.heap id) { rate_limiter = (RateLimiter.allow (m.heap id).rate_limiter now).0 })

-- A text frame that arrived at `now`.
unfoldable pub on_frame : Parsers → ConnectionManager → ℕ → Text → ℕ → ℕ → ConnectionManager × Next
on_frame p m id raw_text now server_time =
    let m₁ = touched m id now in
    if ltb m.limits.max_message_bytes (utf8_length raw_text)
    then (notify m₁ id (error message_too_large none), receive)
    else let m₂ = counted m₁ id now in
      if not (RateLimiter.allow (m₁.heap id).rate_limiter now).1
      then (notify m₂ id (error rate_limited none), receive)
      else on_validated m₂ id server_time (validate_inbound p (m₂.heap id) raw_text)

-- The rest of the round after the await in `auth.authenticate`.
unfoldable pub resume :
    ConnectionManager
    → ℕ
    → InboundEnvelope
    → Option AuthenticatedIdentity
    → ConnectionManager × Next
resume m id envelope resolved =
    let (m', responses) = finish_authentication m id envelope resolved in respond m' id responses
