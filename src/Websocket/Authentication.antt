-- ===== src/Websocket/Authentication.antt =====
-- server/app/websocket/endpoint.py: `_authenticate_connection`, in the two parts that the await of
-- `resolve_access_token` separates.
use encrypt_chat_app.Base.{
  List, Option, Text, [], codes, if◌then◌else◌, length, ltb, none, some, ℕ, ◌==◌, ◌||◌, ◌∷◌,
}
use encrypt_chat_app.Websocket.Errors.{already_authenticated, auth_failed}
use encrypt_chat_app.Websocket.Json.{get}
use encrypt_chat_app.Websocket.Manager.{ConnectionManager, bind_identity}
use encrypt_chat_app.Websocket.Messages.{OutboundMessage, error}
use encrypt_chat_app.Websocket.Queue
use encrypt_chat_app.Websocket.Schemas.{InboundEnvelope}
use encrypt_chat_app.Websocket.Validation.{text_at}

-- `AuthenticatedIdentity` of server/app/auth/service.py
pub record AuthenticatedIdentity : Type 0 where
  pub user_id : Text
  pub username : Text
  pub session_id : Text

abbrev pub max_token_length : ℕ
max_token_length = 4096

-- The part before the await: the answer at once, or the token to resolve.
pub data Begun : Type 0 where
  answered : List OutboundMessage → Begun
  resolving : Text → Begun

abbrev pub begin_token : InboundEnvelope → Option Text → Begun
begin_token envelope none = answered (error auth_failed (some envelope.message_id) ∷ [])
begin_token envelope (some raw_token) =
    if length raw_token == 0 || ltb max_token_length (length raw_token)
    then answered (error auth_failed (some envelope.message_id) ∷ [])
    else resolving raw_token

unfoldable pub begin_authentication : ConnectionManager → ℕ → InboundEnvelope → Begun
begin_authentication m id envelope =
    if (m.heap id).authenticated
    then answered (error already_authenticated (some envelope.message_id) ∷ [])
    else begin_token envelope (text_at (get (codes "access_token") envelope.payload))

-- The part after it. A resolution that raises `AuthError` is none.
unfoldable pub finish_authentication :
    ConnectionManager
    → ℕ
    → InboundEnvelope
    → Option AuthenticatedIdentity
    → ConnectionManager × List OutboundMessage
finish_authentication m id envelope none = (m, error auth_failed (some envelope.message_id) ∷ [])
finish_authentication m id envelope (some identity) =
    let bound = bind_identity m id identity.user_id identity.username identity.session_id in
    let (queue, waiting) = Queue.drain bound.offline_queue identity.username in
    (
      record bound { offline_queue = queue },
      OutboundMessage.auth_ready (record {
        message_id = envelope.message_id;
        user_id = identity.user_id;
        username = identity.username;
        session_id = identity.session_id;
      })
          ∷ waiting,
    )
