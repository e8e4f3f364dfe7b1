-- ===== src/Websocket/Protocol.antt =====
-- server/app/websocket/protocol.py: the message types, the allowlists and the delivery statuses. A
-- frozenset of types is its membership test.
pub mod Wire
use encrypt_chat_app.Base.{
  Bool, Option, Text, codes, false, if◌then◌else◌, none, some, text_eq, true,
}

pub data MessageType : Type 0 where
  connection_ready message_receipt message_delivery_ack heartbeat_pong protocol_error auth_ready
        message_send heartbeat_ping auth_authenticate queue_status :
      MessageType

abbrev pub value : MessageType → Text
value connection_ready = codes "connection.ready"
value message_receipt = codes "message.receipt"
value message_delivery_ack = codes "message.delivery_ack"
value heartbeat_pong = codes "heartbeat.pong"
value protocol_error = codes "protocol.error"
value auth_ready = codes "auth.ready"
value message_send = codes "message.send"
value heartbeat_ping = codes "heartbeat.ping"
value auth_authenticate = codes "auth.authenticate"
value queue_status = codes "queue.status"

-- `MessageType(raw)`
unfoldable pub message_type : Text → Option MessageType
message_type raw =
    if text_eq raw (codes "connection.ready")
    then some connection_ready
    else if text_eq raw (codes "message.receipt")
    then some message_receipt
    else if text_eq raw (codes "message.delivery_ack")
    then some message_delivery_ack
    else if text_eq raw (codes "heartbeat.pong")
    then some heartbeat_pong
    else if text_eq raw (codes "protocol.error")
    then some protocol_error
    else if text_eq raw (codes "auth.ready")
    then some auth_ready
    else if text_eq raw (codes "message.send")
    then some message_send
    else if text_eq raw (codes "heartbeat.ping")
    then some heartbeat_ping
    else if text_eq raw (codes "auth.authenticate")
    then some auth_authenticate
    else if text_eq raw (codes "queue.status")
    then some queue_status
    else none

abbrev pub protocol_version : Text
protocol_version = codes "1"

abbrev pub websocket_path : Text
websocket_path = codes "/ws/v1"

-- `t in CLIENT_SENDABLE_TYPES`
abbrev pub is_client_sendable : MessageType → Bool
is_client_sendable auth_authenticate = true
is_client_sendable message_send = true
is_client_sendable heartbeat_ping = true
is_client_sendable queue_status = true
is_client_sendable _ = false

-- `t in UNAUTHENTICATED_SENDABLE_TYPES`
abbrev pub is_unauthenticated_sendable : MessageType → Bool
is_unauthenticated_sendable auth_authenticate = true
is_unauthenticated_sendable heartbeat_ping = true
is_unauthenticated_sendable _ = false

-- `t in PRIVILEGED_TYPES`
abbrev pub is_privileged : MessageType → Bool
is_privileged message_send = true
is_privileged queue_status = true
is_privileged _ = false

pub data DeliveryStatus : Type 0 where
  delivered queued recipient_unavailable rejected : DeliveryStatus
