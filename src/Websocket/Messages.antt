-- ===== src/Websocket/Messages.antt =====
-- schemas.py: what the server sends, and `_error` of endpoint.py.
use encrypt_chat_app.Base.{Option, Text, ℕ}
use encrypt_chat_app.Websocket.Errors.{ProtocolErrorCode}
use encrypt_chat_app.Websocket.Errors
use encrypt_chat_app.Websocket.Json.{Fields}
use encrypt_chat_app.Websocket.Protocol.{DeliveryStatus}
use encrypt_chat_app.Websocket.Schemas.{Timestamp}

pub record ConnectionReady : Type 0 where
  pub connection_id : ℕ
  pub authentication_deadline_seconds : ℕ
  pub heartbeat_interval_seconds : ℕ
  pub idle_timeout_seconds : ℕ
  pub max_message_bytes : ℕ

pub record AuthReady : Type 0 where
  pub message_id : ℕ
  pub user_id : Text
  pub username : Text
  pub session_id : Text

pub record MessageReceipt : Type 0 where
  pub message_id : ℕ
  pub sender : Text
  pub recipient : Text
  pub timestamp : Timestamp
  pub payload : Fields

-- `OutboundMessage`, by subclass. Fields that the class pins to one literal are left out.
pub data OutboundMessage : Type 0 where
  connection_ready : ConnectionReady → OutboundMessage
  auth_ready : AuthReady → OutboundMessage
  receipt : MessageReceipt → OutboundMessage
  delivery_ack : ℕ → DeliveryStatus → OutboundMessage
  heartbeat_pong : ℕ → ℕ → OutboundMessage
  queue_status : ℕ → ℕ → OutboundMessage
  protocol_error : Text → Text → Option ℕ → OutboundMessage

-- `_error` of endpoint.py
abbrev pub error : ProtocolErrorCode → Option ℕ → OutboundMessage
error code message_id =
    OutboundMessage.protocol_error (Errors.value code) (Errors.describe code) message_id
