-- ===== src/Websocket/Protocol/Wire.antt =====
-- protocol.py: the values of the message types.
use encrypt_chat_app.Base.{Text, arith, codes, refl, some, text_eq, text_eq_iff, ◌≡◌}
use encrypt_chat_app.Websocket.Protocol.{MessageType, value, message_type, connection_ready}

-- Every message type is read back from its wire value.
pub message_type-value : (t : MessageType) → message_type (value t) ≡ some t
unfolding message_type text_eq
message_type-value connection_ready = refl
message_type-value _ = refl

-- A text that is read as a message type is the wire value of that type.
pub value_of_message_type :
    (raw : Text) (t : MessageType) → message_type raw ≡ some t → raw ≡ value t
unfolding message_type
value_of_message_type raw t h = ground (
  arith,
  text_eq_iff raw (codes "connection.ready"),
  text_eq_iff raw (codes "message.receipt"),
  text_eq_iff raw (codes "message.delivery_ack"),
  text_eq_iff raw (codes "heartbeat.pong"),
  text_eq_iff raw (codes "protocol.error"),
  text_eq_iff raw (codes "auth.ready"),
  text_eq_iff raw (codes "message.send"),
  text_eq_iff raw (codes "heartbeat.ping"),
  text_eq_iff raw (codes "auth.authenticate"),
  text_eq_iff raw (codes "queue.status"),
)
