-- ===== src/Websocket/Routing.antt =====
-- server/app/websocket/endpoint.py: `_route_message`, `_handle_message_send` and
-- `_handle_privileged`. The context is the object `id` on the manager's heap.
pub mod Statuses
pub mod Cases
pub mod Mismatch
use encrypt_chat_app.Base.{Bool, List, Text, [], if◌then◌else◌, none, not, some, text_eq, ℕ, ◌∷◌}
use encrypt_chat_app.Websocket.Context.{routing_identity}
use encrypt_chat_app.Websocket.Errors.{sender_mismatch, invalid_recipient, internal_protocol_error}
use encrypt_chat_app.Websocket.Manager.{ConnectionManager, is_connected, deliver_to_client}
use encrypt_chat_app.Websocket.Messages.{OutboundMessage, MessageReceipt, error}
use encrypt_chat_app.Websocket.Messages
use encrypt_chat_app.Websocket.Protocol.{
  DeliveryStatus, delivered, queued, recipient_unavailable, rejected, message_send, queue_status,
}
use encrypt_chat_app.Websocket.Queue
use encrypt_chat_app.Websocket.Schemas.{InboundEnvelope}

-- The receipt of an envelope, from the connection's own identity.
abbrev pub receipt_of : ConnectionManager → ℕ → InboundEnvelope → Text → OutboundMessage
receipt_of m id envelope recipient = OutboundMessage.receipt (record {
  message_id = envelope.message_id;
  sender = routing_identity (m.heap id);
  recipient = recipient;
  timestamp = envelope.timestamp;
  payload = envelope.payload;
})

abbrev status_if : Bool → DeliveryStatus → DeliveryStatus
status_if done status = if done then status else recipient_unavailable

unfoldable pub route_message :
    ConnectionManager → ℕ → InboundEnvelope → Text → ConnectionManager × DeliveryStatus
route_message m id envelope recipient =
    let receipt = receipt_of m id envelope recipient in
    if is_connected m recipient
    then (let (m', done) = deliver_to_client m recipient receipt in (m', status_if done delivered))
    else (let (queue, done) = Queue.enqueue m.offline_queue recipient receipt in
        (record m { offline_queue = queue }, status_if done queued))

abbrev pub ack : InboundEnvelope → DeliveryStatus → OutboundMessage
ack envelope status = OutboundMessage.delivery_ack envelope.message_id status

unfoldable pub handle_message_send :
    ConnectionManager → ℕ → InboundEnvelope → ConnectionManager × List OutboundMessage
handle_message_send m id envelope =
    if not (text_eq envelope.sender (routing_identity (m.heap id)))
    then (m, error sender_mismatch (some envelope.message_id) ∷ ack envelope rejected ∷ [])
    else elim envelope.recipient [
      | none ↦ (m, error invalid_recipient (some envelope.message_id) ∷ [])
      | some recipient ↦
          let (m', status) = route_message m id envelope recipient in (m', ack envelope status ∷ [])
    ]

unfoldable pub handle_privileged :
    ConnectionManager → ℕ → InboundEnvelope → ConnectionManager × List OutboundMessage
handle_privileged m id envelope = elim envelope.type [
  | message_send ↦ handle_message_send m id envelope
  | queue_status ↦ (
    m,
    OutboundMessage.queue_status envelope.message_id
          (Queue.count m.offline_queue (routing_identity (m.heap id)))
        ∷ [],
  )
  | _ ↦ (m, error internal_protocol_error (some envelope.message_id) ∷ [])
]
