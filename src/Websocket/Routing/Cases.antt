-- ===== src/Websocket/Routing/Cases.antt =====
-- The handlers by their branches: what holds on each branch holds of the call.
use encrypt_chat_app.Base.{
  Bool, List, Option, Text, [], false, if◌then◌else◌, none, not, some, text_eq, true, ℕ, ◌∷◌,
}
use encrypt_chat_app.Websocket.Context.{routing_identity}
use encrypt_chat_app.Websocket.Errors.{sender_mismatch, invalid_recipient, internal_protocol_error}
use encrypt_chat_app.Websocket.Manager.{ConnectionManager, is_connected, deliver_to_client}
use encrypt_chat_app.Websocket.Messages.{OutboundMessage, error}
use encrypt_chat_app.Websocket.Protocol.{
  MessageType, DeliveryStatus, delivered, queued, rejected, message_send, queue_status,
}
use encrypt_chat_app.Websocket.Queue
use encrypt_chat_app.Websocket.Routing.{
  receipt_of, status_if, route_message, ack, handle_message_send, handle_privileged,
}
use encrypt_chat_app.Websocket.Schemas.{InboundEnvelope}

pub route_message-cases {ℓ} :
    (P : ConnectionManager → Type ℓ) (m : ConnectionManager) (id : ℕ) (e : InboundEnvelope)
    (recipient : Text)
    → P (deliver_to_client m recipient (receipt_of m id e recipient)).0
    → P (record m {
      offline_queue = (Queue.enqueue m.offline_queue recipient (receipt_of m id e recipient)).0;
    })
    → P (route_message m id e recipient).0
unfolding route_message
route_message-cases P m id e recipient offered stored = go (is_connected m recipient)
  where
    receipt : OutboundMessage
    receipt = receipt_of m id e recipient

    go :
        (b : Bool)
        → let r : ConnectionManager × DeliveryStatus =
            if b
            then (let (m', done) = deliver_to_client m recipient receipt in
                (m', status_if done delivered))
            else (let (queue, done) = Queue.enqueue m.offline_queue recipient receipt in
                (record m { offline_queue = queue }, status_if done queued)) in
          P r.0
    go true = offered
    go false = stored

abbrev pub Handled : Type 0
Handled = ConnectionManager × List OutboundMessage

pub handle_message_send-cases {ℓ} :
    (P : Handled → Type ℓ) (m : ConnectionManager) (id : ℕ) (e : InboundEnvelope)
    → P (m, error sender_mismatch (some e.message_id) ∷ ack e rejected ∷ [])
    → P (m, error invalid_recipient (some e.message_id) ∷ [])
    → ((recipient : Text)
        → P ((route_message m id e recipient).0, ack e (route_message m id e recipient).1 ∷ []))
    → P (handle_message_send m id e)
unfolding handle_message_send
handle_message_send-cases P m id e spoofed missing routed =
    go (text_eq e.sender (routing_identity (m.heap id))) e.recipient
  where
    go :
        (honest : Bool) (given : Option Text)
        → P (
            if not honest
            then (m, error sender_mismatch (some e.message_id) ∷ ack e rejected ∷ [])
            else elim given [
              | none ↦ (m, error invalid_recipient (some e.message_id) ∷ [])
              | some recipient ↦ (
                (route_message m id e recipient).0,
                ack e (route_message m id e recipient).1 ∷ [],
              )
            ])
    go false given = spoofed
    go true none = missing
    go true (some recipient) = routed recipient

pub handle_privileged-cases {ℓ} :
    (P : Handled → Type ℓ) (m : ConnectionManager) (id : ℕ) (e : InboundEnvelope)
    → P (handle_message_send m id e)
    → P (
      m,
      OutboundMessage.queue_status e.message_id
            (Queue.count m.offline_queue (routing_identity (m.heap id)))
          ∷ [],
    )
    → P (m, error internal_protocol_error (some e.message_id) ∷ [])
    → P (handle_privileged m id e)
unfolding handle_privileged
handle_privileged-cases P m id e sent counted other = go e.type
  where
    go :
        (t : MessageType)
        → P (elim t [
          | message_send ↦ handle_message_send m id e
          | queue_status ↦ (
            m,
            OutboundMessage.queue_status e.message_id
                  (Queue.count m.offline_queue (routing_identity (m.heap id)))
                ∷ [],
          )
          | _ ↦ (m, error internal_protocol_error (some e.message_id) ∷ [])
        ])
    go message_send = sent
    go queue_status = counted
    go _ = other
