-- ===== src/Websocket/Routing/Statuses.antt =====
-- What each delivery status means, and what a refused message leaves alone.
use encrypt_chat_app.Base.{
  Bool, Bool-cases, Text, [], arith, false, if◌then◌else◌, inl, inr, refl, some, sym, text_eq,
  text_eq_iff, true, ℕ, ◌++◌, ◌∙◌, ◌∷◌, ◌≡◌, ◌≢◌,
}
use encrypt_chat_app.Websocket.Context.{ConnectionContext, routing_identity, enqueue_outbound}
use encrypt_chat_app.Websocket.Errors.{sender_mismatch}
use encrypt_chat_app.Websocket.Manager.{ConnectionManager, is_connected, deliver_to_client}
use encrypt_chat_app.Websocket.Manager.Registry.{IsRegistry}
use encrypt_chat_app.Websocket.Manager.Delivery.{
  serves, deliver_to_client-heap, deliver_to_client-accepted, is_connected-serves,
}
use encrypt_chat_app.Websocket.Messages.{OutboundMessage, error}
use encrypt_chat_app.Websocket.Protocol.{
  DeliveryStatus, delivered, queued, recipient_unavailable, rejected,
}
use encrypt_chat_app.Websocket.Queue
use encrypt_chat_app.Websocket.Queue.Contents.{enqueue-contents, contents}
use encrypt_chat_app.Websocket.Schemas.{InboundEnvelope}
use encrypt_chat_app.Websocket.Routing.{
  status_if, receipt_of, route_message, ack, handle_message_send,
}

-- A message whose claimed sender is not the connection's routing identity is answered by a sender
-- mismatch and a rejected acknowledgement, and changes nothing.
pub spoof-rejected :
    (m : ConnectionManager) (id : ℕ) (e : InboundEnvelope)
    → e.sender ≢ routing_identity (m.heap id)
    → handle_message_send m id e
      ≡ (m, error sender_mismatch (some e.message_id) ∷ ack e rejected ∷ [])
unfolding handle_message_send
spoof-rejected m id e h = ground (arith, text_eq_iff e.sender (routing_identity (m.heap id)))

-- A message that is not accepted leaves the context as it was.
enqueue_outbound_refused :
    (c : ConnectionContext) (message : OutboundMessage)
    → (enqueue_outbound c message).1 ≡ false
    → (enqueue_outbound c message).0 ≡ c
unfolding enqueue_outbound
enqueue_outbound_refused c message h = ground arith

module _ (m : ConnectionManager) (id : ℕ) (e : InboundEnvelope) (recipient : Text) where
  abbrev pub receipt : OutboundMessage
  receipt = receipt_of m id e recipient

  -- What each status says of the manager afterwards.
  -- delivered: a live connection of the recipient took the receipt, every one was offered it, and
  -- nothing else changed.
  -- queued: the recipient has no live connection, and the receipt stands last in its queue.
  -- recipient_unavailable: no context and no queue has changed. rejected: never returned.
  abbrev pub Meaning : ConnectionManager → DeliveryStatus → Type 0
  Meaning m' delivered =
      ((i : ℕ) × (serves m recipient i ≡ true) × ((enqueue_outbound (m.heap i) receipt).1 ≡ true))
      × ((i : ℕ)
          → m'.heap i
            ≡ (if serves m recipient i then (enqueue_outbound (m.heap i) receipt).0 else m.heap i))
      × (m'.offline_queue ≡ m.offline_queue)
  Meaning m' queued =
      ((i : ℕ) → serves m recipient i ≡ false)
      × (m'.heap ≡ m.heap)
      × ((k : Text)
          → contents m'.offline_queue k ≡ (
              if text_eq recipient k
              then contents m.offline_queue k ++ receipt ∷ []
              else contents m.offline_queue k))
  Meaning m' recipient_unavailable =
      ((i : ℕ) → m'.heap i ≡ m.heap i)
      × ((k : Text) → contents m'.offline_queue k ≡ contents m.offline_queue k)
  Meaning m' rejected = ⊥

  refused_each :
      (i : ℕ)
      → IsRegistry m
      → (deliver_to_client m recipient receipt).1 ≡ false
      → serves m recipient i ≡ true
      → (enqueue_outbound (m.heap i) receipt).1 ≡ false
  refused_each i v h s = elim (Bool-cases (enqueue_outbound (m.heap i) receipt).1) [
    | inr refused ↦ refused
    | inl took ↦
        let done = (deliver_to_client-accepted m recipient receipt v).1 (i, s, took) in
        cc (sym done ∙ h)
  ]

  nobody : (i : ℕ) → IsRegistry m → is_connected m recipient ≡ false → serves m recipient i ≡ false
  nobody i v away = elim (Bool-cases (serves m recipient i)) [
    | inr other ↦ other
    | inl s ↦ let here = (is_connected-serves m recipient v).1 (i, s) in cc (sym here ∙ away)
  ]

  delivery-Meaning :
      (done : Bool)
      → IsRegistry m
      → (deliver_to_client m recipient receipt).1 ≡ done
      → Meaning (deliver_to_client m recipient receipt).0 (status_if done delivered)
  unfolding deliver_to_client
  delivery-Meaning true v h = (
    (deliver_to_client-accepted m recipient receipt v).0 h,
    λ i. deliver_to_client-heap m recipient receipt i v,
    refl,
  )
  delivery-Meaning false v h =
      (λ i. deliver_to_client-heap m recipient receipt i v ∙ unchanged i, λ k. refl)
    where
      unchanged :
          (i : ℕ)
          → (if serves m recipient i then (enqueue_outbound (m.heap i) receipt).0 else m.heap i)
            ≡ m.heap i
      unchanged i = elim (Bool-cases (serves m recipient i)) [
        | inr other ↦ rw other refl
        | inl s ↦ rw s (enqueue_outbound_refused (m.heap i) receipt (refused_each i v h s))
      ]

  queue-Meaning :
      (done : Bool)
      → ((i : ℕ) → serves m recipient i ≡ false)
      → (Queue.enqueue m.offline_queue recipient receipt).1 ≡ done
      → Meaning
          (record m { offline_queue = (Queue.enqueue m.offline_queue recipient receipt).0 })
          (status_if done queued)
  queue-Meaning true away h =
      (away, refl, λ k. enqueue-contents m.offline_queue recipient k receipt ∙ rw h refl)
  queue-Meaning false away h =
      (λ i. refl, λ k. enqueue-contents m.offline_queue recipient k receipt ∙ rw h refl)

  -- On a well-formed registry, the status that routing returns says what happened. Delivered:
  -- some live connection of the recipient took the receipt, every one of them was offered it, no
  -- other context changed, and the offline queue stayed. Queued: the recipient has no live
  -- connection, no context changed, and the receipt stands last in the recipient's queue, the
  -- other queues as they were. Unavailable: no context and no queue changed. Rejected is never
  -- returned.
  pub route_message-Meaning :
      IsRegistry m → Meaning (route_message m id e recipient).0 (route_message m id e recipient).1
  unfolding route_message
  route_message-Meaning v = elim (Bool-cases (is_connected m recipient)) [
    | inl here ↦ rw here (delivery-Meaning _ v refl)
    | inr away ↦ rw away (queue-Meaning _ (λ i. nobody i v away) refl)
  ]
