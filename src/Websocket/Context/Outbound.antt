-- ===== src/Websocket/Context/Outbound.antt =====
-- `enqueue_outbound` by its two outcomes.
use encrypt_chat_app.Base.{Bool, arith, false, if◌then◌else◌, length, refl, true, ◌<◌, ◌≡◌}
use encrypt_chat_app.Websocket.Context.{
  ConnectionContext, AsyncQueue, is_full, append_outbound, enqueue_outbound, routing_identity,
}
use encrypt_chat_app.Websocket.Messages.{OutboundMessage}

-- What holds of the context and of the context with the message appended holds after the call.
pub enqueue_outbound-cases {ℓ} :
    (P : ConnectionContext → Bool → Type ℓ) (c : ConnectionContext) (message : OutboundMessage)
    → P c false
    → (c.closing ≡ false → is_full c.outbound ≡ false → P (append_outbound c message) true)
    → P (enqueue_outbound c message).0 (enqueue_outbound c message).1
unfolding enqueue_outbound
enqueue_outbound-cases P c message kept appended = go c.closing refl (is_full c.outbound) refl
  where
    go :
        (a : Bool)
        → c.closing ≡ a
        → (b : Bool) → is_full c.outbound ≡ b
        → let r : ConnectionContext × Bool =
            if a then (c, false) else if b then (c, false) else (append_outbound c message, true) in
          P r.0 r.1
    go true e b f = kept
    go false e true f = kept
    go false e false f = appended e f

-- The outbound queue is all that it changes.
pub enqueue_outbound-identity :
    (c : ConnectionContext) (message : OutboundMessage)
    → (routing_identity (enqueue_outbound c message).0 ≡ routing_identity c)
      × ((enqueue_outbound c message).0.transport_client_id ≡ c.transport_client_id)
unfolding enqueue_outbound
enqueue_outbound-identity c message = ground arith

-- A bounded queue that is not full has room for one more.
pub below_maxsize :
    (q : AsyncQueue) → is_full q ≡ false → 0 < q.maxsize → length q.items < q.maxsize
below_maxsize q h pos = ground arith
