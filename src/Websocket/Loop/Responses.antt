-- ===== src/Websocket/Loop/Responses.antt =====
-- The answers of a round, one at a time.
use encrypt_chat_app.Base.{
  ==_iff, All, List, [], arith, false, if◌then◌else◌, refl, true, ℕ, ◌∷◌, ◌≡◌, ◌≢◌,
}
use encrypt_chat_app.Websocket.Context.{ConnectionContext, routing_identity, enqueue_outbound}
use encrypt_chat_app.Websocket.Context.Outbound.{enqueue_outbound-identity}
use encrypt_chat_app.Websocket.Errors.{policy_violation}
use encrypt_chat_app.Websocket.Loop.{Next, close, notify, respond}
use encrypt_chat_app.Websocket.Manager.{ConnectionManager, Heap, write}
use encrypt_chat_app.Websocket.Messages.{OutboundMessage}

pub write_self : (heap : Heap) (id : ℕ) (c : ConnectionContext) → write heap id c id ≡ c
write_self heap id c = rw ((==_iff id id).1 refl) refl

pub write_ne :
    (heap : Heap) (id i : ℕ) (c : ConnectionContext) → i ≢ id → write heap id c i ≡ heap i
write_ne heap id i c h = ground arith

-- What every notification of the connection keeps, `respond` keeps.
pub respond-keeps {ℓ κ} :
    (P : ConnectionManager → Type ℓ) (Q : OutboundMessage → Type κ) (id : ℕ)
    → ((m : ConnectionManager) (r : OutboundMessage) → Q r → P m → P (notify m id r))
    → (m : ConnectionManager) (responses : List OutboundMessage) → All Q responses
    → P m
    → P (respond m id responses).0
unfolding respond
respond-keeps P Q id told m [] h s = s
respond-keeps P Q id told m (response ∷ responses) h s =
    elim (enqueue_outbound (m.heap id) response).1
      as (λ b.
        let r : ConnectionManager × Next =
          if b
          then respond (notify m id response) id responses
          else (notify m id response, close policy_violation) in
        P r.0) [
          | true ↦
              respond-keeps P Q id told (notify m id response) responses h.1 (told m response h.0 s)
          | false ↦ told m response h.0 s
        ]

-- A notification keeps the names that the connection has.
pub notify-identity :
    (m : ConnectionManager) (id : ℕ) (message : OutboundMessage)
    → (routing_identity ((notify m id message).heap id) ≡ routing_identity (m.heap id))
      × (((notify m id message).heap id).transport_client_id ≡ (m.heap id).transport_client_id)
unfolding notify
notify-identity m id message =
    rw (write_self m.heap id (enqueue_outbound (m.heap id) message).0)
      (enqueue_outbound-identity (m.heap id) message)
