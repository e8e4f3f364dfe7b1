-- ===== src/Websocket/Server/Routing.antt =====
-- Delivery and routing keep the invariant.
use encrypt_chat_app.Base.{
  All, All-append, Bool, Bool-cases, List, Text, [], arith, false, if◌then◌else◌, inl, inr, refl,
  sym, text_eq, text_eq_iff, true, ℕ, ◌++◌, ◌∷◌, ◌≡◌,
}
use encrypt_chat_app.Websocket.Authentication.{AuthenticatedIdentity}
use encrypt_chat_app.Websocket.Context.{ConnectionContext, routing_identity, enqueue_outbound}
use encrypt_chat_app.Websocket.Context.Outbound.{enqueue_outbound-identity}
use encrypt_chat_app.Websocket.Manager.{ConnectionManager, deliver_to_client}
use encrypt_chat_app.Websocket.Manager.Delivery.{serves, deliver_to_client-heap}
use encrypt_chat_app.Websocket.Messages.{OutboundMessage, MessageReceipt}
use encrypt_chat_app.Websocket.Queue
use encrypt_chat_app.Websocket.Queue.Bounds.{enqueue-IsBounded}
use encrypt_chat_app.Websocket.Queue.Contents.{contents, enqueue-contents}
use encrypt_chat_app.Websocket.Routing.{route_message, handle_message_send, handle_privileged}
use encrypt_chat_app.Websocket.Routing.Cases.{
  route_message-cases, handle_message_send-cases, handle_privileged-cases,
}
use encrypt_chat_app.Websocket.Schemas.{InboundEnvelope}
use encrypt_chat_app.Websocket.Server.Sound.{
  IsVouched, IsMail, IsQueued, IsIdentified, identified, anonymous, IsSoundContext, IsSound,
  heap-IsSound, enqueue_outbound-IsSoundContext,
}

-- A message that is no receipt.
abbrev pub IsPlain : OutboundMessage → Type 0
IsPlain (OutboundMessage.receipt r) = ⊥
IsPlain _ = Unit

module _ (Resolves : Text → AuthenticatedIdentity → Type 0) where
  pub plain-IsMail :
      (me provisional : Text) (message : OutboundMessage)
      → IsPlain message
      → IsMail Resolves me provisional message
  plain-IsMail me provisional (OutboundMessage.receipt r) h = absurd h
  plain-IsMail me provisional (OutboundMessage.auth_ready r) h = tt
  plain-IsMail me provisional _ h = tt

  pub authenticated-IsVouched :
      (c : ConnectionContext)
      → IsIdentified Resolves c
      → c.authenticated ≡ true
      → IsVouched Resolves (routing_identity c)
  authenticated-IsVouched c (anonymous h k) e = cc
  authenticated-IsVouched c (identified token identity r b h k l) e =
      (token, identity, r, ground arith)

  module _ (m : ConnectionManager) (r : MessageReceipt) (s : IsSound Resolves m) where
    abbrev message : OutboundMessage
    message = OutboundMessage.receipt r

    abbrev offered : ConnectionManager
    offered = (deliver_to_client m r.recipient message).0

    offered-identity : (i : ℕ) → routing_identity (offered.heap i) ≡ routing_identity (m.heap i)
    offered-identity i =
        rw (deliver_to_client-heap m r.recipient message i s.registry)
          (elim (serves m r.recipient i)
            as (λ b.
              routing_identity (if b then (enqueue_outbound (m.heap i) message).0 else m.heap i)
              ≡ routing_identity (m.heap i)) [
                | true ↦ (enqueue_outbound-identity (m.heap i) message).0
                | false ↦ refl
              ])

    offered-IsSoundContext :
        IsVouched Resolves r.sender → (i : ℕ) → IsSoundContext Resolves (offered.heap i)
    offered-IsSoundContext vouched i =
        rw (deliver_to_client-heap m r.recipient message i s.registry)
          (elim (Bool-cases (serves m r.recipient i)) [
            | inr other ↦ rw other (s.contexts i)
            | inl served ↦ rw served (
                enqueue_outbound-IsSoundContext Resolves (m.heap i) message
                  (vouched, inl (sym (addressed served))) (s.contexts i))
          ])
      where
        addressed : serves m r.recipient i ≡ true → routing_identity (m.heap i) ≡ r.recipient
        addressed h = ground (arith, text_eq_iff (routing_identity (m.heap i)) r.recipient)

    deliver_to_client-IsSound : IsVouched Resolves r.sender → IsSound Resolves offered
    unfolding deliver_to_client
    deliver_to_client-IsSound vouched =
        heap-IsSound Resolves m offered.heap offered-identity (offered-IsSoundContext vouched) s

    abbrev stored : ConnectionManager
    stored = record m { offline_queue = (Queue.enqueue m.offline_queue r.recipient message).0 }

    stored-IsQueued :
        (name : Text) (accepted : Bool)
        → IsVouched Resolves r.sender
        → All (IsQueued Resolves name) (
            if accepted
            then (if text_eq r.recipient name
                then contents m.offline_queue name ++ message ∷ []
                else contents m.offline_queue name)
            else contents m.offline_queue name)
    stored-IsQueued name false vouched = s.queued name
    stored-IsQueued name true vouched = elim (Bool-cases (text_eq r.recipient name)) [
      | inr other ↦ rw other (s.queued name)
      | inl same ↦ rw same (
          All-append _ (contents m.offline_queue name) (message ∷ []) (s.queued name)
            ((vouched, (text_eq_iff r.recipient name).0 same), tt))
    ]

    enqueue-IsSound : IsVouched Resolves r.sender → IsSound Resolves stored
    enqueue-IsSound vouched = record {
      registry = record {
        tidy = s.registry.tidy;
        distinct = s.registry.distinct;
        bounded = s.registry.bounded;
        indexed = s.registry.indexed;
      };
      contexts = s.contexts;
      queued = λ name.
          rw (enqueue-contents m.offline_queue r.recipient name message)
            (stored-IsQueued name (Queue.enqueue m.offline_queue r.recipient message).1 vouched);
      bounded = enqueue-IsBounded m.offline_queue r.recipient message s.bounded;
    }

  route_message-IsSound :
      (m : ConnectionManager) (id : ℕ) (e : InboundEnvelope) (recipient : Text)
      → (m.heap id).authenticated ≡ true
      → IsSound Resolves m
      → IsSound Resolves (route_message m id e recipient).0
  route_message-IsSound m id e recipient known s =
      route_message-cases (IsSound Resolves) m id e recipient
        (deliver_to_client-IsSound m receipt s vouched) (enqueue-IsSound m receipt s vouched)
    where
      receipt : MessageReceipt
      receipt = record {
        message_id = e.message_id;
        sender = routing_identity (m.heap id);
        recipient = recipient;
        timestamp = e.timestamp;
        payload = e.payload;
      }

      vouched : IsVouched Resolves receipt.sender
      vouched = authenticated-IsVouched (m.heap id) (s.contexts id).identity known

  -- What a handler leaves: a sound manager, and answers that are no receipts.
  abbrev pub IsHandled : ConnectionManager × List OutboundMessage → Type 0
  IsHandled h = IsSound Resolves h.0 × All IsPlain h.1

  handle_message_send-IsHandled :
      (m : ConnectionManager) (id : ℕ) (e : InboundEnvelope)
      → (m.heap id).authenticated ≡ true
      → IsSound Resolves m
      → IsHandled (handle_message_send m id e)
  handle_message_send-IsHandled m id e known s =
      handle_message_send-cases IsHandled m id e (s, (tt, (tt, tt))) (s, (tt, tt))
        (λ recipient. (route_message-IsSound m id e recipient known s, (tt, tt)))

  pub handle_privileged-IsHandled :
      (m : ConnectionManager) (id : ℕ) (e : InboundEnvelope)
      → (m.heap id).authenticated ≡ true
      → IsSound Resolves m
      → IsHandled (handle_privileged m id e)
  handle_privileged-IsHandled m id e known s =
      handle_privileged-cases IsHandled m id e (handle_message_send-IsHandled m id e known s)
        (s, (tt, tt)) (s, (tt, tt))
