-- ===== src/Websocket/Loop/Forwarding.antt =====
-- Store and forward: what waited offline reaches the connection that authenticates.
use encrypt_chat_app.Base.{
  All-any, List, Text, [], arith, false, length, length-append, refl, some, subst, suc, sym,
  text_eq_refl, true, ℕ, ◌++◌, ◌+◌, ◌∙◌, ◌∷◌, ◌≡◌, ◌≤◌, ◌⊎◌,
}
use mathlib.Core.List.{append-nil, append_assoc}
use encrypt_chat_app.Websocket.Context.{ConnectionContext, enqueue_outbound, authenticate}
use encrypt_chat_app.Websocket.Authentication.{AuthenticatedIdentity, finish_authentication}
use encrypt_chat_app.Websocket.Loop.{receive, notify, respond, resume}
use encrypt_chat_app.Websocket.Loop.Responses.{write_self, respond-keeps}
use encrypt_chat_app.Websocket.Manager.{ConnectionManager, bind_identity}
use encrypt_chat_app.Websocket.Messages.{OutboundMessage}
use encrypt_chat_app.Websocket.Queue.Contents.{contents, drain-contents}
use encrypt_chat_app.Websocket.Queue
use encrypt_chat_app.Websocket.Schemas.{InboundEnvelope}

-- The context is not closing, and its queue takes `n` messages more.
abbrev pub Takes : ConnectionContext → ℕ → Type 0
Takes c n =
    (c.closing ≡ false)
    × ((c.outbound.maxsize ≡ 0) ⊎ (length c.outbound.items + n ≤ c.outbound.maxsize))

enqueue_outbound-Takes :
    (c : ConnectionContext) (message : OutboundMessage) (n : ℕ)
    → Takes c (suc n)
    → ((enqueue_outbound c message).1 ≡ true)
      × ((enqueue_outbound c message).0.outbound.items ≡ c.outbound.items ++ message ∷ [])
      × Takes (enqueue_outbound c message).0 n
unfolding enqueue_outbound
enqueue_outbound-Takes c message n (is_open, room) =
    ground (arith, is_open, room, length-append c.outbound.items (message ∷ []))

respond-Takes :
    (m : ConnectionManager) (id : ℕ) (responses : List OutboundMessage)
    → Takes (m.heap id) (length responses)
    → ((respond m id responses).1 ≡ receive)
      × (((respond m id responses).0.heap id).outbound.items
          ≡ (m.heap id).outbound.items ++ responses)
unfolding respond notify
respond-Takes m id [] t = (refl, sym (append-nil (m.heap id).outbound.items))
respond-Takes m id (response ∷ responses) t =
    let (ok, items, takes) = enqueue_outbound-Takes (m.heap id) response (length responses) t in
    let self = write_self m.heap id (enqueue_outbound (m.heap id) response).0 in
    let (next, all) =
      respond-Takes (notify m id response) id responses
        (unfold notify in subst (λ c. Takes c (length responses)) (sym self) takes) in
    rw (ok, respond)
      (
        next,
        all
            ∙ unfold notify in
              (rw (self, items)
                (append_assoc (m.heap id).outbound.items (response ∷ []) responses)),
      )

-- The message that tells the connection who it is now.
abbrev pub ready : InboundEnvelope → AuthenticatedIdentity → OutboundMessage
ready e identity = OutboundMessage.auth_ready (record {
  message_id = e.message_id;
  user_id = identity.user_id;
  username = identity.username;
  session_id = identity.session_id;
})

-- When the outbound queue has room, a connection that authenticates goes on receiving, and finds
-- the confirmation and then all that waited for its account, in order, behind what it had;
-- nothing waits for the account any more.
pub resume-forwards :
    (m : ConnectionManager) (id : ℕ) (e : InboundEnvelope) (identity : AuthenticatedIdentity)
    → Takes (m.heap id) (suc (length (contents m.offline_queue identity.username)))
    → ((resume m id e (some identity)).1 ≡ receive)
      × (((resume m id e (some identity)).0.heap id).outbound.items
          ≡ (m.heap id).outbound.items
            ++ ready e identity ∷ contents m.offline_queue identity.username)
      × (contents (resume m id e (some identity)).0.offline_queue identity.username ≡ [])
unfolding resume finish_authentication bind_identity authenticate
resume-forwards m id e identity t =
    let (next, all) = respond-Takes bound id responses takes in
    (next, all ∙ rw (write_self m.heap id known, waiting) refl, unqueued)
  where
    name : Text
    name = identity.username

    known : ConnectionContext
    known = authenticate (m.heap id) identity.user_id name identity.session_id

    bound : ConnectionManager
    bound = (finish_authentication m id e (some identity)).0

    responses : List OutboundMessage
    responses = (finish_authentication m id e (some identity)).1

    waiting : (Queue.drain m.offline_queue name).1 ≡ contents m.offline_queue name
    waiting = (drain-contents m.offline_queue name name).0

    takes : Takes (bound.heap id) (length responses)
    takes = rw (write_self m.heap id known, waiting) t

    unqueued : contents (respond bound id responses).0.offline_queue name ≡ []
    unqueued =
        respond-keeps (λ a. contents a.offline_queue name ≡ []) (λ _. Unit {0}) id
          (λ a r _ s. unfold notify in s) bound responses (All-any responses)
          ((drain-contents m.offline_queue name name).1 ∙ rw text_eq_refl refl)
