-- ===== src/Websocket/Server/Stays.antt =====
-- What a step of one connection leaves alone: the limits, the registered ids, and whether a context is
-- authenticated.
use encrypt_chat_app.Base.{
  ==_iff, All-any, Bool-cases, List, Option, Text, [], ap, arith, inl, inr, none, refl, some, ℕ,
  ◌==◌, ◌∙◌, ◌∷◌, ◌≡◌, ◌≢◌,
}
use encrypt_chat_app.Websocket.Authentication.{AuthenticatedIdentity, finish_authentication}
use encrypt_chat_app.Websocket.Context.{
  authenticate, ConnectionContext, enqueue_outbound, touch, mark_closing,
}
use encrypt_chat_app.Websocket.Lifecycle.{begin_close}
use encrypt_chat_app.Websocket.Loop.{
  set_context, notify, respond, dispatch, touched, counted, on_timeout, on_frame, resume,
}
use encrypt_chat_app.Websocket.Loop.Cases.{dispatch-cases, on_frame-cases}
use encrypt_chat_app.Websocket.Loop.Responses.{respond-keeps, write_ne}
use encrypt_chat_app.Websocket.Manager.{
  ConnectionManager, Heap, write, enqueue_each, deliver_to_client, bind_identity,
}
use encrypt_chat_app.Websocket.Messages.{OutboundMessage}
use encrypt_chat_app.Websocket.Routing.{handle_message_send, handle_privileged}
use encrypt_chat_app.Websocket.Routing.Cases.{
  route_message-cases, handle_message_send-cases, handle_privileged-cases,
}
use encrypt_chat_app.Websocket.Schemas.{Parsers, InboundEnvelope}

pub record Stays (i : ℕ) (m m' : ConnectionManager) : Type 0 where
  pub limits : m'.limits ≡ m.limits
  pub connections : m'.connections ≡ m.connections
  pub authenticated : (m'.heap i).authenticated ≡ (m.heap i).authenticated
  pub maxsize : (j : ℕ) → (m'.heap j).outbound.maxsize ≡ (m.heap j).outbound.maxsize

pub Stays-refl : (i : ℕ) (m : ConnectionManager) → Stays i m m
Stays-refl i m = record {
  limits = refl;
  connections = refl;
  authenticated = refl;
  maxsize = λ j. refl;
}

Stays-trans : (i : ℕ) (m₁ m₂ m₃ : ConnectionManager) → Stays i m₁ m₂ → Stays i m₂ m₃ → Stays i m₁ m₃
Stays-trans i m₁ m₂ m₃ s t = record {
  limits = t.limits ∙ s.limits;
  connections = t.connections ∙ s.connections;
  authenticated = t.authenticated ∙ s.authenticated;
  maxsize = λ j. t.maxsize j ∙ s.maxsize j;
}

enqueue_outbound-authenticated :
    (c : ConnectionContext) (message : OutboundMessage)
    → (enqueue_outbound c message).0.authenticated ≡ c.authenticated
unfolding enqueue_outbound
enqueue_outbound-authenticated c message = ground arith

enqueue_outbound-maxsize :
    (c : ConnectionContext) (message : OutboundMessage)
    → (enqueue_outbound c message).0.outbound.maxsize ≡ c.outbound.maxsize
unfolding enqueue_outbound
enqueue_outbound-maxsize c message = ground arith

pub write-maxsize :
    (heap : Heap) (id : ℕ) (c : ConnectionContext) (j : ℕ)
    → c.outbound.maxsize ≡ (heap id).outbound.maxsize
    → (write heap id c j).outbound.maxsize ≡ (heap j).outbound.maxsize
write-maxsize heap id c j h = elim (Bool-cases (id == j)) [
  | inl e ↦ rw e (h ∙ ap (λ k. (heap k).outbound.maxsize) ((==_iff id j).0 e))
  | inr e ↦ rw e refl
]

pub set_context-Stays :
    (i : ℕ) (m : ConnectionManager) (id : ℕ) (c : ConnectionContext)
    → c.authenticated ≡ (m.heap id).authenticated
    → c.outbound.maxsize ≡ (m.heap id).outbound.maxsize
    → Stays i m (set_context m id c)
set_context-Stays i m id c h size = record {
  maxsize = λ j. write-maxsize m.heap id c j size;
  limits = refl;
  connections = refl;
  authenticated = elim (Bool-cases (id == i)) [
    | inl e ↦ rw e (h ∙ ap (λ j. (m.heap j).authenticated) ((==_iff id i).0 e))
    | inr e ↦ rw e refl
  ];
}

pub notify-Stays :
    (i : ℕ) (m : ConnectionManager) (id : ℕ) (r : OutboundMessage) → Stays i m (notify m id r)
unfolding notify
notify-Stays i m id r =
    set_context-Stays i m id _ (enqueue_outbound-authenticated (m.heap id) r)
      (enqueue_outbound-maxsize (m.heap id) r)

pub respond-Stays :
    (i : ℕ) (m : ConnectionManager) (id : ℕ) (responses : List OutboundMessage)
    → Stays i m (respond m id responses).0
respond-Stays i m id responses =
    respond-keeps (Stays i m) (λ _. Unit {0}) id
      (λ m' r _ s. Stays-trans i m m' (notify m' id r) s (notify-Stays i m' id r)) m responses
      (All-any responses) (Stays-refl i m)

enqueue_each-authenticated :
    (heap : Heap) (targets : List ℕ) (message : OutboundMessage) (i : ℕ)
    → ((enqueue_each heap targets message).0 i).authenticated ≡ (heap i).authenticated
unfolding enqueue_each
enqueue_each-authenticated heap [] message i = refl
enqueue_each-authenticated heap (id ∷ targets) message i =
    let c = (enqueue_outbound (heap id) message).0 in
    ground (
      arith,
      enqueue_each-authenticated (write heap id c) targets message i,
      enqueue_outbound-authenticated (heap id) message,
    )

enqueue_each-maxsize :
    (heap : Heap) (targets : List ℕ) (message : OutboundMessage) (j : ℕ)
    → ((enqueue_each heap targets message).0 j).outbound.maxsize ≡ (heap j).outbound.maxsize
unfolding enqueue_each
enqueue_each-maxsize heap [] message j = refl
enqueue_each-maxsize heap (id ∷ targets) message j =
    let c = (enqueue_outbound (heap id) message).0 in
    enqueue_each-maxsize (write heap id c) targets message j
    ∙ write-maxsize heap id c j (enqueue_outbound-maxsize (heap id) message)

deliver_to_client-Stays :
    (i : ℕ) (m : ConnectionManager) (client : Text) (message : OutboundMessage)
    → Stays i m (deliver_to_client m client message).0
unfolding deliver_to_client
deliver_to_client-Stays i m client message = record {
  limits = refl;
  connections = refl;
  authenticated = enqueue_each-authenticated m.heap _ message i;
  maxsize = λ j. enqueue_each-maxsize m.heap _ message j;
}

handle_message_send-Stays :
    (i : ℕ) (m : ConnectionManager) (id : ℕ) (e : InboundEnvelope)
    → Stays i m (handle_message_send m id e).0
handle_message_send-Stays i m id e =
    handle_message_send-cases (λ h. Stays i m h.0) m id e (Stays-refl i m) (Stays-refl i m)
      λ recipient.
        route_message-cases (Stays i m) m id e recipient (deliver_to_client-Stays i m recipient _)
          (record { limits = refl; connections = refl; authenticated = refl; maxsize = λ j. refl })

handle_privileged-Stays :
    (i : ℕ) (m : ConnectionManager) (id : ℕ) (e : InboundEnvelope)
    → Stays i m (handle_privileged m id e).0
handle_privileged-Stays i m id e =
    handle_privileged-cases (λ h. Stays i m h.0) m id e (handle_message_send-Stays i m id e)
      (Stays-refl i m) (Stays-refl i m)

dispatch-Stays :
    (i : ℕ) (m : ConnectionManager) (id server_time : ℕ) (e : InboundEnvelope)
    → Stays i m (dispatch m id server_time e).0
dispatch-Stays i m id server_time e =
    dispatch-cases (λ r. Stays i m r.0) m id server_time e
      (λ responses h. respond-Stays i m id responses) (λ token h. Stays-refl i m)
      (respond-Stays i m id _)
      (λ h.
        Stays-trans i m (handle_privileged m id e).0 _ (handle_privileged-Stays i m id e)
          (respond-Stays i (handle_privileged m id e).0 id (handle_privileged m id e).1))
      (respond-Stays i m id _)

pub on_frame-Stays :
    (p : Parsers) (i : ℕ) (m : ConnectionManager) (id : ℕ) (raw_text : Text) (now server_time : ℕ)
    → Stays i m (on_frame p m id raw_text now server_time).0
unfolding touch
on_frame-Stays p i m id raw_text now server_time =
    on_frame-cases p (λ r. Stays i m r.0) m id raw_text now server_time
      (Stays-trans i m m₁ _ s₁ (notify-Stays i m₁ id _))
      (Stays-trans i m m₂ _ s₂ (notify-Stays i m₂ id _)) s₂
      (λ code message_id. Stays-trans i m m₂ _ s₂ (respond-Stays i m₂ id _))
      (λ e h. Stays-trans i m m₂ _ s₂ (dispatch-Stays i m₂ id server_time e))
  where
    m₁ : ConnectionManager
    m₁ = touched m id now

    m₂ : ConnectionManager
    m₂ = counted m₁ id now

    s₁ : Stays i m m₁
    s₁ = set_context-Stays i m id _ refl refl

    s₂ : Stays i m m₂
    s₂ = Stays-trans i m m₁ m₂ s₁ (set_context-Stays i m₁ id _ refl refl)

pub on_timeout-Stays : (i : ℕ) (m : ConnectionManager) (id : ℕ) → Stays i m (on_timeout m id).0
unfolding on_timeout
on_timeout-Stays i m id = elim (Bool-cases (m.heap id).authenticated) [
  | inl known ↦ rw known (notify-Stays i m id _)
  | inr unknown ↦ rw unknown (notify-Stays i m id _)
]

pub begin_close-Stays : (i : ℕ) (m : ConnectionManager) (id : ℕ) → Stays i m (begin_close m id)
unfolding begin_close mark_closing
begin_close-Stays i m id = set_context-Stays i m id _ refl refl

-- Authentication changes the context that it authenticates, and no other.
pub resume-Stays :
    (i : ℕ) (m : ConnectionManager) (id : ℕ) (e : InboundEnvelope)
    (answer : Option AuthenticatedIdentity)
    → i ≢ id
    → Stays i m (resume m id e answer).0
unfolding resume finish_authentication bind_identity authenticate
resume-Stays i m id e none other = respond-Stays i m id _
resume-Stays i m id e (some identity) other =
    Stays-trans i m (finish_authentication m id e (some identity)).0 _
      (record {
        limits = refl;
        connections = refl;
        authenticated = ap (λ c. c.authenticated) (write_ne m.heap id i _ other);
        maxsize = λ j.
            write-maxsize m.heap id
              (authenticate (m.heap id) identity.user_id identity.username identity.session_id) j
              refl;
      })
      (respond-Stays i _ id _)
