-- ===== src/Websocket/Loop/Isolation.antt =====
-- What a connection that is not authenticated can change, and what its authentication can.
use encrypt_chat_app.Base.{
  All-any, Bool-cases, Dict, List, Option, Text, [], ap, arith, false, if◌then◌else◌, inl, inr,
  none, refl, some, text_eq, true, ℕ, ◌||◌, ◌∙◌, ◌≡◌, ◌≢◌,
}
use encrypt_chat_app.Websocket.Authentication.{AuthenticatedIdentity, finish_authentication}
use encrypt_chat_app.Websocket.Context.{routing_identity}
use encrypt_chat_app.Websocket.Manager.{ids_of, bind_identity, index_add, index_discard}
use encrypt_chat_app.Websocket.Queue.Contents.{contents, drain-contents}
use encrypt_chat_app.Websocket.Loop.{
  resume, set_context, notify, respond, dispatch, touched, counted, on_frame,
}
use encrypt_chat_app.Websocket.Loop.Cases.{dispatch-cases, on_frame-cases}
use encrypt_chat_app.Websocket.Loop.Responses.{respond-keeps, write_ne}
use encrypt_chat_app.Websocket.Manager.{ConnectionManager}
use encrypt_chat_app.Websocket.Manager.Index.{ids_of-index_add, ids_of-index_discard}
use encrypt_chat_app.Websocket.Messages.{OutboundMessage}
use encrypt_chat_app.Websocket.Protocol.{
  is_privileged, is_unauthenticated_sendable, MessageType, auth_authenticate, heartbeat_ping,
}
use encrypt_chat_app.Websocket.Schemas.{Parsers, InboundEnvelope}
use encrypt_chat_app.Websocket.Validation.Gate.{IsAccepted}
use encrypt_chat_app.Websocket.Context.{touch, ConnectionContext}

-- The manager differs at most in the context `id`.
pub record Untouched (id : ℕ) (m m' : ConnectionManager) : Type 0 where
  pub others : (i : ℕ) → i ≢ id → m'.heap i ≡ m.heap i
  pub connections : m'.connections ≡ m.connections
  pub by_client : m'.by_client ≡ m.by_client
  pub offline_queue : m'.offline_queue ≡ m.offline_queue

Untouched-refl : (id : ℕ) (m : ConnectionManager) → Untouched id m m
Untouched-refl id m = record {
  others = λ i other. refl;
  connections = refl;
  by_client = refl;
  offline_queue = refl;
}

Untouched-trans :
    (id : ℕ) (m₁ m₂ m₃ : ConnectionManager)
    → Untouched id m₁ m₂
    → Untouched id m₂ m₃
    → Untouched id m₁ m₃
Untouched-trans id m₁ m₂ m₃ s t = record {
  others = λ i other. t.others i other ∙ s.others i other;
  connections = t.connections ∙ s.connections;
  by_client = t.by_client ∙ s.by_client;
  offline_queue = t.offline_queue ∙ s.offline_queue;
}

set_context-Untouched :
    (id : ℕ) (m : ConnectionManager) (c : ConnectionContext) → Untouched id m (set_context m id c)
set_context-Untouched id m c = record {
  others = λ i other. write_ne m.heap id i c other;
  connections = refl;
  by_client = refl;
  offline_queue = refl;
}

notify-Untouched :
    (id : ℕ) (m : ConnectionManager) (r : OutboundMessage) → Untouched id m (notify m id r)
unfolding notify
notify-Untouched id m r = set_context-Untouched id m _

respond-Untouched :
    (id : ℕ) (m : ConnectionManager) (responses : List OutboundMessage)
    → Untouched id m (respond m id responses).0
respond-Untouched id m responses =
    respond-keeps (Untouched id m) (λ _. Unit {0}) id
      (λ m' r _ s. Untouched-trans id m m' (notify m' id r) s (notify-Untouched id m' r)) m
      responses (All-any responses) (Untouched-refl id m)

private_type : (t : MessageType) → is_unauthenticated_sendable t ≡ true → is_privileged t ≡ false
private_type auth_authenticate h = refl
private_type heartbeat_ping h = refl
private_type _ h = cc

dispatch-Untouched :
    (m : ConnectionManager) (id server_time : ℕ) (e : InboundEnvelope)
    → is_unauthenticated_sendable e.type ≡ true
    → Untouched id m (dispatch m id server_time e).0
dispatch-Untouched m id server_time e exempt =
    dispatch-cases (λ r. Untouched id m r.0) m id server_time e
      (λ responses h. respond-Untouched id m responses) (λ token h. Untouched-refl id m)
      (respond-Untouched id m _) (λ h. absurd (ground (arith, h, private_type e.type exempt)))
      (respond-Untouched id m _)

pub on_frame-Untouched :
    (p : Parsers) (m : ConnectionManager) (id : ℕ) (raw_text : Text) (now server_time : ℕ)
    → (m.heap id).authenticated ≡ false
    → Untouched id m (on_frame p m id raw_text now server_time).0
on_frame-Untouched p m id raw_text now server_time unknown =
    on_frame-cases p (λ r. Untouched id m r.0) m id raw_text now server_time
      (Untouched-trans id m m₁ _ s₁ (notify-Untouched id m₁ _))
      (Untouched-trans id m m₂ _ s₂ (notify-Untouched id m₂ _)) s₂
      (λ code message_id. Untouched-trans id m m₂ _ s₂ (respond-Untouched id m₂ _))
      (λ e h. Untouched-trans id m m₂ _ s₂ (dispatch-Untouched m₂ id server_time e (exempt e h)))
  where
    m₁ : ConnectionManager
    m₁ = touched m id now

    m₂ : ConnectionManager
    m₂ = counted m₁ id now

    s₁ : Untouched id m m₁
    s₁ = set_context-Untouched id m _

    s₂ : Untouched id m m₂
    s₂ = Untouched-trans id m m₁ m₂ s₁ (set_context-Untouched id m₁ _)

    still : (m₂.heap id).authenticated ≡ false
    still = unfold touch in ground arith

    exempt :
        (e : InboundEnvelope)
        → IsAccepted p (m₂.heap id) e
        → is_unauthenticated_sendable e.type ≡ true
    exempt e h = ground (arith, h.gate, still)

-- The manager differs at most in the context `id`, its keys of the index and its account's queue.
pub record Confined (id : ℕ) (username : Text) (m m' : ConnectionManager) : Type 0 where
  pub others : (i : ℕ) → i ≢ id → m'.heap i ≡ m.heap i
  pub connections : m'.connections ≡ m.connections
  pub keys :
      (key : Text)
      → (if text_eq username key || text_eq (routing_identity (m.heap id)) key
          then []
          else ids_of key m'.by_client)
        ≡ (if text_eq username key || text_eq (routing_identity (m.heap id)) key
            then []
            else ids_of key m.by_client)
  pub queues :
      (name : Text)
      → contents m'.offline_queue name
        ≡ (if text_eq username name then [] else contents m.offline_queue name)

-- What the rest of the round may change, by the answer of the authentication service.
abbrev pub AfterAnswer :
    ℕ → Option AuthenticatedIdentity → ConnectionManager → ConnectionManager → Type 0
AfterAnswer id none m m' = Untouched id m m'
AfterAnswer id (some identity) m m' = Confined id identity.username m m'

other_key :
    (by_client : Dict (List ℕ)) (id : ℕ) (username previous key : Text)
    → text_eq username key ≡ false
    → text_eq previous key ≡ false
    → ids_of key (index_add username id (index_discard previous id by_client))
      ≡ ids_of key by_client
other_key by_client id username previous key apart fresh =
    ids_of-index_add username key id (index_discard previous id by_client)
    ∙ rw apart (ids_of-index_discard previous key id by_client ∙ rw fresh refl)

resume-AfterAnswer :
    (m : ConnectionManager) (id : ℕ) (e : InboundEnvelope) (answer : Option AuthenticatedIdentity)
    → AfterAnswer id answer m (resume m id e answer).0
unfolding resume finish_authentication bind_identity
resume-AfterAnswer m id e none = respond-Untouched id m _
resume-AfterAnswer m id e (some identity) =
    let bound = (finish_authentication m id e (some identity)).0 in
    let answers = (finish_authentication m id e (some identity)).1 in
    let told = respond-Untouched id bound answers in
    record {
      others = λ i other. told.others i other ∙ write_ne m.heap id i _ other;
      connections = told.connections;
      keys = λ key.
          let same = ap (ids_of key) told.by_client in
          elim (Bool-cases (text_eq identity.username key)) [
            | inl own ↦ rw own refl
            | inr apart ↦ elim (Bool-cases (text_eq (routing_identity (m.heap id)) key)) [
              | inl old ↦ rw (apart, old) refl
              | inr fresh ↦
                  rw (apart, fresh)
                    (same
                      ∙ other_key m.by_client id identity.username (routing_identity (m.heap id))
                          key apart fresh)
            ]
          ];
      queues = λ name.
          ap (λ q. contents q name) told.offline_queue
          ∙ (drain-contents m.offline_queue identity.username name).1;
    }

-- A frame that a connection sends before it is authenticated changes, until its answers or the await of
-- `auth.authenticate`, no other connection's context, nor the registry, its index or the offline queue,
-- whatever the frame is. In the rest of the round after that await, whatever the other coroutines have
-- done meanwhile, a failed authentication changes none of these either, and a successful one no other
-- context and no registration, and in the index and the offline queue nothing but the connection's
-- former key, the account's key and the account's queue, which is emptied.
pub round-isolated :
    (p : Parsers) (m later : ConnectionManager) (id : ℕ) (raw_text : Text) (now server_time : ℕ)
    (e : InboundEnvelope) (answer : Option AuthenticatedIdentity)
    → (m.heap id).authenticated ≡ false
    → Untouched id m (on_frame p m id raw_text now server_time).0
      × AfterAnswer id answer later (resume later id e answer).0
round-isolated p m later id raw_text now server_time e answer unknown = (
  on_frame-Untouched p m id raw_text now server_time unknown,
  resume-AfterAnswer later id e answer,
)
