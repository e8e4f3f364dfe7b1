-- ===== src/Websocket/Server/Waiting.antt =====
-- What waits for a name stays until a connection authenticates as it: the steps of the server only add.
use encrypt_chat_app.Base.{
  All-any, Bool-cases, List, Option, Text, [], ap, arith, contains, inl, inr, none, refl, some, sym,
  text_eq, text_eq_iff, ℕ, ◌++◌, ◌∙◌, ◌∷◌, ◌≡◌, ◌≢◌,
}
use mathlib.Core.List.{append-nil, append_assoc}
use encrypt_chat_app.Websocket.Authentication.{AuthenticatedIdentity, finish_authentication}
use encrypt_chat_app.Websocket.Lifecycle.{greet, begin_close, end_close, write_next}
use encrypt_chat_app.Websocket.Loop.{
  Next, receive, escape, close, resolve, touched, counted, notify, respond, dispatch, on_frame,
  on_timeout, resume,
}
use encrypt_chat_app.Websocket.Loop.Cases.{dispatch-cases, on_frame-cases}
use encrypt_chat_app.Websocket.Loop.Responses.{respond-keeps}
use encrypt_chat_app.Websocket.Manager.{
  ConnectionManager, bind_identity, deliver_to_client, unregister,
}
use encrypt_chat_app.Websocket.Messages.{OutboundMessage}
use encrypt_chat_app.Websocket.Queue
use encrypt_chat_app.Websocket.Queue.Contents.{contents, drain-contents, enqueue-contents}
use encrypt_chat_app.Websocket.Routing.{handle_message_send, handle_privileged, receipt_of}
use encrypt_chat_app.Websocket.Routing.Cases.{
  route_message-cases, handle_message_send-cases, handle_privileged-cases,
}
use encrypt_chat_app.Websocket.Schemas.{Parsers, InboundEnvelope}
use encrypt_chat_app.Websocket.Server.{
  Server, IsAnswer, after_round, Step, connects, accepts, accept_fails, receives, resolves,
  times_out, disconnects, fails, writes, finishes, Reach, here, next,
}
use encrypt_chat_app.Websocket.Server.Closing.{open_connection_inv}

module _ (name : Text) where
  -- What waits in `m'` for the name is what waited in `m`, and perhaps more behind it.
  abbrev pub Grows : ConnectionManager → ConnectionManager → Type 0
  Grows m m' =
      (extra : List OutboundMessage) × (contents m'.offline_queue name
        ≡ contents m.offline_queue name ++ extra)

  Grows-same : (m m' : ConnectionManager) → m'.offline_queue ≡ m.offline_queue → Grows m m'
  Grows-same m m' h =
      ([], ap (λ q. contents q name) h ∙ sym (append-nil (contents m.offline_queue name)))

  Grows-trans : (m₁ m₂ m₃ : ConnectionManager) → Grows m₁ m₂ → Grows m₂ m₃ → Grows m₁ m₃
  Grows-trans m₁ m₂ m₃ (a, h) (b, k) =
      (a ++ b, k ∙ ap (λ l. l ++ b) h ∙ append_assoc (contents m₁.offline_queue name) a b)

  notify-offline :
      (m : ConnectionManager) (id : ℕ) (r : OutboundMessage)
      → (notify m id r).offline_queue ≡ m.offline_queue
  unfolding notify
  notify-offline m id r = refl

  pub respond-offline :
      (m : ConnectionManager) (id : ℕ) (responses : List OutboundMessage)
      → (respond m id responses).0.offline_queue ≡ m.offline_queue
  respond-offline m id responses =
      respond-keeps (λ a. a.offline_queue ≡ m.offline_queue) (λ _. Unit {0}) id
        (λ a r _ s. notify-offline a id r ∙ s) m responses (All-any responses) refl

  respond-Grows :
      (m a : ConnectionManager) (id : ℕ) (responses : List OutboundMessage)
      → Grows m a
      → Grows m (respond a id responses).0
  respond-Grows m a id responses g =
      Grows-trans m a (respond a id responses).0 g
        (Grows-same a (respond a id responses).0 (respond-offline a id responses))

  deliver_to_client-Grows :
      (m : ConnectionManager) (client : Text) (message : OutboundMessage)
      → Grows m (deliver_to_client m client message).0
  unfolding deliver_to_client
  deliver_to_client-Grows m client message =
      Grows-same m (deliver_to_client m client message).0 refl

  enqueue-Grows :
      (m : ConnectionManager) (recipient : Text) (item : OutboundMessage)
      → Grows m (record m { offline_queue = (Queue.enqueue m.offline_queue recipient item).0 })
  enqueue-Grows m recipient item =
      elim (Bool-cases (Queue.enqueue m.offline_queue recipient item).1) [
        | inr full ↦ (
          [],
          enqueue-contents m.offline_queue recipient name item
              ∙ rw full (sym (append-nil (contents m.offline_queue name))),
        )
        | inl done ↦ elim (Bool-cases (text_eq recipient name)) [
          | inl own ↦ (
            item ∷ [],
            enqueue-contents m.offline_queue recipient name item ∙ rw (done, own) refl,
          )
          | inr other ↦ (
            [],
            enqueue-contents m.offline_queue recipient name item
                ∙ rw (done, other) (sym (append-nil (contents m.offline_queue name))),
          )
        ]
      ]

  handle_message_send-Grows :
      (m : ConnectionManager) (id : ℕ) (e : InboundEnvelope)
      → Grows m (handle_message_send m id e).0
  handle_message_send-Grows m id e =
      handle_message_send-cases (λ h. Grows m h.0) m id e (Grows-same m m refl)
        (Grows-same m m refl)
        λ recipient.
          route_message-cases (Grows m) m id e recipient
            (deliver_to_client-Grows m recipient (receipt_of m id e recipient))
            (enqueue-Grows m recipient (receipt_of m id e recipient))

  handle_privileged-Grows :
      (m : ConnectionManager) (id : ℕ) (e : InboundEnvelope) → Grows m (handle_privileged m id e).0
  handle_privileged-Grows m id e =
      handle_privileged-cases (λ h. Grows m h.0) m id e (handle_message_send-Grows m id e)
        (Grows-same m m refl) (Grows-same m m refl)

  dispatch-Grows :
      (m : ConnectionManager) (id server_time : ℕ) (e : InboundEnvelope)
      → Grows m (dispatch m id server_time e).0
  dispatch-Grows m id server_time e =
      dispatch-cases (λ r. Grows m r.0) m id server_time e
        (λ responses k. respond-Grows m m id responses (Grows-same m m refl))
        (λ token k. Grows-same m m refl) (respond-Grows m m id _ (Grows-same m m refl))
        (λ k.
          respond-Grows m (handle_privileged m id e).0 id (handle_privileged m id e).1
            (handle_privileged-Grows m id e))
        (respond-Grows m m id _ (Grows-same m m refl))

  on_frame-Grows :
      (p : Parsers) (m : ConnectionManager) (id : ℕ) (raw_text : Text) (now server_time : ℕ)
      → Grows m (on_frame p m id raw_text now server_time).0
  on_frame-Grows p m id raw_text now server_time =
      on_frame-cases p (λ r. Grows m r.0) m id raw_text now server_time (Grows-notify m₁ _)
        (Grows-notify m₂ _) (Grows-same m m₂ refl)
        (λ code message_id. respond-Grows m m₂ id _ (Grows-same m m₂ refl))
        (λ e h.
          Grows-trans m m₂ (dispatch m₂ id server_time e).0 (Grows-same m m₂ refl)
            (dispatch-Grows m₂ id server_time e))
    where
      m₁ : ConnectionManager
      m₁ = touched m id now

      m₂ : ConnectionManager
      m₂ = counted m₁ id now

      Grows-notify : (a : ConnectionManager) (r : OutboundMessage) → Grows a (notify a id r)
      Grows-notify a r = Grows-same a (notify a id r) (notify-offline a id r)

  -- Another account's authentication drains another queue.
  resume-Grows :
      (m : ConnectionManager) (id : ℕ) (e : InboundEnvelope) (identity : AuthenticatedIdentity)
      → identity.username ≢ name
      → Grows m (resume m id e (some identity)).0
  unfolding resume finish_authentication bind_identity
  resume-Grows m id e identity other =
      respond-Grows m (finish_authentication m id e (some identity)).0 id _ (
        [],
        (drain-contents m.offline_queue identity.username name).1
            ∙ (elim (Bool-cases (text_eq identity.username name)) [
              | inl same ↦ absurd (other ((text_eq_iff identity.username name).0 same))
              | inr apart ↦ rw apart (sym (append-nil (contents m.offline_queue name)))
            ]),
      )

  failed-Grows :
      (m : ConnectionManager) (id : ℕ) (e : InboundEnvelope) → Grows m (resume m id e none).0
  unfolding resume finish_authentication
  failed-Grows m id e = respond-Grows m m id _ (Grows-same m m refl)

  begin_close-offline :
      (m : ConnectionManager) (id : ℕ) → (begin_close m id).offline_queue ≡ m.offline_queue
  unfolding begin_close
  begin_close-offline m id = refl

  end_close-offline :
      (m : ConnectionManager) (id : ℕ) → (end_close m id).offline_queue ≡ m.offline_queue
  unfolding end_close unregister
  end_close-offline m id = elim (Bool-cases (contains id m.connections)) [
    | inl e ↦ rw (end_close, unregister, e) refl
    | inr e ↦ rw (end_close, unregister, e) refl
  ]

  write_next-offline :
      (m : ConnectionManager) (id : ℕ) → (write_next m id).0.offline_queue ≡ m.offline_queue
  unfolding write_next
  write_next-offline m id = ground arith

  on_timeout-offline :
      (m : ConnectionManager) (id : ℕ) → (on_timeout m id).0.offline_queue ≡ m.offline_queue
  unfolding on_timeout notify
  on_timeout-offline m id = ground arith

  greet-offline : (m : ConnectionManager) (id : ℕ) → (greet m id).offline_queue ≡ m.offline_queue
  unfolding greet
  greet-offline m id = notify-offline m id _

  pub after_round-offline :
      (s : Server) (id : ℕ) (m : ConnectionManager) (n : Next)
      → (after_round s id m n).manager.offline_queue ≡ m.offline_queue
  after_round-offline s id m receive = refl
  after_round-offline s id m escape = begin_close-offline m id
  after_round-offline s id m (close code) = begin_close-offline m id
  after_round-offline s id m (resolve e token) = refl

  round-Grows :
      (s : Server) (id : ℕ) (m : ConnectionManager) (n : Next)
      → Grows s.manager m
      → Grows s.manager (after_round s id m n).manager
  round-Grows s id m n g =
      Grows-trans s.manager m (after_round s id m n).manager g
        (Grows-same m (after_round s id m n).manager (after_round-offline s id m n))

  module _ (p : Parsers) (Resolves : Text → AuthenticatedIdentity → Type 0) where
    -- The answers of the authentication service other than to this name.
    abbrev pub ResolvesOther : Text → AuthenticatedIdentity → Type 0
    ResolvesOther token identity = Resolves token identity × (identity.username ≢ name)

    answered-Grows :
        (m : ConnectionManager) (id : ℕ) (e : InboundEnvelope) (token : Text)
        (answer : Option AuthenticatedIdentity)
        → IsAnswer p ResolvesOther token answer
        → Grows m (resume m id e answer).0
    answered-Grows m id e token none is_answer = failed-Grows m id e
    answered-Grows m id e token (some identity) (resolved, other) =
        resume-Grows m id e identity other

    Step-Grows : (s t : Server) → Step p ResolvesOther s t → Grows s.manager t.manager
    Step-Grows s t (connects id hex origin host now at m fresh is_open e) =
        let (_, _, admitted) = open_connection_inv s.manager m id hex origin host now at is_open in
        rw e (Grows-same s.manager m (ap (λ a. a.offline_queue) admitted))
    Step-Grows s t (accepts id stands e) =
        rw e (Grows-same s.manager (greet s.manager id) (greet-offline s.manager id))
    Step-Grows s t (accept_fails id stands e) = rw e (Grows-same s.manager s.manager refl)
    Step-Grows s t (receives id raw_text now server_time stands e) =
        let r = on_frame p s.manager id raw_text now server_time in
        rw e (round-Grows s id r.0 r.1 (on_frame-Grows p s.manager id raw_text now server_time))
    Step-Grows s t (resolves id envelope token answer stands is_answer e) =
        let r = resume s.manager id envelope answer in
        rw e
          (round-Grows s id r.0 r.1 (answered-Grows s.manager id envelope token answer is_answer))
    Step-Grows s t (times_out id stands e) =
        let m = (on_timeout s.manager id).0 in
        rw e (
          Grows-same s.manager (begin_close m id)
            (begin_close-offline m id ∙ on_timeout-offline s.manager id))
    Step-Grows s t (disconnects id stands e) =
        rw e (Grows-same s.manager (begin_close s.manager id) (begin_close-offline s.manager id))
    Step-Grows s t (fails id envelope token stands e) =
        rw e (Grows-same s.manager (begin_close s.manager id) (begin_close-offline s.manager id))
    Step-Grows s t (writes id e) =
        rw e (Grows-same s.manager (write_next s.manager id).0 (write_next-offline s.manager id))
    Step-Grows s t (finishes id code stands e) =
        rw e (Grows-same s.manager (end_close s.manager id) (end_close-offline s.manager id))

    pub Reach-Grows : (s t : Server) → Reach p ResolvesOther s t → Grows s.manager t.manager
    Reach-Grows s t here = Grows-same s.manager s.manager refl
    Reach-Grows s t (next {t = u} r step) =
        Grows-trans s.manager u.manager t.manager (Reach-Grows s u r) (Step-Grows u t step)
