-- ===== src/Websocket/Server/Sound.antt =====
-- The invariant of the manager while the server runs: identities come from the authentication
-- service, mail stands where it is addressed to, under a sender whom the service vouched for, and
-- every bound holds.
use encrypt_chat_app.Base.{
  ==_iff, All, All-append, Bool-cases, List, Text, [], ap, arith, false, if◌then◌else◌, inl, inr,
  length, length-append, lookup, none, refl, some, true, ℕ, ◌<◌, ◌==◌, ◌∙◌, ◌∷◌, ◌≡◌, ◌≤◌, ◌⊎◌,
}
use encrypt_chat_app.Websocket.Authentication.{AuthenticatedIdentity}
use encrypt_chat_app.Websocket.Context.{
  append_outbound, is_full, ConnectionContext, routing_identity, enqueue_outbound,
}
use encrypt_chat_app.Websocket.Loop.{set_context, notify, respond}
use encrypt_chat_app.Websocket.Context.Outbound.{
  enqueue_outbound-cases, enqueue_outbound-identity, below_maxsize,
}
use encrypt_chat_app.Websocket.Loop.Responses.{respond-keeps, notify-identity}
use encrypt_chat_app.Websocket.Limits.{TransportLimits}
use encrypt_chat_app.Websocket.Manager.{ConnectionManager, Heap, write}
use encrypt_chat_app.Websocket.Manager
use encrypt_chat_app.Websocket.Manager.Registry.{IsRegistry, init-IsRegistry, keep-IsRegistry}
use encrypt_chat_app.Websocket.Messages.{OutboundMessage}
use encrypt_chat_app.Websocket.Queue
use encrypt_chat_app.Websocket.Queue.Bounds.{IsBounded, init-IsBounded}
use encrypt_chat_app.Websocket.Queue.Contents.{contents}

module _ (Resolves : Text → AuthenticatedIdentity → Type 0) where
  -- The service resolved some token to an account of this name.
  abbrev pub IsVouched : Text → Type 0
  IsVouched name =
      (token : Text) × (identity : AuthenticatedIdentity) × Resolves token identity
      × (identity.username ≡ name)

  -- A receipt on the way to a connection with this routing identity and this provisional one.
  abbrev pub IsMail : Text → Text → OutboundMessage → Type 0
  IsMail me provisional (OutboundMessage.receipt r) =
      IsVouched r.sender × ((r.recipient ≡ me) ⊎ (r.recipient ≡ provisional))
  IsMail me provisional _ = Unit

  -- An offline queue holds receipts for its own recipient alone.
  abbrev pub IsQueued : Text → OutboundMessage → Type 0
  IsQueued name (OutboundMessage.receipt r) = IsVouched r.sender × (r.recipient ≡ name)
  IsQueued name _ = ⊥

  -- The identity of a context is none, or one that the service resolved a token to.
  pub data IsIdentified (c : ConnectionContext) : Type 0 where
    anonymous : c.authenticated ≡ false → c.account_username ≡ none → IsIdentified c
    identified :
        (token : Text) (identity : AuthenticatedIdentity)
        → Resolves token identity
        → c.authenticated ≡ true
        → c.user_id ≡ some identity.user_id
        → c.account_username ≡ some identity.username
        → c.session_id ≡ some identity.session_id
        → IsIdentified c

  pub record IsSoundContext (c : ConnectionContext) : Type 0 where
    pub identity : IsIdentified c
    pub mail : All (IsMail (routing_identity c) c.transport_client_id) c.outbound.items
    pub room : 0 < c.outbound.maxsize → length c.outbound.items ≤ c.outbound.maxsize

  pub record IsSound (m : ConnectionManager) : Type 0 where
    pub registry : IsRegistry m
    pub contexts : (i : ℕ) → IsSoundContext (m.heap i)
    pub queued : (name : Text) → All (IsQueued name) (contents m.offline_queue name)
    pub bounded : IsBounded m.offline_queue

  pub init-IsSound : (limits : TransportLimits) → IsSound (Manager.init limits)
  unfolding Manager.init Queue.init contents lookup
  init-IsSound limits = record {
    registry = init-IsRegistry limits;
    contexts = λ i. record { identity = anonymous refl refl; mail = tt; room = λ h. omega arith };
    queued = λ name. tt;
    bounded = init-IsBounded _ _;
  }

  -- The contexts may be written back if their routing identities stay.
  pub heap-IsSound :
      (m : ConnectionManager) (heap : Heap)
      → ((i : ℕ) → routing_identity (heap i) ≡ routing_identity (m.heap i))
      → ((i : ℕ) → IsSoundContext (heap i))
      → IsSound m
      → IsSound (record m { heap = heap })
  heap-IsSound m heap same sound s = record {
    registry = keep-IsRegistry m heap same s.registry;
    contexts = sound;
    queued = s.queued;
    bounded = s.bounded;
  }

  pub set_context-IsSound :
      (m : ConnectionManager) (id : ℕ) (c : ConnectionContext)
      → routing_identity c ≡ routing_identity (m.heap id)
      → IsSoundContext c
      → IsSound m
      → IsSound (set_context m id c)
  set_context-IsSound m id c same sc s = heap-IsSound m (write m.heap id c) still sound s
    where
      still : (i : ℕ) → routing_identity (write m.heap id c i) ≡ routing_identity (m.heap i)
      still i = elim (Bool-cases (id == i)) [
        | inl e ↦ rw e (same ∙ ap (λ j. routing_identity (m.heap j)) ((==_iff id i).0 e))
        | inr e ↦ rw e refl
      ]

      sound : (i : ℕ) → IsSoundContext (write m.heap id c i)
      sound i = elim (id == i) as (λ b. IsSoundContext (if b then c else m.heap i)) [
        | true ↦ sc
        | false ↦ s.contexts i
      ]

  -- Only the identity's fields matter to where it comes from.
  pub same_identity :
      (c c' : ConnectionContext)
      → c'.authenticated ≡ c.authenticated
      → c'.user_id ≡ c.user_id
      → c'.account_username ≡ c.account_username
      → c'.session_id ≡ c.session_id
      → IsIdentified c
      → IsIdentified c'
  same_identity c c' a u n t (anonymous h k) = anonymous (a ∙ h) (n ∙ k)
  same_identity c c' a u n t (identified token identity r b h k l) =
      identified token identity r (a ∙ b) (u ∙ h) (n ∙ k) (t ∙ l)

  append_outbound-IsSoundContext :
      (c : ConnectionContext) (message : OutboundMessage)
      → IsMail (routing_identity c) c.transport_client_id message
      → is_full c.outbound ≡ false
      → IsSoundContext c
      → IsSoundContext (append_outbound c message)
  append_outbound-IsSoundContext c message h free s = record {
    identity = same_identity c (append_outbound c message) refl refl refl refl s.identity;
    mail = All-append _ c.outbound.items (message ∷ []) s.mail (h, tt);
    room = λ pos.
        omega
          (arith, length-append c.outbound.items (message ∷ []), below_maxsize c.outbound free pos);
  }

  pub enqueue_outbound-IsSoundContext :
      (c : ConnectionContext) (message : OutboundMessage)
      → IsMail (routing_identity c) c.transport_client_id message
      → IsSoundContext c
      → IsSoundContext (enqueue_outbound c message).0
  enqueue_outbound-IsSoundContext c message h s =
      enqueue_outbound-cases (λ d _. IsSoundContext d) c message s
        (λ _ free. append_outbound-IsSoundContext c message h free s)

  pub notify-IsSound :
      (m : ConnectionManager) (id : ℕ) (message : OutboundMessage)
      → IsMail (routing_identity (m.heap id)) (m.heap id).transport_client_id message
      → IsSound m
      → IsSound (notify m id message)
  unfolding notify
  notify-IsSound m id message h s =
      set_context-IsSound m id _ (enqueue_outbound-identity (m.heap id) message).0
        (enqueue_outbound-IsSoundContext (m.heap id) message h (s.contexts id)) s

  -- The manager is sound, and the connection has these names.
  abbrev Answers : ℕ → Text → Text → ConnectionManager → Type 0
  Answers id me provisional m =
      IsSound m
      × (routing_identity (m.heap id) ≡ me)
      × ((m.heap id).transport_client_id ≡ provisional)

  notify-Answers :
      (id : ℕ) (me provisional : Text) (m : ConnectionManager) (r : OutboundMessage)
      → IsMail me provisional r
      → Answers id me provisional m
      → Answers id me provisional (notify m id r)
  notify-Answers id me provisional m r h (s, e, f) = (
    notify-IsSound m id r (rw (e, f) h) s,
    (notify-identity m id r).0 ∙ e,
    (notify-identity m id r).1 ∙ f,
  )

  pub respond-IsSound :
      (m : ConnectionManager) (id : ℕ) (responses : List OutboundMessage)
      → All (IsMail (routing_identity (m.heap id)) (m.heap id).transport_client_id) responses
      → IsSound m
      → IsSound (respond m id responses).0
  respond-IsSound m id responses h s =
      (respond-keeps (Answers id me provisional) (IsMail me provisional) id
        (notify-Answers id me provisional) m responses h (s, refl, refl)).0
    where
      me : Text
      me = routing_identity (m.heap id)

      provisional : Text
      provisional = (m.heap id).transport_client_id
