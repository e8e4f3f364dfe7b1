-- ===== src/Websocket/Server/Closing.antt =====
-- Opening, closing and writing keep the invariant.
use encrypt_chat_app.Base.{
  All, Bool, Bool-cases, List, Option, Text, [], ap, arith, contains, discard, false, if◌then◌else◌,
  inl, inr, leb, leb_false→lt, length, none, refl, some, subst, true, ℕ, ◌<◌, ◌==◌, ◌∷◌, ◌≡◌,
}
use encrypt_chat_app.Websocket.Authentication.{AuthenticatedIdentity}
use encrypt_chat_app.Websocket.Context.{ConnectionContext, mark_closing, routing_identity}
use encrypt_chat_app.Websocket.Errors.{CloseCode}
use encrypt_chat_app.Websocket.Lifecycle.{
  denied, opened, provisional_id, greet, admission, open_connection, begin_close, end_close,
  write_next,
}
use encrypt_chat_app.Websocket.Limits.{is_origin_allowed}
use encrypt_chat_app.Websocket.Loop.{set_context}
use encrypt_chat_app.Websocket.Manager.{
  ConnectionManager, Registration, registered, refused, per_client_limit, ConnectionRejected,
  ids_of, index_discard, new_context, admit, register, unregister, write,
}
use encrypt_chat_app.Websocket.Manager.Registry.{admit-IsRegistry, unregister-IsRegistry}
use encrypt_chat_app.Websocket.Messages.{OutboundMessage}
use encrypt_chat_app.Websocket.Server.Sound.{
  IsSoundContext, IsSound, IsMail, IsQueued, anonymous, same_identity, set_context-IsSound,
  notify-IsSound,
}
use encrypt_chat_app.Websocket.Queue.Bounds.{IsBounded}
use encrypt_chat_app.Websocket.Queue.Contents.{contents}

-- `register` succeeds only under the limit, and then it admits the connection.
register_inv :
    (m m' : ConnectionManager) (id : ℕ) (client : Text) (host : Option Text) (now at : ℕ)
    → register m id client host now at ≡ registered m'
    → (length m.connections < m.limits.max_total_connections) × (m' ≡ admit m id client host now at)
unfolding register
register_inv m m' id client host now at h =
    elim (Bool-cases (leb m.limits.max_total_connections (length m.connections))) [
      | inl full ↦ absurd (refused_registered (rw full at h))
      | inr room ↦ (
        leb_false→lt _ _ room,
        admitted (leb m.limits.max_connections_per_client (length (ids_of client m.by_client)))
            (rw room at h),
      )
    ]
  where
    refused_registered :
        {reason : ConnectionRejected} {a : ConnectionManager} → refused reason ≡ registered a → ⊥
    refused_registered h = cc

    admitted :
        (b : Bool)
        → (if b then refused per_client_limit else registered (admit m id client host now at))
          ≡ registered m'
        → m' ≡ admit m id client host now at
    admitted true h = cc
    admitted false h = cc

admission_inv :
    (m' : ConnectionManager) (r : Registration) → admission r ≡ opened m' → r ≡ registered m'
admission_inv m' (registered a) h = cc
admission_inv m' (refused reason) h = cc

-- A connection is opened only for an allowed origin and below the limit of connections, and then it
-- is registered under its provisional identifier, before it is accepted.
pub open_connection_inv :
    (m m' : ConnectionManager) (id : ℕ) (hex : Text) (origin host : Option Text) (now at : ℕ)
    → open_connection m id hex origin host now at ≡ opened m'
    → (is_origin_allowed m.limits origin ≡ true)
      × (length m.connections < m.limits.max_total_connections)
      × (m' ≡ admit m id (provisional_id hex) host now at)
unfolding open_connection
open_connection_inv m m' id hex origin host now at h =
    elim (Bool-cases (is_origin_allowed m.limits origin)) [
      | inr foreign ↦ absurd (denied_opened (rw foreign at h))
      | inl allowed ↦
          let (room, admitted) =
            register_inv m m' id (provisional_id hex) host now at
              (admission_inv m' _ (rw allowed at h)) in
          (allowed, room, admitted)
    ]
  where
    denied_opened : {code : CloseCode} {a : ConnectionManager} → denied code ≡ opened a → ⊥
    denied_opened h = cc

module _ (Resolves : Text → AuthenticatedIdentity → Type 0) where
  admit-IsSound :
      (m : ConnectionManager) (id : ℕ) (client : Text) (host : Option Text) (now at : ℕ)
      → contains id m.connections ≡ false
      → length m.connections < m.limits.max_total_connections
      → IsSound Resolves m
      → IsSound Resolves (admit m id client host now at)
  unfolding new_context
  admit-IsSound m id client host now at fresh room s = record {
    registry = admit-IsRegistry m id client host now at fresh room s.registry;
    contexts = λ i.
        elim (id == i)
          as (λ b.
            IsSoundContext Resolves
              (if b then new_context m.limits id client host now at else m.heap i)) [
                | true ↦ record {
                  identity = anonymous refl refl;
                  mail = tt;
                  room = λ h. omega arith;
                }
                | false ↦ s.contexts i
              ];
    queued = s.queued;
    bounded = s.bounded;
  }

  pub open_connection-IsSound :
      (m m' : ConnectionManager) (id : ℕ) (hex : Text) (origin host : Option Text) (now at : ℕ)
      → open_connection m id hex origin host now at ≡ opened m'
      → contains id m.connections ≡ false
      → IsSound Resolves m
      → IsSound Resolves m'
  open_connection-IsSound m m' id hex origin host now at h fresh s =
      let (_, room, e) = open_connection_inv m m' id hex origin host now at h in
      rw e (admit-IsSound m id (provisional_id hex) host now at fresh room s)

  pub greet-IsSound :
      (m : ConnectionManager) (id : ℕ) → IsSound Resolves m → IsSound Resolves (greet m id)
  unfolding greet
  greet-IsSound m id s = notify-IsSound Resolves m id _ tt s

  closing-IsSoundContext :
      (c : ConnectionContext) → IsSoundContext Resolves c → IsSoundContext Resolves (mark_closing c)
  unfolding mark_closing
  closing-IsSoundContext c s = record {
    identity = same_identity Resolves c (mark_closing c) refl refl refl refl s.identity;
    mail = s.mail;
    room = s.room;
  }

  pub begin_close-IsSound :
      (m : ConnectionManager) (id : ℕ) → IsSound Resolves m → IsSound Resolves (begin_close m id)
  unfolding begin_close mark_closing
  begin_close-IsSound m id s =
      set_context-IsSound Resolves m id (mark_closing (m.heap id)) refl
        (closing-IsSoundContext (m.heap id) (s.contexts id)) s

  pub end_close-IsSound :
      (m : ConnectionManager) (id : ℕ) → IsSound Resolves m → IsSound Resolves (end_close m id)
  unfolding end_close
  end_close-IsSound m id s = record {
    registry = unregister-IsRegistry m id s.registry;
    contexts = λ i.
        unfold unregister in
        (elim (contains id m.connections) as (λ b. IsSoundContext Resolves ((gone b).heap i)) [
          | true ↦
              elim (id == i)
                as (λ b.
                  IsSoundContext Resolves (if b then mark_closing (m.heap id) else m.heap i)) [
                    | true ↦ closing-IsSoundContext (m.heap id) (s.contexts id)
                    | false ↦ s.contexts i
                  ]
          | false ↦ s.contexts i
        ]);
    queued = λ name.
        unfold unregister in
        (elim (contains id m.connections)
          as (λ b. All (IsQueued Resolves name) (contents (gone b).offline_queue name)) [
            | true ↦ s.queued name
            | false ↦ s.queued name
          ]);
    bounded =
        unfold unregister in
        (elim (contains id m.connections) as (λ b. IsBounded (gone b).offline_queue) [
          | true ↦ s.bounded
          | false ↦ s.bounded
        ]);
  }
    where
      gone : Bool → ConnectionManager
      gone b =
          (if b
            then (
              record m {
                heap = write m.heap id (mark_closing (m.heap id));
                connections = discard id m.connections;
                by_client = index_discard (routing_identity (m.heap id)) id m.by_client;
              },
              some id,
            )
            else (let r : ConnectionManager × Option ℕ = (m, none) in r)).0

  -- The context without its oldest message.
  abbrev written : ConnectionContext → List OutboundMessage → ConnectionContext
  written c rest = record c { outbound = record c.outbound { items = rest } }

  written-IsSoundContext :
      (c : ConnectionContext) (message : OutboundMessage) (rest : List OutboundMessage)
      → c.outbound.items ≡ message ∷ rest
      → IsSoundContext Resolves c
      → IsSoundContext Resolves (written c rest)
  written-IsSoundContext c message rest e s = record {
    identity = same_identity Resolves c (written c rest) refl refl refl refl s.identity;
    mail = (subst (All (IsMail Resolves (routing_identity c) c.transport_client_id)) e s.mail).1;
    room = λ pos. omega (arith, s.room pos, ap length e);
  }

  pub write_next-IsSound :
      (m : ConnectionManager) (id : ℕ) → IsSound Resolves m → IsSound Resolves (write_next m id).0
  unfolding write_next
  write_next-IsSound m id s = go (m.heap id).outbound.items refl
    where
      go :
          (items : List OutboundMessage)
          → (m.heap id).outbound.items ≡ items
          → let r : ConnectionManager × Option OutboundMessage = elim items [
            | [] ↦ (m, none)
            | message ∷ rest ↦ (set_context m id (written (m.heap id) rest), some message)
          ] in
            IsSound Resolves r.0
      go [] e = s
      go (message ∷ rest) e =
          set_context-IsSound Resolves m id (written (m.heap id) rest) refl
            (written-IsSoundContext (m.heap id) message rest e (s.contexts id)) s
