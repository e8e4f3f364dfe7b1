-- ===== src/Websocket/Server/Binding.antt =====
-- Authentication keeps the invariant: what `finish_authentication` binds, and the mail that it hands on.
use encrypt_chat_app.Base.{
  All, All-mono, Option, Text, [], contains, false, if◌then◌else◌, inl, inr, none, refl, some,
  text_eq, true, ℕ, ◌==◌, ◌≡◌,
}
use encrypt_chat_app.Websocket.Authentication.{AuthenticatedIdentity, finish_authentication}
use encrypt_chat_app.Websocket.Context.{ConnectionContext, routing_identity, authenticate}
use encrypt_chat_app.Websocket.Loop.{resume}
use encrypt_chat_app.Websocket.Manager.{ConnectionManager, bind_identity}
use encrypt_chat_app.Websocket.Loop.Responses.{write_self}
use encrypt_chat_app.Websocket.Manager.Registry.{bind_identity-IsRegistry}
use encrypt_chat_app.Websocket.Messages.{OutboundMessage}
use encrypt_chat_app.Websocket.Queue
use encrypt_chat_app.Websocket.Queue.Bounds.{drain-IsBounded}
use encrypt_chat_app.Websocket.Queue.Contents.{contents, drain-contents}
use encrypt_chat_app.Websocket.Schemas.{InboundEnvelope}
use encrypt_chat_app.Websocket.Server.Sound.{
  IsMail, IsQueued, IsIdentified, identified, anonymous, IsSoundContext, IsSound, respond-IsSound,
}

module _ (Resolves : Text → AuthenticatedIdentity → Type 0) where
  -- Before authentication the provisional identifier is the only name.
  anonymous-routing_identity :
      (c : ConnectionContext)
      → IsIdentified Resolves c
      → c.authenticated ≡ false
      → routing_identity c ≡ c.transport_client_id
  anonymous-routing_identity c (anonymous h k) e = rw (k, routing_identity) refl
  anonymous-routing_identity c (identified token identity r b h k l) e = cc

  still-IsMail :
      (me provisional : Text) (message : OutboundMessage)
      → IsMail Resolves provisional provisional message
      → IsMail Resolves me provisional message
  still-IsMail me provisional (OutboundMessage.receipt r) (v, inl h) = (v, inr h)
  still-IsMail me provisional (OutboundMessage.receipt r) (v, inr h) = (v, inr h)
  still-IsMail me provisional (OutboundMessage.auth_ready r) h = tt
  still-IsMail me provisional _ h = tt

  -- What waits for the account is mail for its connection.
  queued-IsMail :
      (me provisional : Text) (message : OutboundMessage)
      → IsQueued Resolves me message
      → IsMail Resolves me provisional message
  queued-IsMail me provisional (OutboundMessage.receipt r) (v, h) = (v, inl h)
  queued-IsMail me provisional (OutboundMessage.auth_ready r) h = tt
  queued-IsMail me provisional _ h = tt

  module _ (m : ConnectionManager) (id : ℕ) (token : Text) (identity : AuthenticatedIdentity)
      (resolved : Resolves token identity) (s : IsSound Resolves m)
      (live : contains id m.connections ≡ true) (unknown : (m.heap id).authenticated ≡ false) where
    abbrev known : ConnectionContext
    known = authenticate (m.heap id) identity.user_id identity.username identity.session_id

    known-IsSoundContext : IsSoundContext Resolves known
    unfolding authenticate
    known-IsSoundContext = record {
      identity = identified token identity resolved refl refl refl refl;
      mail =
          All-mono _ _ (m.heap id).outbound.items
            (still-IsMail identity.username (m.heap id).transport_client_id)
            (rw (anonymous-routing_identity (m.heap id) (s.contexts id).identity unknown) at
              (s.contexts id).mail);
      room = (s.contexts id).room;
    }

    abbrev bound : ConnectionManager
    bound = bind_identity m id identity.user_id identity.username identity.session_id

    bound-IsSound : IsSound Resolves bound
    unfolding bind_identity
    bound-IsSound = record {
      registry = bind_identity-IsRegistry m id _ _ _ live s.registry;
      contexts = λ i.
          elim (id == i) as (λ b. IsSoundContext Resolves (if b then known else m.heap i)) [
            | true ↦ known-IsSoundContext
            | false ↦ s.contexts i
          ];
      queued = s.queued;
      bounded = s.bounded;
    }

    abbrev drained : ConnectionManager
    drained = record bound { offline_queue = (Queue.drain bound.offline_queue identity.username).0 }

    drained-IsSound : IsSound Resolves drained
    drained-IsSound = record {
      registry = record {
        tidy = bound-IsSound.registry.tidy;
        distinct = bound-IsSound.registry.distinct;
        bounded = bound-IsSound.registry.bounded;
        indexed = bound-IsSound.registry.indexed;
      };
      contexts = bound-IsSound.contexts;
      queued = λ name.
          rw (drain-contents bound.offline_queue identity.username name).1
            (elim (text_eq identity.username name)
              as (λ b.
                All (IsQueued Resolves name)
                  (if b then [] else contents bound.offline_queue name)) [
                    | true ↦ tt
                    | false ↦ bound-IsSound.queued name
                  ]);
      bounded = drain-IsBounded bound.offline_queue identity.username bound-IsSound.bounded;
    }

    -- The connection is named after the account now, and what waited for the account follows.
    drained_waiting :
        All
          (IsMail Resolves
            (routing_identity (drained.heap id))
            (drained.heap id).transport_client_id)
          (Queue.drain bound.offline_queue identity.username).1
    drained_waiting =
        rw (drain-contents bound.offline_queue identity.username identity.username).0 (
          All-mono _ _ (contents bound.offline_queue identity.username)
            (λ message h. queued-IsMail _ _ message (rw named h))
            (bound-IsSound.queued identity.username))
      where
        named : routing_identity (drained.heap id) ≡ identity.username
        named = unfold bind_identity authenticate in rw (write_self m.heap id known) refl

  abbrev pub IsResolved : Text → Option AuthenticatedIdentity → Type 0
  IsResolved token none = Unit
  IsResolved token (some identity) = Resolves token identity

  pub resume-IsSound :
      (m : ConnectionManager) (id : ℕ) (e : InboundEnvelope) (token : Text)
      (answer : Option AuthenticatedIdentity)
      → IsResolved token answer
      → contains id m.connections ≡ true
      → (m.heap id).authenticated ≡ false
      → IsSound Resolves m
      → IsSound Resolves (resume m id e answer).0
  unfolding resume finish_authentication
  resume-IsSound m id e token none r live unknown s = respond-IsSound Resolves m id _ (tt, tt) s
  resume-IsSound m id e token (some identity) r live unknown s =
      respond-IsSound Resolves (drained m id token identity r s live unknown) id _
        (tt, drained_waiting m id token identity r s live unknown)
        (drained-IsSound m id token identity r s live unknown)
