-- ===== src/Websocket/Server/Reachable.antt =====
-- The invariant of the whole server, for every interleaving of the connections.
use encrypt_chat_app.Base.{
  ==_iff, Bool-cases, List, Text, [], ap, contains, false, if◌then◌else◌, inl, inr, refl, subst,
  sym, true, ℕ, ◌==◌, ◌∙◌, ◌∷◌, ◌≡◌, ◌≢◌,
}
use encrypt_chat_app.Websocket.Authentication.{
  AuthenticatedIdentity, answered, resolving, begin_authentication,
}
use encrypt_chat_app.Websocket.Context.{enqueue_outbound}
use encrypt_chat_app.Websocket.Errors.{normal, policy_violation, CloseCode}
use encrypt_chat_app.Websocket.Lifecycle.{begin_close}
use encrypt_chat_app.Websocket.Limits.{TransportLimits}
use encrypt_chat_app.Websocket.Loop.{
  Next, receive, escape, close, resolve, notify, respond, on_frame,
}
use encrypt_chat_app.Websocket.Loop.Cases.{Round, dispatch-cases, on_frame-cases}
use encrypt_chat_app.Websocket.Manager.{ConnectionManager, unregister}
use encrypt_chat_app.Websocket.Manager
use encrypt_chat_app.Websocket.Messages.{OutboundMessage}
use encrypt_chat_app.Websocket.Schemas.{Parsers, InboundEnvelope}
use encrypt_chat_app.Websocket.Server.{
  Phase, accepting, abandoned, unused, serving, awaiting, closing, closed, Server, start, move,
  after_round,
}
use encrypt_chat_app.Websocket.Server.Closing.{begin_close-IsSound}
use encrypt_chat_app.Websocket.Server.Sound.{IsSound, init-IsSound}
use encrypt_chat_app.Websocket.Server.Stays.{Stays, begin_close-Stays}

-- A coroutine that has begun and not ended is registered, and one that waits for a token's resolution is not
-- authenticated.
abbrev pub InPhase : ConnectionManager → ℕ → Phase → Type 0
InPhase m id unused = contains id m.connections ≡ false
InPhase m id accepting = contains id m.connections ≡ true
InPhase m id serving = contains id m.connections ≡ true
InPhase m id abandoned = contains id m.connections ≡ true
InPhase m id (awaiting e token) =
    (contains id m.connections ≡ true) × ((m.heap id).authenticated ≡ false)
InPhase m id (closing code) = contains id m.connections ≡ true
InPhase m id (closed code) = contains id m.connections ≡ false

-- What another coroutine's step leaves alone of a connection.
pub record Apart (id : ℕ) (m m' : ConnectionManager) : Type 0 where
  pub registered : contains id m'.connections ≡ contains id m.connections
  pub authenticated : (m'.heap id).authenticated ≡ (m.heap id).authenticated

pub Apart-InPhase :
    (m m' : ConnectionManager) (id : ℕ) (phase : Phase)
    → Apart id m m'
    → InPhase m id phase
    → InPhase m' id phase
Apart-InPhase m m' id unused a h = a.registered ∙ h
Apart-InPhase m m' id accepting a h = a.registered ∙ h
Apart-InPhase m m' id serving a h = a.registered ∙ h
Apart-InPhase m m' id abandoned a h = a.registered ∙ h
Apart-InPhase m m' id (awaiting e token) a (h, k) = (a.registered ∙ h, a.authenticated ∙ k)
Apart-InPhase m m' id (closing code) a h = a.registered ∙ h
Apart-InPhase m m' id (closed code) a h = a.registered ∙ h

pub Stays-Apart : (id : ℕ) (m m' : ConnectionManager) → Stays id m m' → Apart id m m'
Stays-Apart id m m' s = record {
  registered = ap (contains id) s.connections;
  authenticated = s.authenticated;
}

begin_authentication-unknown :
    (m : ConnectionManager) (id : ℕ) (e : InboundEnvelope) (token : Text)
    → begin_authentication m id e ≡ resolving token
    → (m.heap id).authenticated ≡ false
unfolding begin_authentication
begin_authentication-unknown m id e token h = elim (Bool-cases (m.heap id).authenticated) [
  | inr unknown ↦ unknown
  | inl known ↦ absurd (answered_resolving (rw known at h))
]
  where
    answered_resolving :
        {responses : List OutboundMessage} {t : Text} → answered responses ≡ resolving t → ⊥
    answered_resolving h = cc

-- A round that ends in the await of a resolution leaves the connection unauthenticated.
abbrev pub Awaits : ℕ → Round → Type 0
Awaits id (m, receive) = Unit
Awaits id (m, escape) = Unit
Awaits id (m, close code) = Unit
Awaits id (m, resolve e token) = (m.heap id).authenticated ≡ false

pub respond-Awaits :
    (id i : ℕ) (m : ConnectionManager) (responses : List OutboundMessage)
    → Awaits i (respond m id responses)
unfolding respond
respond-Awaits id i m [] = tt
respond-Awaits id i m (response ∷ responses) =
    elim (enqueue_outbound (m.heap id) response).1
      as (λ b. Awaits i (
        if b
        then respond (notify m id response) id responses
        else (notify m id response, close policy_violation))) [
          | true ↦ respond-Awaits id i (notify m id response) responses
          | false ↦ tt
        ]

pub on_frame-Awaits :
    (p : Parsers) (m : ConnectionManager) (id : ℕ) (raw_text : Text) (now server_time : ℕ)
    → Awaits id (on_frame p m id raw_text now server_time)
on_frame-Awaits p m id raw_text now server_time =
    on_frame-cases p (Awaits id) m id raw_text now server_time tt tt tt
      (λ code message_id. respond-Awaits id id _ _)
      λ e accepted.
        dispatch-cases (Awaits id) _ id server_time e
          (λ responses h. respond-Awaits id id _ responses)
          (λ token h. begin_authentication-unknown _ id e token h) (respond-Awaits id id _ _)
          (λ h. respond-Awaits id id _ _) (respond-Awaits id id _ _)

module _ (Resolves : Text → AuthenticatedIdentity → Type 0) where
  pub record IsSafe (s : Server) : Type 0 where
    pub sound : IsSound Resolves s.manager
    pub phases : (id : ℕ) → InPhase s.manager id (s.phase id)

  pub start-IsSafe : (limits : TransportLimits) → IsSafe (start limits)
  unfolding Manager.init contains
  start-IsSafe limits = record { sound = init-IsSound Resolves limits; phases = λ id. refl }

  pub move-IsSafe :
      (s : Server) (id : ℕ) (m : ConnectionManager) (phase : Phase)
      → IsSafe s
      → IsSound Resolves m
      → InPhase m id phase
      → ((i : ℕ) → i ≢ id → Apart i s.manager m)
      → IsSafe (move s id m phase)
  move-IsSafe s id m phase safe sound own apart = record {
    sound = sound;
    phases = λ i. elim (Bool-cases (i == id)) [
      | inl e ↦ rw e (subst (λ j. InPhase m j phase) (sym ((==_iff i id).0 e)) own)
      | inr e ↦ rw e (
          Apart-InPhase s.manager m i (s.phase i) (apart i (λ k. cc (sym ((==_iff i id).1 k) ∙ e)))
            (safe.phases i))
    ];
  }

  pub closing-IsSafe :
      (s : Server) (id : ℕ) (m : ConnectionManager) (code : CloseCode)
      → IsSafe s
      → IsSound Resolves m
      → contains id m.connections ≡ true
      → ((i : ℕ) → i ≢ id → Apart i s.manager m)
      → IsSafe (move s id (begin_close m id) (closing code))
  closing-IsSafe s id m code safe sound own apart =
      move-IsSafe s id (begin_close m id) (closing code) safe
        (begin_close-IsSound Resolves m id sound)
        ((Stays-Apart id m (begin_close m id) (begin_close-Stays id m id)).registered ∙ own)
        (λ i h.
          let a = Stays-Apart i m (begin_close m id) (begin_close-Stays i m id) in
          let b = apart i h in
          record {
            registered = a.registered ∙ b.registered;
            authenticated = a.authenticated ∙ b.authenticated;
          })

  pub after_round-IsSafe :
      (s : Server) (id : ℕ) (m : ConnectionManager) (n : Next)
      → IsSafe s
      → IsSound Resolves m
      → contains id m.connections ≡ true
      → Awaits id (m, n)
      → ((i : ℕ) → i ≢ id → Apart i s.manager m)
      → IsSafe (after_round s id m n)
  after_round-IsSafe s id m receive safe sound own w apart =
      move-IsSafe s id m serving safe sound own apart
  after_round-IsSafe s id m escape safe sound own w apart =
      closing-IsSafe s id m normal safe sound own apart
  after_round-IsSafe s id m (close code) safe sound own w apart =
      closing-IsSafe s id m code safe sound own apart
  after_round-IsSafe s id m (resolve e token) safe sound own w apart =
      move-IsSafe s id m (awaiting e token) safe sound (own, w) apart

  pub in_phase :
      (s : Server) (id : ℕ) (phase : Phase)
      → IsSafe s
      → s.phase id ≡ phase
      → InPhase s.manager id phase
  in_phase s id phase safe e = subst (InPhase s.manager id) e (safe.phases id)
