-- ===== src/Websocket/Server/Rounds.antt =====
-- A round of the receive loop keeps the invariant.
use encrypt_chat_app.Base.{
  All, All-mono, Bool-cases, List, Option, Text, [], codes, false, if◌then◌else◌, inl, inr, length,
  ltb, none, refl, some, subst, true, ℕ, ◌==◌, ◌||◌, ◌∷◌, ◌≡◌, ◌⊎◌,
}
use encrypt_chat_app.Websocket.Authentication.{
  AuthenticatedIdentity, max_token_length, Begun, answered, resolving, begin_authentication,
  begin_token,
}
use encrypt_chat_app.Websocket.Context.{ConnectionContext, touch}
use encrypt_chat_app.Websocket.Errors.{auth_failed, already_authenticated}
use encrypt_chat_app.Websocket.Json.{get}
use encrypt_chat_app.Websocket.Loop.{respond, dispatch, touched, counted, on_timeout, on_frame}
use encrypt_chat_app.Websocket.Loop.Cases.{dispatch-cases, on_frame-cases}
use encrypt_chat_app.Websocket.Manager.{ConnectionManager}
use encrypt_chat_app.Websocket.Messages.{OutboundMessage, error}
use encrypt_chat_app.Websocket.Protocol.{
  MessageType, is_privileged, is_unauthenticated_sendable, auth_authenticate,
}
use encrypt_chat_app.Websocket.RateLimiter
use encrypt_chat_app.Websocket.RateLimiter.{RateLimiter}
use encrypt_chat_app.Websocket.Routing.{handle_privileged}
use encrypt_chat_app.Websocket.Schemas.{Parsers, InboundEnvelope}
use encrypt_chat_app.Websocket.Server.Routing.{IsPlain, plain-IsMail, handle_privileged-IsHandled}
use encrypt_chat_app.Websocket.Server.Sound.{
  IsSound, same_identity, set_context-IsSound, notify-IsSound, respond-IsSound,
}
use encrypt_chat_app.Websocket.Validation.{text_at}

-- A type is privileged or may be sent before authentication, never both.
privileged_gate :
    (t : MessageType) → is_privileged t ≡ true → is_unauthenticated_sendable t ≡ true → ⊥
privileged_gate auth_authenticate h k = cc
privileged_gate _ h k = cc

abbrev IsPlainBegun : Begun → Type 0
IsPlainBegun (answered responses) = All IsPlain responses
IsPlainBegun (resolving token) = Unit

begin_token-IsPlain : (e : InboundEnvelope) (t : Option Text) → IsPlainBegun (begin_token e t)
begin_token-IsPlain e none = (tt, tt)
begin_token-IsPlain e (some token) =
    elim (length token == 0 || ltb max_token_length (length token))
      as (λ b.
        IsPlainBegun
          (if b then answered (error auth_failed (some e.message_id) ∷ []) else resolving token)) [
            | true ↦ (tt, tt)
            | false ↦ tt
          ]

begin_authentication-IsPlain :
    (m : ConnectionManager) (id : ℕ) (e : InboundEnvelope)
    → IsPlainBegun (begin_authentication m id e)
unfolding begin_authentication
begin_authentication-IsPlain m id e =
    elim (m.heap id).authenticated
      as (λ b. IsPlainBegun (
        if b
        then answered (error already_authenticated (some e.message_id) ∷ [])
        else begin_token e (text_at (get (codes "access_token") e.payload)))) [
          | true ↦ (tt, tt)
          | false ↦ begin_token-IsPlain e (text_at (get (codes "access_token") e.payload))
        ]

begin-IsPlain :
    (m : ConnectionManager) (id : ℕ) (e : InboundEnvelope) (responses : List OutboundMessage)
    → begin_authentication m id e ≡ answered responses
    → All IsPlain responses
begin-IsPlain m id e responses h = subst IsPlainBegun h (begin_authentication-IsPlain m id e)

module _ (Resolves : Text → AuthenticatedIdentity → Type 0) where
  plain-respond :
      (m : ConnectionManager) (id : ℕ) (responses : List OutboundMessage)
      → All IsPlain responses
      → IsSound Resolves m
      → IsSound Resolves (respond m id responses).0
  plain-respond m id responses h s =
      respond-IsSound Resolves m id responses (All-mono _ _ responses (plain-IsMail Resolves _ _) h)
        s

  touched-IsSound :
      (m : ConnectionManager) (id now : ℕ)
      → IsSound Resolves m
      → IsSound Resolves (touched m id now)
  unfolding touch
  touched-IsSound m id now s =
      set_context-IsSound Resolves m id (touch (m.heap id) now) refl
        (record {
          identity =
              same_identity Resolves (m.heap id) (touch (m.heap id) now) refl refl refl refl
                (s.contexts id).identity;
          mail = (s.contexts id).mail;
          room = (s.contexts id).room;
        })
        s

  counted-IsSound :
      (m : ConnectionManager) (id now : ℕ)
      → IsSound Resolves m
      → IsSound Resolves (counted m id now)
  counted-IsSound m id now s =
      set_context-IsSound Resolves m id c refl
        (record {
          identity =
              same_identity Resolves (m.heap id) c refl refl refl refl (s.contexts id).identity;
          mail = (s.contexts id).mail;
          room = (s.contexts id).room;
        })
        s
    where
      c : ConnectionContext
      c = record (m.heap id) { rate_limiter = (RateLimiter.allow (m.heap id).rate_limiter now).0 }

  dispatch-IsSound :
      (m : ConnectionManager) (id server_time : ℕ) (e : InboundEnvelope)
      → ((m.heap id).authenticated ≡ true) ⊎ (is_unauthenticated_sendable e.type ≡ true)
      → IsSound Resolves m
      → IsSound Resolves (dispatch m id server_time e).0
  dispatch-IsSound m id server_time e gate s =
      dispatch-cases (λ r. IsSound Resolves r.0) m id server_time e
        (λ responses h. plain-respond m id responses (begin-IsPlain m id e responses h) s)
        (λ token h. s) (plain-respond m id _ (tt, tt) s) (λ h. privileged (known h gate))
        (plain-respond m id _ (tt, tt) s)
    where
      known :
          is_privileged e.type ≡ true
          → ((m.heap id).authenticated ≡ true) ⊎ (is_unauthenticated_sendable e.type ≡ true)
          → (m.heap id).authenticated ≡ true
      known h (inl k) = k
      known h (inr k) = absurd (privileged_gate e.type h k)

      privileged :
          (m.heap id).authenticated ≡ true
          → IsSound Resolves
              (respond (handle_privileged m id e).0 id (handle_privileged m id e).1).0
      privileged k =
          let (s', plain) = handle_privileged-IsHandled Resolves m id e k s in
          plain-respond (handle_privileged m id e).0 id (handle_privileged m id e).1 plain s'

  pub on_frame-IsSound :
      (p : Parsers) (m : ConnectionManager) (id : ℕ) (raw_text : Text) (now server_time : ℕ)
      → IsSound Resolves m
      → IsSound Resolves (on_frame p m id raw_text now server_time).0
  on_frame-IsSound p m id raw_text now server_time s =
      on_frame-cases p (λ r. IsSound Resolves r.0) m id raw_text now server_time
        (notify-IsSound Resolves (touched m id now) id _ tt s₁)
        (notify-IsSound Resolves (counted (touched m id now) id now) id _ tt s₂) s₂
        (λ code message_id. plain-respond _ id _ (tt, tt) s₂)
        (λ e h. dispatch-IsSound _ id server_time e h.gate s₂)
    where
      s₁ : IsSound Resolves (touched m id now)
      s₁ = touched-IsSound m id now s

      s₂ : IsSound Resolves (counted (touched m id now) id now)
      s₂ = counted-IsSound (touched m id now) id now s₁

  pub on_timeout-IsSound :
      (m : ConnectionManager) (id : ℕ) → IsSound Resolves m → IsSound Resolves (on_timeout m id).0
  unfolding on_timeout
  on_timeout-IsSound m id s = elim (Bool-cases (m.heap id).authenticated) [
    | inl known ↦ rw known (notify-IsSound Resolves m id _ tt s)
    | inr unknown ↦ rw unknown (notify-IsSound Resolves m id _ tt s)
  ]
