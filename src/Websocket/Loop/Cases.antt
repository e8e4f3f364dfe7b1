-- ===== src/Websocket/Loop/Cases.antt =====
-- A round by its branches: what holds on each branch holds of the call.
use encrypt_chat_app.Base.{
  Bool, List, Option, Text, [], false, if◌then◌else◌, ltb, none, not, refl, some, true, utf8_length,
  ℕ, ◌∷◌, ◌≡◌,
}
use encrypt_chat_app.Websocket.Authentication.{Begun, answered, resolving, begin_authentication}
use encrypt_chat_app.Websocket.Errors.{
  ProtocolErrorCode, message_too_large, rate_limited, internal_protocol_error,
}
use encrypt_chat_app.Websocket.Loop.{
  Next, receive, escape, resolve, notify, respond, dispatch, on_validated, touched, counted,
  on_frame,
}
use encrypt_chat_app.Websocket.Manager.{ConnectionManager}
use encrypt_chat_app.Websocket.Messages.{OutboundMessage, error}
use encrypt_chat_app.Websocket.Protocol.{
  MessageType, auth_authenticate, heartbeat_ping, is_privileged,
}
use encrypt_chat_app.Websocket.RateLimiter
use encrypt_chat_app.Websocket.Routing.{handle_privileged}
use encrypt_chat_app.Websocket.Schemas.{Parsers, InboundEnvelope}
use encrypt_chat_app.Websocket.Validation.{Validated, validate_inbound}
use encrypt_chat_app.Websocket.Validation.Gate.{
  IsAccepted, Verdict, accepted, refused, Judged, answered_by, escapes, validate_inbound-Judged,
}

abbrev pub Round : Type 0
Round = ConnectionManager × Next

pub dispatch-cases {ℓ} :
    (P : Round → Type ℓ) (m : ConnectionManager) (id server_time : ℕ) (e : InboundEnvelope)
    → ((responses : List OutboundMessage)
        → begin_authentication m id e ≡ answered responses
        → P (respond m id responses))
    → ((token : Text) → begin_authentication m id e ≡ resolving token → P (m, resolve e token))
    → P (respond m id (OutboundMessage.heartbeat_pong e.message_id server_time ∷ []))
    → (is_privileged e.type ≡ true
        → P (respond (handle_privileged m id e).0 id (handle_privileged m id e).1))
    → P (respond m id (error internal_protocol_error (some e.message_id) ∷ []))
    → P (dispatch m id server_time e)
unfolding dispatch
dispatch-cases P m id server_time e answers resolves pong privileged other =
    go e.type (begin_authentication m id e) refl
  where
    by_privilege :
        (b : Bool)
        → is_privileged e.type ≡ b
        → P (
            if b
            then respond (handle_privileged m id e).0 id (handle_privileged m id e).1
            else respond m id (error internal_protocol_error (some e.message_id) ∷ []))
    by_privilege true h = privileged h
    by_privilege false h = other

    go :
        (t : MessageType) (b : Begun)
        → begin_authentication m id e ≡ b
        → P (elim t [
          | auth_authenticate ↦ elim b [
            | answered responses ↦ respond m id responses
            | resolving raw_token ↦ (m, resolve e raw_token)
          ]
          | heartbeat_ping ↦
              respond m id (OutboundMessage.heartbeat_pong e.message_id server_time ∷ [])
          | _ ↦
              if is_privileged e.type
              then respond (handle_privileged m id e).0 id (handle_privileged m id e).1
              else respond m id (error internal_protocol_error (some e.message_id) ∷ [])
        ])
    go auth_authenticate (answered responses) h = answers responses h
    go auth_authenticate (resolving token) h = resolves token h
    go heartbeat_ping b h = pong
    go _ b h = by_privilege (is_privileged e.type) refl

module _ (p : Parsers) where
  pub on_frame-cases {ℓ} :
      (P : Round → Type ℓ) (m : ConnectionManager) (id : ℕ) (raw_text : Text) (now server_time : ℕ)
      → P (notify (touched m id now) id (error message_too_large none), receive)
      → P (notify (counted (touched m id now) id now) id (error rate_limited none), receive)
      → P (counted (touched m id now) id now, escape)
      → ((code : ProtocolErrorCode) (message_id : Option ℕ)
          → P (respond (counted (touched m id now) id now) id (error code message_id ∷ [])))
      → ((e : InboundEnvelope)
          → IsAccepted p ((counted (touched m id now) id now).heap id) e
          → P (dispatch (counted (touched m id now) id now) id server_time e))
      → P (on_frame p m id raw_text now server_time)
  unfolding on_frame
  on_frame-cases P m id raw_text now server_time large limited escaped refusal acceptance =
      go (ltb m.limits.max_message_bytes (utf8_length raw_text))
        (RateLimiter.allow ((touched m id now).heap id).rate_limiter now).1
        (validate_inbound p (m₂.heap id) raw_text) (validate_inbound-Judged p (m₂.heap id) raw_text)
    where
      m₂ : ConnectionManager
      m₂ = counted (touched m id now) id now

      judged :
          (v : Validated) → Verdict p (m₂.heap id) v → P (on_validated m₂ id server_time (some v))
      judged v (accepted e k h) = rw k (acceptance e h)
      judged v (refused code message_id k) = rw k (refusal code message_id)

      answered :
          (o : Option Validated)
          → Judged p (m₂.heap id) raw_text o
          → P (on_validated m₂ id server_time o)
      answered o (answered_by v k verdict) = rw k (judged v verdict)
      answered o (escapes raises k) = rw k escaped

      go :
          (too_large allowed : Bool) (v : Option Validated)
          → Judged p (m₂.heap id) raw_text v
          → P (
              if too_large
              then (notify (touched m id now) id (error message_too_large none), receive)
              else if not allowed
              then (notify m₂ id (error rate_limited none), receive)
              else on_validated m₂ id server_time v)
      go true allowed v h = large
      go false false v h = limited
      go false true v h = answered v h
