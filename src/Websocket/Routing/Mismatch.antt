-- ===== src/Websocket/Routing/Mismatch.antt =====
-- Connections whose account name is not a valid identifier of the schema.
use encrypt_chat_app.Base.{List, Text, [], ap, false, none, some, sym, true, ℕ, ◌∙◌, ◌∷◌, ◌≡◌}
use encrypt_chat_app.Websocket.Context.{routing_identity}
use encrypt_chat_app.Websocket.Errors.{sender_mismatch}
use encrypt_chat_app.Websocket.Manager.{ConnectionManager}
use encrypt_chat_app.Websocket.Messages.{error, OutboundMessage}
use encrypt_chat_app.Websocket.Protocol.{rejected}
use encrypt_chat_app.Websocket.Routing.{ack, handle_message_send}
use encrypt_chat_app.Websocket.Routing.Statuses.{spoof-rejected}
use encrypt_chat_app.Websocket.Schemas.{Parsers, InboundEnvelope}
use encrypt_chat_app.Websocket.Schemas.Valid.{some_inj}
use encrypt_chat_app.Websocket.Validation.{Validated, validate_inbound}
use encrypt_chat_app.Websocket.Identifier.{matches_pattern}
use encrypt_chat_app.Websocket.Validation.Gate.{
  accepted, refused, answered_by, escapes, validate_inbound-Judged,
}

-- When the routing identity of a connection does not match the identifier pattern of the schema,
-- every message that it sends and that passes validation is rejected for a sender mismatch, and
-- changes nothing.
pub unspeakable-rejected :
    (p : Parsers) (m : ConnectionManager) (id : ℕ) (raw_text : Text) (e : InboundEnvelope)
    (errors : List OutboundMessage)
    → matches_pattern p.dollar_before_newline (routing_identity (m.heap id)) ≡ false
    → validate_inbound p (m.heap id) raw_text ≡ some (some e, errors)
    → handle_message_send m id e
      ≡ (m, error sender_mismatch (some e.message_id) ∷ ack e rejected ∷ [])
unspeakable-rejected p m id raw_text e errors unmatched valid =
    elim (validate_inbound-Judged p (m.heap id) raw_text) [
      | escapes raises is_none ↦ absurd (none_some (sym is_none ∙ valid))
      | answered_by v is_some (accepted e' is_accepted h) ↦
          let same_answer : v ≡ (some e, errors) = some_inj (sym is_some ∙ valid) in
          let named : e' ≡ e =
            some_inj (sym (ap (λ v. v.0) is_accepted) ∙ ap (λ v. v.0) same_answer) in
          spoof-rejected m id e (λ same.
            let k : true ≡ false =
              sym h.sender.2
              ∙ ap (matches_pattern p.dollar_before_newline) (ap (λ a. a.sender) named ∙ same)
              ∙ unmatched in
            cc)
      | answered_by v is_some (refused code message_id is_refused) ↦ absurd (
          none_distinct (
            sym (ap (λ v. v.0) is_refused)
            ∙ ap (λ v. v.0) (some_inj {A = Validated} (sym is_some ∙ valid))))
    ]
  where
    none_distinct : none ≡ some e → ⊥
    none_distinct h = cc

    none_some : {a : Validated} → none ≡ some a → ⊥
    none_some h = cc
