-- ===== src/Websocket/Validation.antt =====
-- server/app/websocket/endpoint.py: `_extract_message_id` and `_validate_inbound`.
pub mod Gate
use encrypt_chat_app.Base.{
  Bool, List, Option, Text, [], codes, false, if◌then◌else◌, none, not, some, text_eq, ℕ, ◌&&◌, ◌∷◌,
}
use encrypt_chat_app.Websocket.Context.{ConnectionContext}
use encrypt_chat_app.Websocket.Errors.{
  ProtocolErrorCode, invalid_json, schema_validation_failed, unsupported_protocol_version,
  unknown_message_type, auth_required,
}
use encrypt_chat_app.Websocket.Json.{Json, Fields, get}
use encrypt_chat_app.Websocket.Messages.{OutboundMessage, error}
use encrypt_chat_app.Websocket.Protocol.{
  MessageType, message_type, protocol_version, is_client_sendable, is_unauthenticated_sendable,
}
use encrypt_chat_app.Websocket.Schemas.{
  Loaded, loaded, not_json, load_raises, Parsers, InboundEnvelope, model_validate,
}

abbrev pub Validated : Type 0
Validated = Option InboundEnvelope × List OutboundMessage

abbrev pub refuse : ProtocolErrorCode → Option ℕ → Validated
refuse code message_id = (none, error code message_id ∷ [])

-- `fields.get(key) == text`, and the text that stands under a key, if it is one.
abbrev pub text_at : Option Json → Option Text
text_at (some (Json.str s)) = some s
text_at _ = none

abbrev pub holds_text : Option Text → Text → Bool
holds_text none t = false
holds_text (some s) t = text_eq s t

module _ (p : Parsers) where
  unfoldable pub extract_message_id : Fields → Option ℕ
  extract_message_id raw = elim (text_at (get (codes "message_id") raw)) [
    | none ↦ none
    | some candidate ↦ p.uuid candidate
  ]

  -- The schema check, at the end.
  abbrev pub validate_schema : Fields → Option ℕ → Validated
  validate_schema parsed message_id = elim (model_validate p parsed) [
    | none ↦ refuse schema_validation_failed message_id
    | some envelope ↦ (some envelope, [])
  ]

  -- The checks on the type, and the authorization gate.
  abbrev pub validate_type : ConnectionContext → Fields → Option ℕ → Option MessageType → Validated
  validate_type context parsed message_id none = refuse unknown_message_type message_id
  validate_type context parsed message_id (some type) =
      if not (is_client_sendable type)
      then refuse unknown_message_type message_id
      else if not context.authenticated && not (is_unauthenticated_sendable type)
      then refuse auth_required message_id
      else validate_schema parsed message_id

  abbrev pub raw_type : Fields → Option MessageType
  raw_type parsed = elim (text_at (get (codes "type") parsed)) [
    | none ↦ none
    | some raw ↦ message_type raw
  ]

  unfoldable pub validate_object : ConnectionContext → Fields → Validated
  validate_object context parsed =
      let message_id = extract_message_id parsed in
      if not (holds_text (text_at (get (codes "version") parsed)) protocol_version)
      then refuse unsupported_protocol_version message_id
      else validate_type context parsed message_id (raw_type parsed)

  -- none: an exception of `json.loads` passes through.
  unfoldable pub validate_inbound : ConnectionContext → Text → Option Validated
  validate_inbound context raw_text = elim (p.json_loads raw_text) [
    | load_raises ↦ none
    | not_json ↦ some (refuse invalid_json none)
    | loaded (Json.obj parsed) ↦ some (validate_object context parsed)
    | loaded _ ↦ some (refuse schema_validation_failed none)
  ]
