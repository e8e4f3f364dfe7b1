-- ===== src/Websocket/Validation/Gate.antt =====
-- What passes `_validate_inbound`, and what is answered otherwise.
use encrypt_chat_app.Base.{
  Bool, Bool-cases, Option, Option-cases, Text, [], codes, false, if◌then◌else◌, inl, inr, none,
  not, refl, some, true, ℕ, ◌&&◌, ◌≡◌, ◌⊎◌,
}
use encrypt_chat_app.Websocket.Context.{ConnectionContext}
use encrypt_chat_app.Websocket.Errors.{
  ProtocolErrorCode, schema_validation_failed, invalid_json, auth_required, unknown_message_type,
  unsupported_protocol_version,
}
use encrypt_chat_app.Websocket.Json.{Json, Fields, get}
use encrypt_chat_app.Websocket.Protocol.{
  protocol_version, MessageType, message_type, is_client_sendable, is_unauthenticated_sendable,
}
use encrypt_chat_app.Websocket.Schemas.{
  Loaded, loaded, not_json, load_raises, Parsers, InboundEnvelope, model_validate, type_field,
  ◌>>=◌,
}
use encrypt_chat_app.Websocket.Schemas.Valid.{IsIdentifier, IsRecipient, model_validate-IsEnvelope}
use encrypt_chat_app.Websocket.Validation.{
  holds_text, Validated, refuse, extract_message_id, validate_schema, validate_type, raw_type,
  text_at, validate_object, validate_inbound,
}

module _ (p : Parsers) where
  -- What is known of an envelope that the connection may act on.
  pub record IsAccepted (c : ConnectionContext) (e : InboundEnvelope) : Type 0 where
    pub sender : IsIdentifier p e.sender
    pub recipient : IsRecipient p e.recipient
    pub timezone : e.timestamp.has_timezone ≡ true
    pub sendable : is_client_sendable e.type ≡ true
    pub gate : (c.authenticated ≡ true) ⊎ (is_unauthenticated_sendable e.type ≡ true)

  -- An accepted envelope with no error, or one error and no envelope.
  pub data Verdict (c : ConnectionContext) (r : Validated) : Type 0 where
    accepted : (e : InboundEnvelope) → r ≡ (some e, []) → IsAccepted c e → Verdict c r
    refused : (code : ProtocolErrorCode) (id : Option ℕ) → r ≡ refuse code id → Verdict c r

  raw_type-type_field :
      (o : Option Json) (t t' : MessageType)
      → (elim (text_at o) [ none ↦ none | some raw ↦ message_type raw ]) ≡ some t
      → (o >>= type_field p) ≡ some t'
      → t ≡ t'
  unfolding type_field
  raw_type-type_field none t t' h k = cc
  raw_type-type_field (some (Json.str s)) t t' h k = cc
  raw_type-type_field (some _) t t' h k = cc

  validate_schema-Verdict :
      (c : ConnectionContext) (parsed : Fields) (id : Option ℕ) (t : MessageType)
      → raw_type p parsed ≡ some t
      → is_client_sendable t ≡ true
      → (c.authenticated ≡ true) ⊎ (is_unauthenticated_sendable t ≡ true)
      → Verdict c (validate_schema p parsed id)
  validate_schema-Verdict c parsed id t is_type sendable gate =
      elim (Option-cases (model_validate p parsed)) [
        | inl e ↦ rw (e, validate_schema) (refused schema_validation_failed id refl)
        | inr (envelope, e) ↦
            let valid = model_validate-IsEnvelope p parsed envelope e in
            let same =
              raw_type-type_field (get (codes "type") parsed) t envelope.type is_type valid.type in
            rw (e, validate_schema)
              (accepted envelope refl (record {
                sender = valid.sender;
                recipient = valid.recipient;
                timezone = valid.timezone;
                sendable = rw same at sendable;
                gate = rw same at gate;
              }))
      ]

  gate-Verdict :
      (c : ConnectionContext) (parsed : Fields) (id : Option ℕ) (t : MessageType) (known : Bool)
      → raw_type p parsed ≡ some t
      → is_client_sendable t ≡ true
      → c.authenticated ≡ known
      → Verdict c (
          if not known && not (is_unauthenticated_sendable t)
          then refuse auth_required id
          else validate_schema p parsed id)
  gate-Verdict c parsed id t true is_type sendable known =
      validate_schema-Verdict c parsed id t is_type sendable (inl known)
  gate-Verdict c parsed id t false is_type sendable known =
      elim (Bool-cases (is_unauthenticated_sendable t)) [
        | inr shut ↦ rw shut (refused auth_required id refl)
        | inl exempt ↦
            rw exempt (validate_schema-Verdict c parsed id t is_type sendable (inr exempt))
      ]

  validate_type-Verdict :
      (c : ConnectionContext) (parsed : Fields) (id : Option ℕ) (t : Option MessageType)
      → raw_type p parsed ≡ t
      → Verdict c (validate_type p c parsed id t)
  validate_type-Verdict c parsed id none is_type = refused unknown_message_type id refl
  validate_type-Verdict c parsed id (some t) is_type = elim (Bool-cases (is_client_sendable t)) [
    | inr server_only ↦ rw server_only (refused unknown_message_type id refl)
    | inl sendable ↦ rw sendable (gate-Verdict c parsed id t c.authenticated is_type sendable refl)
  ]

  validate_object-Verdict :
      (c : ConnectionContext) (parsed : Fields) → Verdict c (validate_object p c parsed)
  unfolding validate_object
  validate_object-Verdict c parsed =
      elim (Bool-cases (holds_text (text_at (get (codes "version") parsed)) protocol_version)) [
        | inr unsupported ↦
            rw unsupported (refused unsupported_protocol_version (extract_message_id p parsed) refl)
        | inl supported ↦
            rw supported (
              validate_type-Verdict c parsed (extract_message_id p parsed) (raw_type p parsed) refl)
      ]

  -- The answer to a frame, or none because `json.loads` raises an exception that is not caught.
  pub data Judged (c : ConnectionContext) (raw_text : Text) (r : Option Validated) : Type 0 where
    answered_by : (v : Validated) → r ≡ some v → Verdict c v → Judged c raw_text r
    escapes : p.json_loads raw_text ≡ load_raises → r ≡ none → Judged c raw_text r

  loaded-Judged :
      (c : ConnectionContext) (raw_text : Text) (o : Loaded)
      → p.json_loads raw_text ≡ o
      → Judged c raw_text (validate_inbound p c raw_text)
  unfolding validate_inbound
  loaded-Judged c raw_text load_raises e = rw (e, validate_inbound) (escapes e refl)
  loaded-Judged c raw_text not_json e =
      rw (e, validate_inbound) (answered_by _ refl (refused invalid_json none refl))
  loaded-Judged c raw_text (loaded (Json.obj parsed)) e =
      rw (e, validate_inbound) (answered_by _ refl (validate_object-Verdict c parsed))
  loaded-Judged c raw_text (loaded _) e =
      rw (e, validate_inbound) (answered_by _ refl (refused schema_validation_failed none refl))

  -- Unless `json.loads` raises another exception than the two that are caught, every frame is answered
  -- by one error and no envelope, or yields with no error an envelope whose sender and recipient are
  -- identifiers of the schema's pattern, whose timestamp has an offset, whose type clients may send,
  -- and which passes the authorization gate of the connection.
  pub validate_inbound-Judged :
      (c : ConnectionContext) (raw_text : Text) → Judged c raw_text (validate_inbound p c raw_text)
  validate_inbound-Judged c raw_text = loaded-Judged c raw_text (p.json_loads raw_text) refl
