-- ===== src/Websocket/Schemas/Valid.antt =====
-- What `model_validate` guarantees of the envelope that it returns.
use encrypt_chat_app.Base.{
  Option, Text, arith, codes, length, none, refl, some, subst, true, ◌≡◌, ◌≤◌,
}
use encrypt_chat_app.Websocket.Identifier.{matches_pattern, max_identifier_length}
use encrypt_chat_app.Websocket.Json.{all_keys, Json, Fields, get}
use encrypt_chat_app.Websocket.Schemas.{
  is_known_field, guard, Parsers, Timestamp, InboundEnvelope, identifier_field, recipient_field,
  timestamp_field, type_field, model_validate, ◌>>=◌, version_field, payload_field,
}

pub >>=-eq-some :
    {A B : Type 0} (m : Option A) (f : A → Option B) {b : B}
    → (m >>= f) ≡ some b
    → (a : A) × (m ≡ some a) × (f a ≡ some b)
>>=-eq-some none f h = cc
>>=-eq-some (some a) f h = (a, refl, h)

pub some_inj : {A : Type 0} {a b : A} → some a ≡ some b → a ≡ b
some_inj h = cc

module _ (p : Parsers) where
  -- A transport identifier: 1 to 64 characters that match the pattern.
  abbrev pub IsIdentifier : Text → Type 0
  IsIdentifier s =
      (1 ≤ length s)
      × (length s ≤ max_identifier_length)
      × (matches_pattern p.dollar_before_newline s ≡ true)

  abbrev pub IsRecipient : Option Text → Type 0
  IsRecipient none = Unit
  IsRecipient (some s) = IsIdentifier s

  identifier_field-IsIdentifier :
      (v : Json) (s : Text) → identifier_field p v ≡ some s → IsIdentifier s
  unfolding identifier_field
  identifier_field-IsIdentifier (Json.str t) s h = ground arith
  identifier_field-IsIdentifier _ s h = ground arith

  recipient_field-IsRecipient :
      (v : Option Json) (r : Option Text) → recipient_field p v ≡ some r → IsRecipient r
  unfolding recipient_field
  recipient_field-IsRecipient v none h = tt
  recipient_field-IsRecipient none (some s) h = cc
  recipient_field-IsRecipient (some Json.null) (some s) h = cc
  recipient_field-IsRecipient (some v) (some s) h =
      let (t, found, e) = >>=-eq-some (identifier_field p v) (λ t. some (some t)) h in
      identifier_field-IsIdentifier v s (cc)

  timestamp_field-timezone :
      (v : Json) (t : Timestamp) → timestamp_field p v ≡ some t → t.has_timezone ≡ true
  unfolding timestamp_field
  timestamp_field-timezone v t h = ground arith

  -- The fields of a validated envelope satisfy the schema, and its type is the one in the object.
  pub record IsEnvelope (parsed : Fields) (e : InboundEnvelope) : Type 0 where
    pub sender : IsIdentifier e.sender
    pub recipient : IsRecipient e.recipient
    pub timezone : e.timestamp.has_timezone ≡ true
    pub type : (get (codes "type") parsed >>= type_field p) ≡ some e.type

  bound-IsIdentifier :
      (o : Option Json) (s : Text) → (o >>= identifier_field p) ≡ some s → IsIdentifier s
  bound-IsIdentifier none s h = cc
  bound-IsIdentifier (some v) s h = identifier_field-IsIdentifier v s h

  bound-timezone :
      (o : Option Json) (t : Timestamp) → (o >>= timestamp_field p) ≡ some t → t.has_timezone ≡ true
  bound-timezone none t h = cc
  bound-timezone (some v) t h = timestamp_field-timezone v t h

  pub model_validate-IsEnvelope :
      (parsed : Fields) (e : InboundEnvelope)
      → model_validate p parsed ≡ some e
      → IsEnvelope parsed e
  unfolding model_validate
  model_validate-IsEnvelope parsed e h =
      let (_, _, h₁) = >>=-eq-some (guard (all_keys is_known_field parsed)) _ h in
      let (_, _, h₂) = >>=-eq-some (get (codes "version") parsed >>= version_field p) _ h₁ in
      let (_, _, h₃) = >>=-eq-some (get (codes "message_id") parsed >>= λ v. p.uuid_field v) _ h₂ in
      let (type, is_type, h₄) = >>=-eq-some (get (codes "type") parsed >>= type_field p) _ h₃ in
      let (sender, is_sender, h₅) =
        >>=-eq-some (get (codes "sender") parsed >>= identifier_field p) _ h₄ in
      let (recipient, is_recipient, h₆) =
        >>=-eq-some (recipient_field p (get (codes "recipient") parsed)) _ h₅ in
      let (timestamp, is_timestamp, h₇) =
        >>=-eq-some (get (codes "timestamp") parsed >>= timestamp_field p) _ h₆ in
      let (payload, _, h₈) = >>=-eq-some (payload_field p (get (codes "payload") parsed)) _ h₇ in
      subst (IsEnvelope parsed) (some_inj h₈) (record {
        sender = bound-IsIdentifier _ sender is_sender;
        recipient = recipient_field-IsRecipient _ recipient is_recipient;
        timezone = bound-timezone _ timestamp is_timestamp;
        type = is_type;
      })
