-- ===== src/Websocket/Schemas.antt =====
-- server/app/websocket/schemas.py: the inbound envelope and its validation.
pub mod Valid
use encrypt_chat_app.Base.{
  Bool, List, Option, Text, [], any, codes, false, if◌then◌else◌, leb, length, none, some, text_eq,
  true, ℕ, ◌&&◌, ◌∷◌,
}
use encrypt_chat_app.Websocket.Json.{Json, Fields, get, all_keys}
use encrypt_chat_app.Websocket.Identifier.{matches_pattern, max_identifier_length}
use encrypt_chat_app.Websocket.Protocol.{MessageType, message_type, protocol_version}

-- A `datetime`: the instant, and whether it carries an offset.
pub record Timestamp : Type 0 where
  pub instant : ℕ
  pub has_timezone : Bool

-- What `json.loads` does: it returns a value, or raises one of the two exceptions that are caught, or
-- another, such as the `ValueError` for an integer of more than 4300 digits, or the `RecursionError`
-- for a deep nesting.
pub data Loaded : Type 0 where
  loaded : Json → Loaded
  not_json load_raises : Loaded

-- What the transport takes from `json`, `uuid` and pydantic: the parser, `UUID(text)`, the checks of a
-- UUID field and of a datetime field, and whether the `$` of a pattern also stands before a final line
-- feed.
pub record Parsers : Type 0 where
  pub json_loads : Text → Loaded
  pub uuid : Text → Option ℕ
  pub uuid_field : Json → Option ℕ
  pub datetime_field : Json → Option Timestamp
  pub dollar_before_newline : Bool

pub record InboundEnvelope : Type 0 where
  pub message_id : ℕ
  pub type : MessageType
  pub sender : Text
  pub recipient : Option Text
  pub timestamp : Timestamp
  pub payload : Fields

infixl 5 ◌>>=◌
abbrev pub ◌>>=◌ : {A B : Type 0} → Option A → (A → Option B) → Option B
none >>= f = none
some a >>= f = f a

abbrev known_fields : List Text
known_fields =
    codes "version"
    ∷ codes "message_id"
    ∷ codes "type"
    ∷ codes "sender"
    ∷ codes "recipient"
    ∷ codes "timestamp"
    ∷ codes "payload"
    ∷ []

-- `extra="forbid"`
abbrev pub is_known_field : Text → Bool
is_known_field key = any (λ known. text_eq known key) known_fields

abbrev guard : Bool → Option (Unit {0})
guard true = some tt
guard false = none

module _ (p : Parsers) where
  -- `TransportIdentifier`
  unfoldable pub identifier_field : Json → Option Text
  identifier_field (Json.str s) =
      if leb 1 (length s)
        && (leb (length s) max_identifier_length && matches_pattern p.dollar_before_newline s)
      then some s
      else none
  identifier_field _ = none

  -- `TransportIdentifier | None = None`
  unfoldable pub recipient_field : Option Json → Option (Option Text)
  recipient_field none = some none
  recipient_field (some Json.null) = some none
  recipient_field (some v) = identifier_field v >>= λ s. some (some s)

  -- `_require_timezone`
  unfoldable pub timestamp_field : Json → Option Timestamp
  timestamp_field v = p.datetime_field v >>= λ t. if t.has_timezone then some t else none

  unfoldable pub version_field : Json → Option (Unit {0})
  version_field (Json.str s) = guard (text_eq s protocol_version)
  version_field _ = none

  unfoldable pub type_field : Json → Option MessageType
  type_field (Json.str s) = message_type s
  type_field _ = none

  -- `dict[str, Any] = Field(default_factory=dict)`
  unfoldable pub payload_field : Option Json → Option Fields
  payload_field none = some Fields.end
  payload_field (some (Json.obj fields)) = some fields
  payload_field (some _) = none

  -- `InboundEnvelope.model_validate(parsed)`
  unfoldable pub model_validate : Fields → Option InboundEnvelope
  model_validate parsed = do
    _ ← guard (all_keys is_known_field parsed)
    _ ← get (codes "version") parsed >>= version_field
    message_id ← get (codes "message_id") parsed >>= λ v. p.uuid_field v
    type ← get (codes "type") parsed >>= type_field
    sender ← get (codes "sender") parsed >>= identifier_field
    recipient ← recipient_field (get (codes "recipient") parsed)
    timestamp ← get (codes "timestamp") parsed >>= timestamp_field
    payload ← payload_field (get (codes "payload") parsed)
    some (record {
      message_id = message_id;
      type = type;
      sender = sender;
      recipient = recipient;
      timestamp = timestamp;
      payload = payload;
    })
