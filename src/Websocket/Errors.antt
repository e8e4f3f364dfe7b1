-- ===== src/Websocket/Errors.antt =====
-- server/app/websocket/errors.py: the error codes, their fixed descriptions and the close codes.
use encrypt_chat_app.Base.{Text, codes, ℕ}

pub data ProtocolErrorCode : Type 0 where
  invalid_json schema_validation_failed unknown_message_type unsupported_protocol_version
        invalid_recipient recipient_unavailable sender_mismatch message_too_large rate_limited
        origin_rejected connection_limit internal_protocol_error idle_timeout queue_overflow
        invalid_client_id auth_required auth_failed already_authenticated :
      ProtocolErrorCode

abbrev pub value : ProtocolErrorCode → Text
value invalid_json = codes "WS_1001_INVALID_JSON"
value schema_validation_failed = codes "WS_1002_SCHEMA_VALIDATION_FAILED"
value unknown_message_type = codes "WS_1003_UNKNOWN_MESSAGE_TYPE"
value unsupported_protocol_version = codes "WS_1004_UNSUPPORTED_PROTOCOL_VERSION"
value invalid_recipient = codes "WS_1005_INVALID_RECIPIENT"
value recipient_unavailable = codes "WS_1006_RECIPIENT_UNAVAILABLE"
value sender_mismatch = codes "WS_1007_SENDER_MISMATCH"
value message_too_large = codes "WS_1008_MESSAGE_TOO_LARGE"
value rate_limited = codes "WS_1009_RATE_LIMITED"
value origin_rejected = codes "WS_1010_ORIGIN_REJECTED"
value connection_limit = codes "WS_1011_CONNECTION_LIMIT"
value internal_protocol_error = codes "WS_1012_INTERNAL_PROTOCOL_ERROR"
value idle_timeout = codes "WS_1013_IDLE_TIMEOUT"
value queue_overflow = codes "WS_1014_QUEUE_OVERFLOW"
value invalid_client_id = codes "WS_1015_INVALID_CLIENT_ID"
value auth_required = codes "WS_1016_AUTH_REQUIRED"
value auth_failed = codes "WS_1017_AUTH_FAILED"
value already_authenticated = codes "WS_1018_ALREADY_AUTHENTICATED"

-- `ERROR_DESCRIPTIONS[code]`
abbrev pub describe : ProtocolErrorCode → Text
describe invalid_json = codes "Message was not valid JSON."
describe schema_validation_failed = codes "Message failed schema validation."
describe unknown_message_type = codes "Message type is not supported."
describe unsupported_protocol_version = codes "Protocol version is not supported."
describe invalid_recipient = codes "Recipient identifier is missing or malformed."
describe recipient_unavailable = codes "Recipient is not currently reachable."
describe sender_mismatch = codes "Sender does not match the connection identity."
describe message_too_large = codes "Message exceeds the maximum allowed size."
describe rate_limited = codes "Message rate limit exceeded."
describe origin_rejected = codes "Origin is not allowed."
describe connection_limit = codes "Connection limit reached."
describe internal_protocol_error = codes "Internal protocol error."
describe idle_timeout = codes "Connection idle for too long."
describe queue_overflow = codes "Outgoing queue is full."
describe invalid_client_id = codes "Transport client identifier is malformed."
describe auth_required = codes "Authentication is required for this action."
describe auth_failed = codes "Authentication failed."
describe already_authenticated = codes "Connection is already authenticated."

-- `WebSocketCloseCode`
pub data CloseCode : Type 0 where
  normal policy_violation message_too_big internal_error closed_origin_rejected
        closed_connection_limit closed_rate_limited closed_idle_timeout closed_invalid_client_id
        closed_auth_required closed_auth_failed :
      CloseCode

abbrev pub number : CloseCode → ℕ
number normal = 1000
number policy_violation = 1008
number message_too_big = 1009
number internal_error = 1011
number closed_origin_rejected = 4403
number closed_connection_limit = 4429
number closed_rate_limited = 4430
number closed_idle_timeout = 4408
number closed_invalid_client_id = 4400
number closed_auth_required = 4401
number closed_auth_failed = 4402
