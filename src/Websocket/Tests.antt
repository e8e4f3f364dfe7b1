-- ===== src/Websocket/Tests.antt =====
-- A client that connects, authenticates and is bound to its account: the data of the examples.
mod Accounts
pub mod Session
mod Promises
mod Transport
mod Forwarding
mod Parts
use encrypt_chat_app.Base.{Text, codes, none, some, true, ◌≡◌}
use encrypt_chat_app.Websocket.Authentication.{AuthenticatedIdentity}
use encrypt_chat_app.Websocket.Identifier.{is_valid_identifier}
use encrypt_chat_app.Websocket.Json.{Json, Fields}
use encrypt_chat_app.Websocket.Lifecycle.{connection_ready, provisional_id}
use encrypt_chat_app.Websocket.Limits.{class_defaults}
use encrypt_chat_app.Websocket.Loop.{notify, on_frame, resume}
use encrypt_chat_app.Websocket.Manager.{ConnectionManager, admit}
use encrypt_chat_app.Websocket.Manager
use encrypt_chat_app.Websocket.Protocol.{auth_authenticate, message_send}
use encrypt_chat_app.Websocket.Schemas.{loaded, Parsers, InboundEnvelope, Timestamp}
use encrypt_chat_app.Websocket.Server.{Server, start, move, after_round, accepting, serving}

abbrev pub alice : AuthenticatedIdentity
alice = record { user_id = codes "u1"; username = codes "alice"; session_id = codes "s1" }

abbrev pub sample_token : Text
sample_token = codes "token"

-- The one token that the service knows is Alice's.
abbrev pub ResolvesSample : Text → AuthenticatedIdentity → Type 0
ResolvesSample token identity = (token ≡ sample_token) × (identity ≡ alice)

abbrev pub noon : Timestamp
noon = record { instant = 12; has_timezone = true }

abbrev pub sample_payload : Fields
sample_payload = Fields.field (codes "access_token") (Json.str sample_token) Fields.end

-- A frame of the given type.
abbrev pub sample_fields : Text → Fields
sample_fields type = Fields.field (codes "version") (Json.str (codes "1")) (
    Fields.field (codes "message_id") (Json.str (codes "7")) (
      Fields.field (codes "type") (Json.str type) (
        Fields.field (codes "sender") (Json.str (codes "alice")) (
          Fields.field (codes "timestamp") (Json.str (codes "noon"))
            (Fields.field (codes "payload") (Json.obj sample_payload) Fields.end)))))

-- The text of a frame is its type.
abbrev pub sample_parsers : Parsers
sample_parsers = record {
  json_loads = λ raw. loaded (Json.obj (sample_fields raw));
  uuid = λ raw. some 7;
  uuid_field = λ v. some 7;
  datetime_field = λ v. some noon;
  dollar_before_newline = true;
}

abbrev pub sample_envelope : InboundEnvelope
sample_envelope = record {
  message_id = 7;
  type = auth_authenticate;
  sender = codes "alice";
  recipient = none;
  timestamp = noon;
  payload = sample_payload;
}

-- The server after connection 1 has opened, has sent its token, and has been authenticated.
abbrev pub registered_manager : ConnectionManager
registered_manager = admit (Manager.init class_defaults) 1 (provisional_id (codes "f00")) none 0 0

abbrev pub opened_manager : ConnectionManager
opened_manager = notify registered_manager 1 (connection_ready class_defaults 1)

abbrev pub arriving : Server
arriving = move (start class_defaults) 1 registered_manager accepting

abbrev pub connected : Server
connected = move arriving 1 opened_manager serving

abbrev pub asked : Server
asked =
    let (m, next) = on_frame sample_parsers connected.manager 1 (codes "auth.authenticate") 5 5 in
    after_round connected 1 m next

abbrev pub known : Server
known =
    let (m, next) = resume asked.manager 1 sample_envelope (some alice) in
    after_round asked 1 m next

-- What Alice sends next.
abbrev pub sample_message : InboundEnvelope
sample_message = record sample_envelope { type = message_send }
