-- ===== src/Websocket/Tests/Session.antt =====
-- The session of the examples is reachable.
use encrypt_chat_app.Base.{Text, codes, lookup, none, refl, some, text_eq, ◌≡◌}
use encrypt_chat_app.Websocket.Tests.{
  registered_manager, arriving, connected, alice, sample_token, ResolvesSample, sample_envelope,
  sample_parsers, asked, known, opened_manager,
}
use encrypt_chat_app.Websocket.Errors.{normal}
use encrypt_chat_app.Websocket.Limits.{class_defaults}
use encrypt_chat_app.Websocket.Server.{
  accepts, accept_fails, abandoned, closed, closing, move, finishes, disconnects, Server, start,
  Reach, here, next, connects, receives, resolves, awaiting,
}
use encrypt_chat_app.Websocket.Manager
use encrypt_chat_app.Websocket.Manager.{register, ids_of, new_context}
use encrypt_chat_app.Websocket.RateLimiter
use encrypt_chat_app.Websocket.Limits.{is_origin_allowed}
use encrypt_chat_app.Websocket.Loop.{on_frame, notify, dispatch}
use encrypt_chat_app.Websocket.Context.{touch, enqueue_outbound}
use encrypt_chat_app.Websocket.Validation.{validate_inbound, validate_object, extract_message_id}
use encrypt_chat_app.Websocket.Json.{get, all_keys}
use encrypt_chat_app.Websocket.Protocol.{message_type}
use encrypt_chat_app.Websocket.Schemas.{
  model_validate, identifier_field, recipient_field, timestamp_field, version_field, type_field,
  payload_field,
}
use encrypt_chat_app.Websocket.Authentication.{AuthenticatedIdentity, begin_authentication}
use encrypt_chat_app.Websocket.Identifier.{
  matches_pattern, is_valid_identifier, all_identifier_chars,
}
use encrypt_chat_app.Websocket.Lifecycle.{greet, begin_close, end_close, open_connection, opened}

pub opened_sample :
    open_connection (start class_defaults).manager 1 (codes "f00") none none 0 0
    ≡ opened registered_manager
unfolding open_connection is_origin_allowed Manager.init register ids_of lookup
opened_sample = refl

pub asked_sample : asked.phase 1 ≡ awaiting sample_envelope sample_token
unfolding on_frame notify Manager.init RateLimiter.allow touch enqueue_outbound new_context
    validate_inbound validate_object extract_message_id get text_eq message_type model_validate
    all_keys identifier_field matches_pattern recipient_field timestamp_field version_field
    type_field payload_field dispatch begin_authentication is_valid_identifier all_identifier_chars
asked_sample = refl

pub arriving_reached : Reach sample_parsers ResolvesSample (start class_defaults) arriving
arriving_reached =
    next here (connects 1 (codes "f00") none none 0 0 registered_manager refl opened_sample refl)

pub connected_reached : Reach sample_parsers ResolvesSample (start class_defaults) connected
unfolding greet Manager.init
connected_reached = next arriving_reached (accepts 1 refl refl)

-- Whatever else the tokens resolve to.
pub reached_by :
    (Resolves : Text → AuthenticatedIdentity → Type 0)
    → Resolves sample_token alice
    → Reach sample_parsers Resolves (start class_defaults) known
unfolding greet Manager.init
reached_by Resolves resolved =
    let arrived : Reach sample_parsers Resolves (start class_defaults) arriving =
      next here
        (connects 1 (codes "f00") none none 0 0 registered_manager refl opened_sample refl) in
    let served : Reach sample_parsers Resolves (start class_defaults) connected =
      next arrived (accepts 1 refl refl) in
    next (next served (receives 1 (codes "auth.authenticate") 5 5 refl refl))
      (resolves 1 sample_envelope sample_token (some alice) asked_sample resolved refl)

pub known_reached : Reach sample_parsers ResolvesSample (start class_defaults) known
known_reached = reached_by ResolvesSample (refl, refl)

-- The client is gone before its connection is accepted.
abbrev pub lost : Server
lost = move arriving 1 registered_manager abandoned

pub lost_reached : Reach sample_parsers ResolvesSample (start class_defaults) lost
lost_reached = next arriving_reached (accept_fails 1 refl refl)

abbrev pub ended : Server
ended =
    move (move connected 1 (begin_close opened_manager 1) (closing normal)) 1
      (end_close (begin_close opened_manager 1) 1) (closed normal)

pub ended_reached : Reach sample_parsers ResolvesSample (start class_defaults) ended
ended_reached =
    next (next connected_reached (disconnects 1 refl refl)) (finishes 1 normal refl refl)
