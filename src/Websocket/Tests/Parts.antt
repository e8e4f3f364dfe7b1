-- ===== src/Websocket/Tests/Parts.antt =====
-- The parts of the transport on their own: limits, rate limiter, offline queue, protocol names and
-- identifiers.
use encrypt_chat_app.Base.{
  List, [], arith, codes, false, if◌then◌else◌, none, refl, some, text_eq, ℕ, ◌*◌, ◌++◌, ◌∷◌, ◌≡◌,
  ◌≤◌,
}
use encrypt_chat_app.Environ.{Environ}
use encrypt_chat_app.Websocket.Tests.{sample_parsers, sample_message, opened_manager}
use encrypt_chat_app.Websocket.Context.{authenticate, routing_identity}
use encrypt_chat_app.Websocket.Errors.{sender_mismatch}
use encrypt_chat_app.Websocket.Manager.{ConnectionManager, bind_identity}
use encrypt_chat_app.Websocket.Messages.{error}
use encrypt_chat_app.Websocket.Protocol.{message_send, message_type, rejected}
use encrypt_chat_app.Websocket.Queue.{OfflineQueue, enqueue, drain}
use encrypt_chat_app.Websocket.Queue
use encrypt_chat_app.Websocket.Queue.Contents.{contents, enqueue-contents}
use encrypt_chat_app.Websocket.RateLimiter.{RateLimiter}
use encrypt_chat_app.Websocket.RateLimiter.Windows.{Within, accepted, accepted-le-twice}
use encrypt_chat_app.Websocket.Routing.{handle_message_send, ack}
use encrypt_chat_app.Websocket.Routing.Mismatch.{unspeakable-rejected}
use encrypt_chat_app.Websocket.Validation.{validate_inbound, validate_object}
use encrypt_chat_app.Websocket.Json.{get, all_keys}
use encrypt_chat_app.Websocket.Schemas.{
  model_validate, identifier_field, recipient_field, timestamp_field, version_field, type_field,
  payload_field,
}
use encrypt_chat_app.Websocket.Identifier.{
  chop, matches_pattern, is_valid_identifier, all_identifier_chars,
}

-- Two variables are set, to a wildcard and to a negative number.
abbrev sample_environ : Environ
sample_environ = record {
  get = λ name. if text_eq name (codes "WS_ALLOWED_ORIGINS") then some (codes "*") else none;
  strip = λ s. s;
  int = λ s. none;
  float = λ s. none;
}

abbrev two_per_second : RateLimiter
two_per_second = record {
  max_messages = 2;
  window_seconds = 1000;
  window_started_at = 0;
  count = 0;
}

abbrev arrivals : List ℕ
arrivals = 900 ∷ 950 ∷ 960 ∷ 1100 ∷ 1200 ∷ []

arrivals-Within : Within 900 1000 arrivals
arrivals-Within = (
  (omega arith, omega arith),
  (
    (omega arith, omega arith),
    ((omega arith, omega arith), ((omega arith, omega arith), ((omega arith, omega arith), tt))),
  ),
)

accepted-le-twice_example : accepted two_per_second arrivals ≤ 2 * 2
accepted-le-twice_example = accepted-le-twice 900 two_per_second arrivals arrivals-Within

abbrev empty_queue : OfflineQueue ℕ
empty_queue = Queue.init 2 2

abbrev bobs : OfflineQueue ℕ
bobs = (enqueue empty_queue (codes "bob") 5).0

enqueue-contents_example : contents (enqueue bobs (codes "bob") 6).0 (codes "bob") ≡ (
    if (enqueue bobs (codes "bob") 6).1
    then (if text_eq (codes "bob") (codes "bob")
        then contents bobs (codes "bob") ++ 6 ∷ []
        else contents bobs (codes "bob"))
    else contents bobs (codes "bob"))
enqueue-contents_example = enqueue-contents bobs (codes "bob") (codes "bob") 6

parsed_sample : message_type (codes "message.send") ≡ some message_send
unfolding message_type text_eq
parsed_sample = refl

-- The connection of an account whose name has a capital letter.
abbrev capital : ConnectionManager
capital = bind_identity opened_manager 1 (codes "u2") (codes "Bob") (codes "s2")

unmatched_sample :
    matches_pattern sample_parsers.dollar_before_newline (routing_identity (capital.heap 1)) ≡ false
unfolding bind_identity matches_pattern chop is_valid_identifier authenticate
unmatched_sample = refl

valid_sample :
    validate_inbound sample_parsers (capital.heap 1) (codes "message.send")
    ≡ some (some sample_message, [])
unfolding bind_identity validate_inbound validate_object get text_eq message_type authenticate
    model_validate all_keys version_field type_field identifier_field matches_pattern
    is_valid_identifier all_identifier_chars recipient_field timestamp_field payload_field
valid_sample = refl

unspeakable-rejected_example :
    handle_message_send capital 1 sample_message
    ≡ (capital, error sender_mismatch (some 7) ∷ ack sample_message rejected ∷ [])
unspeakable-rejected_example =
    unspeakable-rejected sample_parsers capital 1 (codes "message.send") sample_message []
      unmatched_sample valid_sample
