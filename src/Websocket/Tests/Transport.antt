-- ===== src/Websocket/Tests/Transport.antt =====
-- Routing, forwarding and the registry at the connection of the examples.
use encrypt_chat_app.Base.{
  Text, add, arith, codes, contains, false, insert, length, lookup, none, refl, some, sym, text_eq,
  text_eq_iff, true, ℕ, ◌+◌, ◌↔◌, ◌≡◌, ◌≢◌,
}
use encrypt_chat_app.Websocket.Tests.{
  alice, ResolvesSample, sample_parsers, sample_envelope, sample_message, connected, known,
  opened_manager,
}
use encrypt_chat_app.Websocket.Tests.Session.{known_reached, connected_reached}
use encrypt_chat_app.Websocket.Limits.{class_defaults}
use encrypt_chat_app.Websocket.Lifecycle.{provisional_id}
use encrypt_chat_app.Websocket.Loop.{notify, on_frame, resume}
use encrypt_chat_app.Websocket.Loop.Isolation.{Untouched, Confined, round-isolated}
use encrypt_chat_app.Websocket.Context.{routing_identity, enqueue_outbound}
use encrypt_chat_app.Websocket.Errors.{auth_required}
use encrypt_chat_app.Websocket.Messages.{OutboundMessage, error}
use encrypt_chat_app.Websocket.Manager
use encrypt_chat_app.Websocket.Manager.{
  index_add, ConnectionManager, ids_of, new_context, bind_identity, unregister, register,
  deliver_to_client, is_connected, admit,
}
use encrypt_chat_app.Websocket.Manager.Registry.{IsRegistry}
use encrypt_chat_app.Websocket.Manager.Delivery.{serves, deliver_to_client-accepted}
use encrypt_chat_app.Websocket.Manager.Binding.{bind_identity-unlimited}
use encrypt_chat_app.Websocket.Routing.{route_message}
use encrypt_chat_app.Websocket.Routing.Statuses.{Meaning, route_message-Meaning}
use encrypt_chat_app.Websocket.Server.Promises.{reached-IsRegistry}
use encrypt_chat_app.Websocket.Validation.{validate_inbound}
use encrypt_chat_app.Websocket.Validation.Gate.{Judged, validate_inbound-Judged}

opened-IsRegistry : IsRegistry opened_manager
opened-IsRegistry =
    reached-IsRegistry sample_parsers ResolvesSample class_defaults connected connected_reached

known-IsRegistry : IsRegistry known.manager
known-IsRegistry =
    reached-IsRegistry sample_parsers ResolvesSample class_defaults known known_reached

abbrev bob : Text
bob = codes "bob"

abbrev provisional : Text
provisional = provisional_id (codes "f00")

route_message-Meaning_example :
    Meaning known.manager 1 sample_message bob
      (route_message known.manager 1 sample_message bob).0
      (route_message known.manager 1 sample_message bob).1
route_message-Meaning_example =
    route_message-Meaning known.manager 1 sample_message bob known-IsRegistry

unknown_sample : (opened_manager.heap 1).authenticated ≡ false
unfolding notify enqueue_outbound new_context Manager.init
unknown_sample = refl

round-isolated_example :
    Untouched 1 opened_manager
      (on_frame sample_parsers opened_manager 1 (codes "auth.authenticate") 5 5).0
    × Confined 1
        (codes "alice")
        opened_manager
        (resume opened_manager 1 sample_envelope (some alice)).0
round-isolated_example =
    round-isolated sample_parsers opened_manager opened_manager 1 (codes "auth.authenticate") 5 5
      sample_envelope (some alice) unknown_sample

validate_inbound-Judged_example :
    Judged sample_parsers
      (opened_manager.heap 1)
      (codes "message.send")
      (validate_inbound sample_parsers (opened_manager.heap 1) (codes "message.send"))
validate_inbound-Judged_example =
    validate_inbound-Judged sample_parsers (opened_manager.heap 1) (codes "message.send")

abbrev message : OutboundMessage
message = error auth_required none

deliver_to_client-accepted_example :
    ((deliver_to_client opened_manager provisional message).1 ≡ true) ↔ (
      (i : ℕ) × (serves opened_manager provisional i ≡ true)
      × ((enqueue_outbound (opened_manager.heap i) message).1 ≡ true))
deliver_to_client-accepted_example =
    deliver_to_client-accepted opened_manager provisional message opened-IsRegistry

other_name : codes "alice" ≢ routing_identity (opened_manager.heap 1)
unfolding notify enqueue_outbound new_context text_eq Manager.init
other_name h = absurd (ground (arith, (text_eq_iff (codes "alice") provisional).1 h))

new_name : contains 1 (ids_of (codes "alice") opened_manager.by_client) ≡ false
unfolding notify Manager.init contains ids_of lookup index_add insert text_eq
new_name = refl

bind_identity-unlimited_example :
    length (
      ids_of
        (codes "alice")
        (bind_identity opened_manager 1 (codes "u1") (codes "alice") (codes "s1")).by_client)
    ≡ length (ids_of (codes "alice") opened_manager.by_client) + 1
bind_identity-unlimited_example =
    bind_identity-unlimited opened_manager 1 (codes "u1") (codes "alice") (codes "s1")
      (λ h. other_name (sym h)) new_name

registered_sample : contains 1 opened_manager.connections ≡ true
unfolding notify Manager.init contains add
registered_sample = refl

unregistered_sample : contains 2 opened_manager.connections ≡ false
unfolding notify Manager.init contains add
unregistered_sample = refl
