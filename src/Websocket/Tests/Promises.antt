-- ===== src/Websocket/Tests/Promises.antt =====
-- The promises of the server at the session of the examples.
use encrypt_chat_app.Base.{All, add, arith, codes, contains, length, refl, true, ◌*◌, ◌≡◌, ◌≤◌}
use encrypt_chat_app.Websocket.Tests.{notify, ResolvesSample, sample_parsers, connected, known}
use encrypt_chat_app.Websocket.Tests.Session.{lost, lost_reached, known_reached, connected_reached}
use encrypt_chat_app.Websocket.Loop.{notify}
use encrypt_chat_app.Websocket.Limits.{class_defaults}
use encrypt_chat_app.Websocket.Context.{enqueue_outbound, routing_identity}
use encrypt_chat_app.Websocket.Manager
use encrypt_chat_app.Websocket.Manager.{new_context}
use encrypt_chat_app.Websocket.Manager.Registry.{IsRegistry}
use encrypt_chat_app.Websocket.Queue.{total_queued}
use encrypt_chat_app.Websocket.Queue.Contents.{contents}
use encrypt_chat_app.Websocket.Server.Sound.{IsMail, IsQueued, IsIdentified}
use encrypt_chat_app.Websocket.Server.Limits.{connections-bounded}
use encrypt_chat_app.Websocket.Server.Queues.{outbound-bounded}
use encrypt_chat_app.Websocket.Server.Promises.{
  abandoned-registered, reached-IsIdentified, outbound-IsMail, offline-IsQueued, reached-IsRegistry,
  offline-bounded,
}

reached-IsIdentified_example : IsIdentified ResolvesSample (known.manager.heap 1)
reached-IsIdentified_example =
    reached-IsIdentified sample_parsers ResolvesSample class_defaults known 1 known_reached

outbound-IsMail_example :
    All
      (IsMail ResolvesSample
        (routing_identity (known.manager.heap 1))
        (known.manager.heap 1).transport_client_id)
      (known.manager.heap 1).outbound.items
outbound-IsMail_example =
    outbound-IsMail sample_parsers ResolvesSample class_defaults known 1 known_reached

offline-IsQueued_example :
    All
      (IsQueued ResolvesSample (codes "alice"))
      (contents known.manager.offline_queue (codes "alice"))
offline-IsQueued_example =
    offline-IsQueued sample_parsers ResolvesSample class_defaults known (codes "alice")
      known_reached

reached-IsRegistry_example : IsRegistry known.manager
reached-IsRegistry_example =
    reached-IsRegistry sample_parsers ResolvesSample class_defaults known known_reached

outbound-bounded_example :
    length (connected.manager.heap 1).outbound.items ≤ class_defaults.max_pending_outbound
unfolding enqueue_outbound notify new_context Manager.init contains add
outbound-bounded_example =
    outbound-bounded sample_parsers ResolvesSample class_defaults connected 1 connected_reached refl
      (omega arith)

offline-bounded_example :
    total_queued known.manager.offline_queue
    ≤ known.manager.offline_queue.max_per_recipient * known.manager.offline_queue.max_recipients
offline-bounded_example =
    offline-bounded sample_parsers ResolvesSample class_defaults known known_reached

abandoned-registered_example : contains 1 lost.manager.connections ≡ true
abandoned-registered_example =
    abandoned-registered sample_parsers ResolvesSample class_defaults lost 1 lost_reached refl

connections-bounded_example :
    length known.manager.connections ≤ class_defaults.max_total_connections
connections-bounded_example =
    connections-bounded sample_parsers ResolvesSample class_defaults known known_reached
