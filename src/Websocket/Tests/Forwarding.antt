-- ===== src/Websocket/Tests/Forwarding.antt =====
-- A message that waits while the server goes on.
use encrypt_chat_app.Base.{
  List, [], arith, codes, inr, insert, length, lookup, refl, some, suc, text_eq, ◌++◌, ◌∷◌, ◌≡◌,
}
use encrypt_chat_app.Websocket.Limits.{class_defaults}
use encrypt_chat_app.Websocket.Context.{enqueue_outbound}
use encrypt_chat_app.Websocket.Lifecycle.{write_next}
use encrypt_chat_app.Websocket.Loop.{receive, notify, resume, respond}
use encrypt_chat_app.Websocket.Loop.Forwarding.{Takes, ready}
use encrypt_chat_app.Websocket.Manager
use encrypt_chat_app.Websocket.Manager.{new_context, is_connected, ids_of, index_add}
use encrypt_chat_app.Websocket.Messages.{OutboundMessage}
use encrypt_chat_app.Websocket.Protocol.{queued}
use encrypt_chat_app.Websocket.Queue
use encrypt_chat_app.Websocket.Queue.Contents.{contents}
use encrypt_chat_app.Websocket.Routing.{route_message, receipt_of}
use encrypt_chat_app.Websocket.Server.{Server, Reach, here, next, writes}
use encrypt_chat_app.Websocket.Server.Forwarding.{sent_by, store_and_forward}
use encrypt_chat_app.Websocket.Server.Promises.{reached-IsRegistry}
use encrypt_chat_app.Websocket.Server.Waiting.{ResolvesOther}
use encrypt_chat_app.Websocket.Tests.{
  alice, ResolvesSample, sample_parsers, sample_envelope, sample_message, connected,
}
use encrypt_chat_app.Websocket.Tests.Session.{connected_reached}

queued_for_alice : (route_message connected.manager 1 sample_message (codes "alice")).1 ≡ queued
unfolding route_message is_connected Manager.init Queue.init Queue.enqueue ids_of lookup notify
    index_add insert text_eq
queued_for_alice = refl

abbrev sent : Server
sent = sent_by sample_parsers ResolvesSample connected 1 sample_message (codes "alice") []

-- Then the writer sends the greeting.
abbrev written : Server
written = record sent { manager = (write_next sent.manager 1).0 }

written_reached :
    Reach sample_parsers (ResolvesOther (codes "alice") sample_parsers ResolvesSample) sent written
written_reached = next here (writes 1 refl)

written-Takes :
    Takes
      (written.manager.heap 1)
      (suc (length (contents written.manager.offline_queue (codes "alice"))))
unfolding notify enqueue_outbound new_context contents Manager.init Queue.init lookup route_message
    is_connected Queue.enqueue ids_of index_add insert text_eq respond write_next
written-Takes = (refl, inr (omega arith))

store_and_forward_example :
    (later : List OutboundMessage) × ((resume written.manager 1 sample_envelope (some alice)).1
      ≡ receive)
    × (((resume written.manager 1 sample_envelope (some alice)).0.heap 1).outbound.items
        ≡ (written.manager.heap 1).outbound.items
          ++ ready sample_envelope alice
            ∷ ((contents connected.manager.offline_queue (codes "alice")
                  ++ receipt_of connected.manager 1 sample_message (codes "alice") ∷ [])
                ++ later))
store_and_forward_example =
    store_and_forward sample_parsers ResolvesSample connected written 1 1 sample_message
      sample_envelope alice []
      (reached-IsRegistry sample_parsers ResolvesSample class_defaults connected connected_reached)
      queued_for_alice written_reached written-Takes
