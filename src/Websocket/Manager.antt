-- ===== src/Websocket/Manager.antt =====
-- server/app/websocket/manager.py: `ConnectionManager`. The context objects are shared between the
-- registry and the coroutines that serve them, so they stand on a heap, by their connection id; the
-- registry's dict holds ids. An id that was never registered points at a blank.
pub mod Binding
pub mod Index
pub mod Registry
pub mod Delivery
use encrypt_chat_app.Base.{
  Bool, Dict, List, Option, Text, [], add, contains, discard, erase, false, filter, if◌then◌else◌,
  insert, leb, length, lookup, none, some, text_eq, true, ℕ, ◌==◌, ◌||◌, ◌∷◌,
}
use encrypt_chat_app.Websocket.Context.{
  ConnectionContext, AsyncQueue, routing_identity, authenticate, enqueue_outbound, mark_closing,
  is_idle_for,
}
use encrypt_chat_app.Websocket.Limits.{TransportLimits}
use encrypt_chat_app.Websocket.Messages.{OutboundMessage}
use encrypt_chat_app.Websocket.Queue.{OfflineQueue}
use encrypt_chat_app.Websocket.Queue
use encrypt_chat_app.Websocket.RateLimiter

abbrev pub Heap : Type 0
Heap = ℕ → ConnectionContext

abbrev pub write : Heap → ℕ → ConnectionContext → Heap
write heap id c j = if id == j then c else heap j

pub record ConnectionManager : Type 0 where
  pub limits : TransportLimits
  pub heap : Heap
  pub connections : List ℕ
  pub by_client : Dict (List ℕ)
  pub offline_queue : OfflineQueue OutboundMessage

-- What an id that was never registered points at.
abbrev pub blank : ConnectionContext
blank = record {
  connection_id = 0;
  transport_client_id = [];
  connected_at = 0;
  outbound = record { maxsize = 0; items = [] };
  rate_limiter = RateLimiter.init 0 0;
  last_activity_monotonic = 0;
  authenticated = false;
  user_id = none;
  account_username = none;
  session_id = none;
  remote_host = none;
  closing = true;
}

unfoldable pub init : TransportLimits → ConnectionManager
init limits = record {
  limits = limits;
  heap = λ id. blank;
  connections = [];
  by_client = [];
  offline_queue = Queue.init limits.max_queued_per_recipient limits.max_queued_recipients;
}

-- `by_client.get(key, set())`
unfoldable pub ids_of : Text → Dict (List ℕ) → List ℕ
ids_of key by_client = elim (lookup key by_client) [ none ↦ [] | some ids ↦ ids ]

-- `by_client.setdefault(key, set()).add(id)`
unfoldable pub index_add : Text → ℕ → Dict (List ℕ) → Dict (List ℕ)
index_add key id by_client = insert key (add id (ids_of key by_client)) by_client

-- `del by_client[key]` for an empty set
abbrev pub put_back : Text → List ℕ → Dict (List ℕ) → Dict (List ℕ)
put_back key [] by_client = erase key by_client
put_back key (id ∷ ids) by_client = insert key (id ∷ ids) by_client

-- The discard of an id in `bind_identity` and `unregister`.
unfoldable pub index_discard : Text → ℕ → Dict (List ℕ) → Dict (List ℕ)
index_discard key id by_client = elim (lookup key by_client) [
  | none ↦ by_client
  | some ids ↦ put_back key (discard id ids) by_client
]

pub data ConnectionRejected : Type 0 where
  total_limit per_client_limit : ConnectionRejected

pub data Registration : Type 0 where
  registered : ConnectionManager → Registration
  refused : ConnectionRejected → Registration

-- The object that `register` makes. `id` is the `uuid4` drawn for it.
unfoldable pub new_context : TransportLimits → ℕ → Text → Option Text → ℕ → ℕ → ConnectionContext
new_context limits id transport_client_id remote_host now connected_at = record {
  connection_id = id;
  transport_client_id = transport_client_id;
  connected_at = connected_at;
  outbound = record { maxsize = limits.max_pending_outbound; items = [] };
  rate_limiter = RateLimiter.init limits.max_messages_per_window limits.rate_limit_window_seconds;
  last_activity_monotonic = now;
  authenticated = false;
  user_id = none;
  account_username = none;
  session_id = none;
  remote_host = remote_host;
  closing = false;
}

-- The registry with the new object in it.
abbrev pub admit : ConnectionManager → ℕ → Text → Option Text → ℕ → ℕ → ConnectionManager
admit m id transport_client_id remote_host now connected_at = record m {
  heap = write m.heap id (new_context m.limits id transport_client_id remote_host now connected_at);
  connections = add id m.connections;
  by_client = index_add transport_client_id id m.by_client;
}

unfoldable pub register : ConnectionManager → ℕ → Text → Option Text → ℕ → ℕ → Registration
register m id transport_client_id remote_host now connected_at =
    if leb m.limits.max_total_connections (length m.connections)
    then refused total_limit
    else if leb m.limits.max_connections_per_client
        (length (ids_of transport_client_id m.by_client))
    then refused per_client_limit
    else registered (admit m id transport_client_id remote_host now connected_at)

unfoldable pub bind_identity : ConnectionManager → ℕ → Text → Text → Text → ConnectionManager
bind_identity m id user_id username session_id =
    let previous = routing_identity (m.heap id) in
    record m {
      heap = write m.heap id (authenticate (m.heap id) user_id username session_id);
      by_client = index_add username id (index_discard previous id m.by_client);
    }

unfoldable pub connections_for_session : ConnectionManager → Text → List ℕ
connections_for_session m session_id =
    filter
      (λ id. elim (m.heap id).session_id [ none ↦ false | some bound ↦ text_eq bound session_id ])
      m.connections

-- The context that it returns is the object `id`, marked as closing; none if it was not registered.
unfoldable pub unregister : ConnectionManager → ℕ → ConnectionManager × Option ℕ
unregister m id =
    if contains id m.connections
    then (
      record m {
        heap = write m.heap id (mark_closing (m.heap id));
        connections = discard id m.connections;
        by_client = index_discard (routing_identity (m.heap id)) id m.by_client;
      },
      some id,
    )
    else (m, none)

unfoldable pub get : ConnectionManager → ℕ → Option ConnectionContext
get m id = if contains id m.connections then some (m.heap id) else none

-- The ids of the contexts that it returns.
unfoldable pub connections_for : ConnectionManager → Text → List ℕ
connections_for m client = filter (λ id. contains id m.connections) (ids_of client m.by_client)

abbrev pub is_nonempty : List ℕ → Bool
is_nonempty [] = false
is_nonempty (id ∷ ids) = true

unfoldable pub is_connected : ConnectionManager → Text → Bool
is_connected m client = is_nonempty (ids_of client m.by_client)

unfoldable pub connection_count : ConnectionManager → ℕ
connection_count m = length m.connections

unfoldable pub client_count : ConnectionManager → ℕ
client_count m = length m.by_client

-- `accepted = [target.enqueue_outbound(message) for target in targets]`, then `any(accepted)`.
unfoldable pub enqueue_each : Heap → List ℕ → OutboundMessage → Heap × Bool
enqueue_each heap [] message = (heap, false)
enqueue_each heap (id ∷ targets) message =
    let (context, accepted) = enqueue_outbound (heap id) message in
    let (heap', others) = enqueue_each (write heap id context) targets message in
    (heap', accepted || others)

unfoldable pub deliver_to_client :
    ConnectionManager → Text → OutboundMessage → ConnectionManager × Bool
deliver_to_client m client message =
    let (heap, delivered) = enqueue_each m.heap (connections_for m client) message in
    (record m { heap = heap }, delivered)

unfoldable pub stale_connections : ConnectionManager → ℕ → List ℕ
stale_connections m now =
    filter (λ id. is_idle_for (m.heap id) now m.limits.idle_timeout_seconds) m.connections

unfoldable pub reset : ConnectionManager → ConnectionManager
reset m = record m { connections = []; by_client = []; offline_queue = Queue.clear m.offline_queue }
