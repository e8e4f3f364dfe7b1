-- ===== src/Websocket/Server/Promises.antt =====
-- What holds in every state that the server reaches from its start.
use encrypt_chat_app.Base.{All, Text, contains, length, true, ℕ, ◌*◌, ◌<◌, ◌≡◌, ◌≤◌}
use encrypt_chat_app.Websocket.Authentication.{AuthenticatedIdentity}
use encrypt_chat_app.Websocket.Context.{routing_identity}
use encrypt_chat_app.Websocket.Limits.{TransportLimits}
use encrypt_chat_app.Websocket.Manager.Registry.{IsRegistry}
use encrypt_chat_app.Websocket.Queue.{total_queued}
use encrypt_chat_app.Websocket.Queue.Bounds.{total_queued-le}
use encrypt_chat_app.Websocket.Queue.Contents.{contents}
use encrypt_chat_app.Websocket.Schemas.{Parsers}
use encrypt_chat_app.Websocket.Server.{Server, start, Reach, abandoned}
use encrypt_chat_app.Websocket.Server.Reachable.{IsSafe, start-IsSafe, in_phase}
use encrypt_chat_app.Websocket.Server.Safety.{Reach-IsSafe}
use encrypt_chat_app.Websocket.Server.Sound.{IsMail, IsQueued, IsIdentified}

module _ (p : Parsers) (Resolves : Text → AuthenticatedIdentity → Type 0) where
  reached :
      (limits : TransportLimits) (s : Server)
      → Reach p Resolves (start limits) s
      → IsSafe Resolves s
  reached limits s r = Reach-IsSafe p Resolves (start limits) s (start-IsSafe Resolves limits) r

  -- In every reachable state, a context is either anonymous, or its user id, username and session
  -- id are together those of one identity that the authentication service resolves some token to.
  pub reached-IsIdentified :
      (limits : TransportLimits) (s : Server) (id : ℕ)
      → Reach p Resolves (start limits) s
      → IsIdentified Resolves (s.manager.heap id)
  reached-IsIdentified limits s id r = ((reached limits s r).sound.contexts id).identity

  -- In every reachable state, each receipt that waits in a connection's outbound queue has a
  -- sender that the authentication service vouches for, and is addressed to that connection's
  -- routing identity or to its provisional one.
  pub outbound-IsMail :
      (limits : TransportLimits) (s : Server) (id : ℕ)
      → Reach p Resolves (start limits) s
      → All
          (IsMail Resolves
            (routing_identity (s.manager.heap id))
            (s.manager.heap id).transport_client_id)
          (s.manager.heap id).outbound.items
  outbound-IsMail limits s id r = ((reached limits s r).sound.contexts id).mail

  -- In every reachable state, the offline queue holds under each name only receipts, which are
  -- addressed to that name and whose sender the authentication service vouches for.
  pub offline-IsQueued :
      (limits : TransportLimits) (s : Server) (name : Text)
      → Reach p Resolves (start limits) s
      → All (IsQueued Resolves name) (contents s.manager.offline_queue name)
  offline-IsQueued limits s name r = (reached limits s r).sound.queued name

  -- In every reachable state the registry is well-formed: an id stands in the index under a key
  -- exactly when it is registered and its context's routing identity is that key, no set is
  -- empty, no id stands twice, and no more connections are registered than the limit.
  pub reached-IsRegistry :
      (limits : TransportLimits) (s : Server)
      → Reach p Resolves (start limits) s
      → IsRegistry s.manager
  reached-IsRegistry limits s r = (reached limits s r).sound.registry

  pub reached-room :
      (limits : TransportLimits) (s : Server) (id : ℕ)
      → Reach p Resolves (start limits) s
      → 0 < (s.manager.heap id).outbound.maxsize
      → length (s.manager.heap id).outbound.items ≤ (s.manager.heap id).outbound.maxsize
  reached-room limits s id r = ((reached limits s r).sound.contexts id).room

  -- In every reachable state, the offline queue holds at most its bound per recipient times its
  -- bound on recipients.
  pub offline-bounded :
      (limits : TransportLimits) (s : Server)
      → Reach p Resolves (start limits) s
      → total_queued s.manager.offline_queue
        ≤ s.manager.offline_queue.max_per_recipient * s.manager.offline_queue.max_recipients
  offline-bounded limits s r =
      total_queued-le s.manager.offline_queue (reached limits s r).sound.bounded

  -- In every reachable state, a connection whose `accept` has failed is still registered.
  pub abandoned-registered :
      (limits : TransportLimits) (s : Server) (id : ℕ)
      → Reach p Resolves (start limits) s
      → s.phase id ≡ abandoned
      → contains id s.manager.connections ≡ true
  abandoned-registered limits s id r raised =
      in_phase Resolves s id abandoned (reached limits s r) raised
