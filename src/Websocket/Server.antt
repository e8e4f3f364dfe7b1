-- ===== src/Websocket/Server.antt =====
-- The server as the event loop runs it: the coroutines of all connections over one manager, each
-- step the code of one coroutine between two awaits.
pub mod Sound
pub mod Routing
pub mod Binding
pub mod Rounds
pub mod Stays
pub mod Closing
pub mod Reachable
pub mod Safety
pub mod Promises
pub mod Limits
pub mod Queues
pub mod Monotone
pub mod Waiting
pub mod Forwarding
pub mod Accounts
use encrypt_chat_app.Base.{Option, Text, if◌then◌else◌, none, some, ℕ, ◌==◌, ◌≡◌}
use encrypt_chat_app.Websocket.Authentication.{AuthenticatedIdentity}
use encrypt_chat_app.Websocket.Errors.{CloseCode, normal}
use encrypt_chat_app.Websocket.Lifecycle.{
  greet, opened, open_connection, begin_close, end_close, write_next,
}
use encrypt_chat_app.Websocket.Limits.{TransportLimits}
use encrypt_chat_app.Websocket.Loop.{
  Next, receive, escape, close, resolve, on_timeout, on_frame, resume,
}
use encrypt_chat_app.Websocket.Manager.{ConnectionManager}
use encrypt_chat_app.Websocket.Manager
use encrypt_chat_app.Websocket.Schemas.{Parsers, InboundEnvelope}

-- Where the coroutine of a connection stands: in the await of `accept`, in the receive of `_receive_loop`, in the await of
-- `resolve_access_token`, in the flush of the `finally` block, or done; abandoned when `accept`
-- raised, which no `finally` block follows.
pub data Phase : Type 0 where
  unused accepting serving abandoned : Phase
  awaiting : InboundEnvelope → Text → Phase
  closing closed : CloseCode → Phase

pub record Server : Type 0 where
  pub manager : ConnectionManager
  pub phase : ℕ → Phase

abbrev pub start : TransportLimits → Server
start limits = record { manager = Manager.init limits; phase = λ id. unused }

abbrev pub move : Server → ℕ → ConnectionManager → Phase → Server
move s id m phase = record { manager = m; phase = λ i. if i == id then phase else s.phase i }

-- A return from the loop, or an exception in it, runs the start of the `finally` block at once: the
-- exception leaves `close_code` as it was.
abbrev pub after_round : Server → ℕ → ConnectionManager → Next → Server
after_round s id m receive = move s id m serving
after_round s id m escape = move s id (begin_close m id) (closing normal)
after_round s id m (close code) = move s id (begin_close m id) (closing code)
after_round s id m (resolve e token) = move s id m (awaiting e token)

-- `Resolves token identity`: the authentication service may resolve the token to the identity.
module _ (p : Parsers) (Resolves : Text → AuthenticatedIdentity → Type 0) where
  abbrev pub IsAnswer : Text → Option AuthenticatedIdentity → Type 0
  IsAnswer token none = Unit
  IsAnswer token (some identity) = Resolves token identity

  -- The id of a new connection is a fresh `uuid4`.
  pub data Step (s t : Server) : Type 0 where
    connects :
        (id : ℕ) (hex : Text) (origin host : Option Text) (now at : ℕ) (m : ConnectionManager)
        → s.phase id ≡ unused
        → open_connection s.manager id hex origin host now at ≡ opened m
        → t ≡ move s id m accepting
        → Step s t
    accepts :
        (id : ℕ) → s.phase id ≡ accepting → t ≡ move s id (greet s.manager id) serving → Step s t
    accept_fails : (id : ℕ) → s.phase id ≡ accepting → t ≡ move s id s.manager abandoned → Step s t
    receives :
        (id : ℕ) (raw_text : Text) (now server_time : ℕ)
        → s.phase id ≡ serving
        → t ≡ (
            let (m, next) = on_frame p s.manager id raw_text now server_time in
            after_round s id m next)
        → Step s t
    resolves :
        (id : ℕ) (e : InboundEnvelope) (token : Text) (answer : Option AuthenticatedIdentity)
        → s.phase id ≡ awaiting e token
        → IsAnswer token answer
        → t ≡ (let (m, next) = resume s.manager id e answer in after_round s id m next)
        → Step s t
    times_out :
        (id : ℕ)
        → s.phase id ≡ serving
        → t
          ≡ (let (m, code) = on_timeout s.manager id in move s id (begin_close m id) (closing code))
        → Step s t
    disconnects :
        (id : ℕ)
        → s.phase id ≡ serving
        → t ≡ move s id (begin_close s.manager id) (closing normal)
        → Step s t
    fails :
        (id : ℕ) (e : InboundEnvelope) (token : Text)
        → s.phase id ≡ awaiting e token
        → t ≡ move s id (begin_close s.manager id) (closing normal)
        → Step s t
    writes : (id : ℕ) → t ≡ record s { manager = (write_next s.manager id).0 } → Step s t
    finishes :
        (id : ℕ) (code : CloseCode)
        → s.phase id ≡ closing code
        → t ≡ move s id (end_close s.manager id) (closed code)
        → Step s t

  -- What the event loop may reach.
  pub data Reach (s : Server) : Server → Type 0 where
    here : Reach s s
    next : {t u : Server} → Reach s t → Step t u → Reach s u
