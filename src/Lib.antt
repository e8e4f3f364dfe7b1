-- ===== src/Lib.antt =====
-- The WebSocket transport of the encrypted chat server (server/app/websocket), a single process in
-- which each connection has a coroutine that validates frames, authenticates, and routes messages
-- through a shared manager to other connections or to an offline queue; and its accounts
-- (server/app/auth), which are registered, logged in, refreshed, logged out and deleted over HTTP.
--
-- Base: booleans by tests, lists, texts as lists of code points, dictionaries as association lists,
-- sets of ids. Environ: environment variables with int, float and strip as parameters.
-- Websocket.Protocol: server/app/websocket/protocol.py, the message types and their sets.
-- Websocket.Errors: server/app/websocket/errors.py, error and close codes.
-- Websocket.Json, Identifier, Schemas, Messages: server/app/websocket/schemas.py. `Parsers` has what
-- the code takes from json, uuid and pydantic: any functions will do, no law of them is assumed.
-- `json_loads` may raise an exception that the code does not catch, which ends the receive loop.
-- Websocket.Limits, RateLimiter: server/app/websocket/limits.py, TransportLimits with the readers of
-- the environment, and RateLimiter.allow.
-- Websocket.Queue: server/app/websocket/queue.py, OfflineQueue, for any type of envelopes.
-- Websocket.Context, Manager: server/app/websocket/manager.py, ConnectionContext with its outbound
-- queue, and ConnectionManager. The contexts stand on a heap under their connection ids, so that the
-- registry, the index by client and the coroutines share one object.
-- Websocket.Validation, Routing, Authentication, Loop, Lifecycle: server/app/websocket/endpoint.py.
-- `_validate_inbound` is validate_inbound; `_route_message`, `_handle_message_send` and
-- `_handle_privileged` keep their names; `_authenticate_connection` is begin_authentication before its
-- await and finish_authentication after it; a round of `_receive_loop` is on_frame, and resume after
-- that await; `websocket_transport` is open_connection up to the await of `accept`, then
-- greet, begin_close and end_close; an iteration of
-- `_writer_loop` is write_next.
-- Websocket.Server: all coroutines over one manager. A step is the code of one coroutine between two
-- awaits, so every interleaving of the event loop is a sequence of steps. `Resolves` relates access
-- tokens to the identities that `AuthService.resolve_access_token` may return for them;
-- Websocket.Server.Accounts puts the calls of Auth.Service for it, on a database that the requests for
-- accounts change between the steps of the transport.
-- Auth.Errors, Config, Schemas: errors.py, config.py and schemas.py of server/app/auth.
-- Auth.FailedLogins: server/app/auth/rate_limit.py, FailedLoginTracker, with History for sequences of
-- its calls. Auth.Identifiers: server/app/auth/identifiers.py, with NFKC, strip and casefold as
-- parameters. Auth.Passwords: server/app/auth/password.py over argon2-cffi. Auth.Tokens:
-- server/app/auth/tokens.py over PyJWT and SHA-256.
-- Auth.Models, Database, Repository: server/app/auth/models.py and repository.py. `Database` is the
-- interface of what the repositories ask of SQLAlchemy, `IsDatabase` its laws, which
-- Auth.Database.Memory satisfies. The unique columns of an account are those of the model (`conflicts`),
-- and `keeps_timezone` says whether the driver reads a `datetime` back with its time zone: SQLite's
-- does not, and to compare such an `expires_at` with the time is a TypeError.
-- Auth.Service: server/app/auth/service.py, AuthService, whose methods keep their names. A method takes
-- the database and a record of what it draws from clocks and random generators, and gives the outcome
-- (returned, an AuthError, or an exception that the package does not foresee) with the database.
-- Auth.Dependencies, Responses, Routes: server/app/auth/dependencies.py and routes.py, and the exception
-- handlers of server/app/main.py. `serve` takes a request to its response; `finish` is the commit or
-- the rollback of `get_db`; `Framework` has what FastAPI does with what a handler returns.
-- Websocket.Tests, Auth.Tests: sessions of both parts, and the theorems at them.
--
-- Times are whole ticks, 1000 to a second, and a comparison of a difference of times has the
-- subtraction moved to the other side. Connection ids are natural numbers: an operation that draws a
-- `uuid4` takes the id, and a connection opens only under one that no connection has had. There is no
-- fuel: each loop is a step relation or a recursion on a list.
--
-- The transaction of a request is one step: requests do not interleave in the database. A flush is read
-- back as it was written, but for the time zone of `expires_at`, the only time that is compared after
-- it has been stored; times stay in the range of `datetime`. Ids that a theorem needs to be
-- new are a hypothesis of it. A library is lawful when it satisfies the laws that stand beside its
-- interface: IsDatabase, IsJwt, IsArgon2, IsFramework.
--
-- Not modelled: logging; the JSON form of messages and bodies; the sockets themselves; the order of the
-- awaits of two requests to the accounts; slowapi, of which a request has the verdict; the assembly
-- of the FastAPI application and the SQLAlchemy engine and schema.
pub mod Base
pub mod Environ
pub mod Auth
pub mod Websocket
