-- ===== src/Websocket.antt =====
-- server/app/websocket: the WebSocket transport, a module for each part of the package.
pub mod Protocol
pub mod Errors
pub mod Json
pub mod Identifier
pub mod Schemas
pub mod Messages
pub mod Limits
pub mod RateLimiter
pub mod Queue
pub mod Context
pub mod Manager
pub mod Validation
pub mod Routing
pub mod Authentication
pub mod Loop
pub mod Lifecycle
pub mod Server
mod Tests
