-- ===== src/Auth.antt =====
-- The parts of server/app/auth.
pub mod FailedLogins
pub mod Identifiers
pub mod Errors
pub mod Config
pub mod Models
pub mod Passwords
pub mod Tokens
pub mod Database
pub mod Repository
pub mod Service
pub mod Schemas
pub mod Dependencies
pub mod Responses
pub mod Routes
mod Tests
