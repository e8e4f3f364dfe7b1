-- ===== src/Auth/Tests.antt =====
-- The service and the routes on a database in memory, with plain stand-ins for the libraries.
mod Codec
mod Sample
mod Accounts
mod Sessions
mod Guesses
mod Spelling
mod Requests
