-- ===== src/Auth.antt =====
-- The authentication of the HTTP frontend
-- (src/trx-client/trx-frontend/trx-frontend-http/src/auth.rs). Both clocks are numbers that the
-- caller passes, and the identifier of a new session, 128 random bits in hex, is an argument too.
-- A lock is taken for the whole of an operation, so an operation is one step on the state.
pub mod Dict
pub mod Passphrase
pub mod Session
pub mod Limiter
pub mod Routes
pub mod Endpoints
