-- ===== src/Server.antt =====
-- The JSON listener of the server (src/trx-server/src/listener.rs): its lines, its limit on
-- connections, and what it does with a line.
pub mod Lines
pub mod Connections
pub mod Requests
