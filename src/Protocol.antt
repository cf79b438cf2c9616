-- ===== src/Protocol.antt =====
-- What client and server speak (src/trx-protocol/src): texts, tokens, mode names, the mapping of
-- client commands to rig commands, and the registry of decoders.
pub mod Text
pub mod Token
pub mod Mode
pub mod Command
pub mod Decoders
