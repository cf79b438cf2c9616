-- ===== src/Ftx.antt =====
-- The FT8/FT4/FT2 decoder's discrete layers (src/decoders/trx-ftx/src/common): character tables
-- and numbers, the 14-bit checksum, and the table of callsign hashes.
pub mod Text
pub mod HashTable
pub mod Crc
pub mod Decimal
pub mod Message
