-- ===== src/Ftx/Crc.antt =====
-- src/decoders/trx-ftx/src/common/crc.rs: the 14-bit checksum of an FT8/FT4 message. Bytes are
-- lists of numbers below 256. Where `|` joins disjoint bit fields it is written as a sum, a mask of
-- low bits is a remainder, and `& 0xF8` clears the three low bits of a byte.
pub mod RoundTrip
use trx_rs.Common.{
  ℕ, zero, suc, ◌+◌, ◌*◌, ◌/◌, ◌%◌, ◌^◌, bit_xor, Bool, List, [], ◌∷◌, ◌++◌, ◌==◌, get_or, set,
  take, if◌then◌else◌,
}

-- FT8_CRC_POLYNOMIAL of protocol.rs
abbrev pub polynomial : ℕ
polynomial = 0x2757

-- one round of the loop, after a byte has been mixed in: TOPBIT is 1 << 13
crc_shift : ℕ → ℕ
crc_shift r = if r / 2 ^ 13 % 2 == 1 then bit_xor (r * 2 % 2 ^ 16) polynomial else r * 2 % 2 ^ 16

-- `left` rounds remain
unfoldable pub crc_loop : ℕ → List ℕ → ℕ → ℕ → ℕ → ℕ
unfolding crc_shift
crc_loop zero message idx_bit idx_byte r = r
crc_loop (suc left) message idx_bit idx_byte r =
    let mixes = idx_bit % 8 == 0 in
    let mixed = bit_xor r (get_or message idx_byte 0 * 2 ^ 6 % 2 ^ 16) in
    crc_loop left message (idx_bit + 1) (if mixes then idx_byte + 1 else idx_byte)
      (crc_shift (if mixes then mixed else r))

unfoldable pub ftx_compute_crc : List ℕ → ℕ → ℕ
ftx_compute_crc message num_bits = crc_loop num_bits message 0 0 0 % 2 ^ 14

unfoldable pub ftx_extract_crc : List ℕ → ℕ
ftx_extract_crc a91 =
    get_or a91 9 0 % 2 ^ 3 * 2 ^ 11 + get_or a91 10 0 * 2 ^ 3 + get_or a91 11 0 / 2 ^ 5

abbrev clear_low3 : ℕ → ℕ
clear_low3 b = b / 8 * 8

-- the three bytes behind the first nine: `& 0xF8` and the upper, middle and lower CRC bits
unfoldable pub ftx_add_crc : List ℕ → List ℕ → List ℕ
ftx_add_crc payload a91 =
    let head = take 9 payload in
    let ninth = clear_low3 (get_or payload 9 0) in
    let checksum = ftx_compute_crc (head ++ ninth ∷ 0 ∷ get_or a91 11 0 ∷ []) 82 in
    head
    ++ (ninth + checksum / 2 ^ 11 % 2 ^ 8)
      ∷ (checksum / 2 ^ 3 % 2 ^ 8)
      ∷ (checksum * 2 ^ 5 % 2 ^ 16 % 2 ^ 8)
      ∷ []

unfoldable pub ftx_check_crc : List ℕ → Bool
ftx_check_crc a91 =
    let temp = set (set a91 9 (clear_low3 (get_or a91 9 0))) 10 0 in
    ftx_extract_crc a91 == ftx_compute_crc temp 82
