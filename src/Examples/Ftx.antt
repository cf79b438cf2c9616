-- ===== src/Examples/Ftx.antt =====
-- The FT8 layers at concrete inputs, and the vectors of the unit tests.
use trx_rs.Common.{ℕ, ◌/◌, ◌^◌, ◌<◌, true, false, some, List, [], ◌∷◌, ◌≡◌, ◌≢◌, refl, arith}
use trx_rs.Ftx.Text.{full, nchar, fmtmsg}
use trx_rs.Ftx.HashTable.{
  table_size, hash22_of, hash22_bits, hash12_bits, shift, Place, find_place, home, new, add, Found,
  hit, miss, lookup, compute_callsign_hash,
}
use trx_rs.Ftx.HashTable.Probing.{probing_ends}
use trx_rs.Ftx.HashTable.Lookup.{lookup-add}
use trx_rs.Ftx.HashTable.Size.{new-WellFormed}
use trx_rs.Ftx.HashTable.Hash.{compute_callsign_hash-lt}
use trx_rs.Ftx.HashTable.Truncated.{lookup-truncated}
use trx_rs.Ftx.Crc.{crc_loop, ftx_compute_crc, ftx_extract_crc, ftx_add_crc, ftx_check_crc}
use trx_rs.Ftx.Crc.RoundTrip.{ftx_check_crc-ftx_add_crc}

question_mark : nchar b'?' full ≡ some 41
unfolding nchar
question_mark = refl

-- "cq  DX"
abbrev typed : List ℕ
typed = b'c' ∷ b'q' ∷ b' ' ∷ b' ' ∷ b'D' ∷ b'X' ∷ []

typed_formatted : fmtmsg typed ≡ b'C' ∷ b'Q' ∷ b' ' ∷ b'D' ∷ b'X' ∷ []
unfolding fmtmsg
typed_formatted = refl

abbrev w1aw : List ℕ
w1aw = b'W' ∷ b'1' ∷ b'A' ∷ b'W' ∷ []

abbrev k1abc : List ℕ
k1abc = b'K' ∷ b'1' ∷ b'A' ∷ b'B' ∷ b'C' ∷ []

-- two hashes with the same home slot
abbrev hash_a : ℕ
hash_a = 0x100

abbrev hash_b : ℕ
hash_b = 0x200

probing_ends_example :
    (find_place table_size new.entries hash_a (home hash_a) (home hash_a) ≢ Place.stuck)
    × (lookup hash22_bits hash_a new ≢ Found.stuck)
probing_ends_example = probing_ends new hash22_bits hash_a

lookup-add_example : lookup hash22_bits (hash22_of hash_a) (add w1aw hash_a new) ≡ hit w1aw
lookup-add_example = lookup-add new new-WellFormed.slots w1aw hash_a

one_free : (add w1aw hash_a new).size < table_size
unfolding add new find_place
one_free = omega arith

differ : hash_a ≢ hash22_of hash_b
differ = omega arith

w1aw_hash : compute_callsign_hash w1aw ≡ some 299915
unfolding compute_callsign_hash nchar
w1aw_hash = refl

compute_callsign_hash-lt_example : 299915 < 2 ^ 22
compute_callsign_hash-lt_example = compute_callsign_hash-lt w1aw w1aw_hash

other_home : home (hash22_of 299915 / 2 ^ shift hash12_bits) ≢ home (hash22_of 299915)
other_home = omega arith

lookup-truncated_example :
    lookup hash12_bits (hash22_of 299915 / 2 ^ shift hash12_bits) (add w1aw 299915 new) ≡ miss
lookup-truncated_example = lookup-truncated hash12_bits w1aw 299915 other_home

-- the payload of the unit test `crc_round_trip`
abbrev payload : List ℕ
payload = 0x12 ∷ 0x34 ∷ 0x56 ∷ 0x78 ∷ 0x9A ∷ 0xBC ∷ 0xDE ∷ 0xF0 ∷ 0x11 ∷ 0x20 ∷ []

ftx_check_crc-ftx_add_crc_example : ftx_check_crc (ftx_add_crc payload []) ≡ true
ftx_check_crc-ftx_add_crc_example = ftx_check_crc-ftx_add_crc payload [] (omega arith)

-- a message with no checksum fails
corrupted :
    ftx_check_crc (0x13 ∷ 0x34 ∷ 0x56 ∷ 0x78 ∷ 0x9A ∷ 0xBC ∷ 0xDE ∷ 0xF0 ∷ 0x11 ∷ 0x20 ∷ 0 ∷ 0 ∷ [])
    ≡ false
unfolding ftx_check_crc ftx_compute_crc ftx_extract_crc crc_loop
corrupted = refl
