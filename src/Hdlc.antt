-- ===== src/Hdlc.antt =====
-- The link layer that the AIS and the APRS decoders share in form
-- (src/decoders/trx-ais/src/lib.rs and src/decoders/trx-aprs/src/lib.rs): NRZI decoding, flags and
-- bit stuffing, bytes from bits, and the CRC-16 of a frame. The demodulators before it work on
-- floats; the bits that they slice are the input here.
pub mod Stuffing
pub mod Bytes
pub mod Frames
pub mod RoundTrip
pub mod Abort
use trx_rs.Common.{
  ℕ, zero, suc, ◌+◌, ◌-◌, ◌*◌, ◌/◌, ◌%◌, ◌^◌, bit_xor, Bool, true, false, Option, none, some, List,
  [], ◌∷◌, ◌++◌, ltb, leb, ◌==◌, length, get_or, take, drop, replicate, if◌then◌else◌,
}

-- `CRC_CCITT_TABLE`, an entry at a time: eight shifts
crc_rounds : ℕ → ℕ → ℕ
crc_rounds zero crc = crc
crc_rounds (suc k) crc = crc_rounds k (if crc % 2 == 1 then bit_xor (crc / 2) 0x8408 else crc / 2)

crc_table : ℕ → ℕ
unfolding crc_rounds
crc_table i = crc_rounds 8 i

crc_bytes : ℕ → List ℕ → ℕ
crc_bytes crc [] = crc
crc_bytes crc (b ∷ bs) = crc_bytes (bit_xor (crc / 2 ^ 8) (crc_table (bit_xor crc b % 2 ^ 8))) bs

unfoldable pub crc16ccitt : List ℕ → ℕ
unfolding crc_bytes crc_table
crc16ccitt bytes = bit_xor (crc_bytes 0xFFFF bytes) 0xFFFF

-- the fields that both decoders keep for this layer
pub record Deframer (F : Type 0) : Type 0 where
  pub prev_bit : ℕ
  pub ones : ℕ  -- u32
  pub in_frame : Bool
  pub frame_bits : List ℕ
  pub frames : List F

-- as `new` and the resets leave it
abbrev pub idle : {F : Type 0} → Deframer F
idle = record { prev_bit = 0; ones = 0; in_frame = false; frame_bits = []; frames = [] }

abbrev pub push_frame : {F : Type 0} → List F → Option F → List F
push_frame fs none = fs
push_frame fs (some f) = fs ++ f ∷ []

-- a decoded zero, by the number of ones before it: an abort, a flag, a stuffed zero, or data
unfoldable pub on_zero : {F : Type 0} → (List ℕ → Option F) → Deframer F → Deframer F
on_zero finish s =
    if leb 7 s.ones
    then record s { in_frame = false; frame_bits = []; ones = 0 }
    else if s.ones == 6
    then record s {
      frames = if s.in_frame then push_frame s.frames (finish s.frame_bits) else s.frames;
      frame_bits = [];
      in_frame = true;
      ones = 0;
    }
    else if s.ones == 5
    then record s {
      frame_bits = if s.in_frame then s.frame_bits ++ replicate 5 1 else s.frame_bits;
      ones = 0;
    }
    else record s {
      frame_bits =
          if s.in_frame then s.frame_bits ++ (replicate s.ones 1 ++ 0 ∷ []) else s.frame_bits;
      ones = 0;
    }

-- the tail of `process_symbol` and of `process_bit`, after the NRZI decoding
unfoldable pub on_bit : {F : Type 0} → (List ℕ → Option F) → Deframer F → ℕ → Deframer F
unfolding on_zero
on_bit finish s decoded_bit =
    if decoded_bit == 1 then record s { ones = (s.ones + 1) % 2 ^ 32 } else on_zero finish s

unfoldable pub process_symbol : {F : Type 0} → (List ℕ → Option F) → Deframer F → ℕ → Deframer F
unfolding on_bit
process_symbol finish s raw_bit =
    on_bit finish (record s { prev_bit = raw_bit }) (if raw_bit == s.prev_bit then 1 else 0)

unfoldable pub receive : {F : Type 0} → (List ℕ → Option F) → Deframer F → List ℕ → Deframer F
receive finish s [] = s
receive finish s (b ∷ bs) = receive finish (process_symbol finish s b) bs

-- A byte from its bits, the lowest first; the bits go to disjoint places. AIS sets a place where
-- the bit is not 0, APRS shifts the bit itself there.
byte_of : (ℕ → ℕ) → List ℕ → ℕ
byte_of value [] = 0
byte_of value (b ∷ bs) = value b + 2 * byte_of value bs

unfoldable pub bytes_of : (ℕ → ℕ) → ℕ → List ℕ → List ℕ
unfolding byte_of
bytes_of value zero bits = []
bytes_of value (suc n) bits = byte_of value (take 8 bits) ∷ bytes_of value n (drop 8 bits)

abbrev pub set_bit : ℕ → ℕ
set_bit b = if b == 0 then 0 else 1

abbrev pub own_bit : ℕ → ℕ
own_bit b = b

-- the little-endian FCS in the last two bytes
abbrev received_fcs : List ℕ → ℕ → ℕ
received_fcs bytes payload_len =
    get_or bytes payload_len 0 + get_or bytes (payload_len + 1) 0 * 2 ^ 8

pub record AisFrame : Type 0 where
  pub payload : List ℕ
  pub bits : List ℕ
  pub crc_ok : Bool

unfoldable pub bits_to_frame : List ℕ → Option AisFrame
bits_to_frame frame_bits =
    let len = length frame_bits in
    let usable_bits = len - len % 8 in
    let bits = take usable_bits frame_bits in
    let bytes = bytes_of set_bit (usable_bits / 8) bits in
    let payload_len = length bytes - 2 in
    let payload = take payload_len bytes in
    if ltb len 24
    then none
    else if ltb usable_bits 24
    then none
    else if ltb (length bytes) 3
    then none
    else some (record {
      payload = payload;
      bits = bits;
      crc_ok = crc16ccitt payload == received_fcs bytes payload_len;
    })

pub record AprsFrame : Type 0 where
  pub payload : List ℕ
  pub crc_ok : Bool

unfoldable pub bits_to_bytes : List ℕ → Option AprsFrame
bits_to_bytes frame_bits =
    let byte_len = length frame_bits / 8 in
    let bytes = bytes_of own_bit byte_len frame_bits in
    let payload = take (byte_len - 2) bytes in
    if ltb byte_len 17
    then none
    else some (record {
      payload = payload;
      crc_ok = crc16ccitt payload == received_fcs bytes (byte_len - 2);
    })

-- the guard that APRS has on the length when a flag arrives
unfoldable pub aprs_finish : List ℕ → Option AprsFrame
unfolding bits_to_bytes
aprs_finish frame_bits = if leb 136 (length frame_bits) then bits_to_bytes frame_bits else none
