-- ===== src/Ftx/Message/FreeText.antt =====
-- Free text and telemetry (message.rs, `ftx_message_encode_free` to `ftx_message_decode_telemetry`):
-- 71 bits in nine bytes, in the payload one bit further left. The loops of long arithmetic walk over
-- the bytes as the source does; `rem` stays below 2 ^ 16 there, so its u16 does not wrap.
pub mod Number
pub mod Shift
pub mod RoundTrip
use trx_rs.Common.{
  ℕ, zero, suc, ◌+◌, ◌-◌, ◌*◌, ◌/◌, ◌%◌, ◌^◌, Option, none, some, List, [], ◌∷◌, ◌++◌, ltb, take,
  drop, length, if◌then◌else◌,
}
use trx_rs.Ftx.Text.{full, charn, nchar}
use trx_rs.Ftx.Message.{FtxMessageRc, ok, error_type}
use trx_rs.Ftx.Message.Places.{trim, fill}

-- `carry` of the byte behind a byte: its highest bit
next_carry : List ℕ → ℕ
next_carry [] = 0
next_carry (b ∷ bs) = b / 2 ^ 7 % 2

unfoldable pub shift_left : List ℕ → List ℕ
unfolding next_carry
shift_left [] = []
shift_left (b ∷ bs) = (b * 2 % 2 ^ 8 + next_carry bs) ∷ shift_left bs

unfoldable pub shift_right : ℕ → List ℕ → List ℕ
shift_right carry [] = []
shift_right carry (b ∷ bs) = (carry * 2 ^ 7 + b / 2) ∷ shift_right (b % 2) bs

-- the nine bytes of telemetry, and what the payload has behind them
unfoldable pub ftx_message_encode_telemetry : List ℕ → List ℕ → List ℕ
ftx_message_encode_telemetry payload telemetry = shift_left telemetry ++ drop 9 payload

unfoldable pub ftx_message_decode_telemetry : List ℕ → List ℕ
ftx_message_decode_telemetry payload = shift_right 0 (take 9 payload)

hex_digit : ℕ → ℕ
hex_digit d = if ltb d 10 then b'0' + d else b'A' + (d - 10)

hex_bytes : List ℕ → List ℕ
hex_bytes [] = []
hex_bytes (b ∷ bs) = hex_digit (b / 2 ^ 4) ∷ hex_digit (b % 2 ^ 4) ∷ hex_bytes bs

unfoldable pub ftx_message_decode_telemetry_hex : List ℕ → List ℕ
unfolding hex_digit hex_bytes
ftx_message_decode_telemetry_hex payload = hex_bytes (ftx_message_decode_telemetry payload)

-- the loop over the bytes from the last: the bytes, and `rem` behind the first
unfoldable pub mul_bytes : ℕ → List ℕ → List ℕ × ℕ
mul_bytes rem [] = ([], rem)
mul_bytes rem (b ∷ bs) =
    let r = mul_bytes rem bs in ((r.1 + b * 42) % 2 ^ 8 ∷ r.0, (r.1 + b * 42) / 2 ^ 8)

unfoldable pub encode_chars : List ℕ → List ℕ → Option (List ℕ)
encode_chars b71 [] = some b71
encode_chars b71 (c ∷ cs) = elim (nchar c full) [
  | none ↦ none
  | some cid ↦ encode_chars (mul_bytes cid b71).0 cs
]

abbrev pub zero_bytes : List ℕ
zero_bytes = 0 ∷ 0 ∷ 0 ∷ 0 ∷ 0 ∷ 0 ∷ 0 ∷ 0 ∷ 0 ∷ []

finish_free : List ℕ → Option (List ℕ) → FtxMessageRc × List ℕ
finish_free payload none = (error_type, payload)
finish_free payload (some b71) = (ok, take 9 (ftx_message_encode_telemetry payload b71) ++ 0 ∷ [])

unfoldable pub ftx_message_encode_free : List ℕ → List ℕ → FtxMessageRc × List ℕ
unfolding finish_free
ftx_message_encode_free payload text =
    if ltb 13 (length text)
    then (error_type, payload)
    else finish_free payload (encode_chars zero_bytes (fill 13 text))

-- the loop over the bytes from the first: the quotient by 42, and the remainder
unfoldable pub div_bytes : ℕ → List ℕ → List ℕ × ℕ
div_bytes rem [] = ([], rem)
div_bytes rem (b ∷ bs) =
    let r = div_bytes ((rem * 2 ^ 8 + b) % 42) bs in ((rem * 2 ^ 8 + b) / 42 % 2 ^ 8 ∷ r.0, r.1)

-- the characters from the last, and the ones that are out already
unfoldable pub decode_chars : ℕ → List ℕ → List ℕ → List ℕ
decode_chars zero b71 cs = cs
decode_chars (suc k) b71 cs = let r = div_bytes 0 b71 in decode_chars k r.0 (charn r.1 full ∷ cs)

unfoldable pub ftx_message_decode_free : List ℕ → List ℕ
ftx_message_decode_free payload = trim (decode_chars 13 (ftx_message_decode_telemetry payload) [])
