-- ===== src/Examples/Wspr.antt =====
-- WSPR messages at concrete inputs.
use trx_rs.Common.{ℕ, some, List, [], ◌∷◌, ◌++◌, ◌≡◌, ◌≢◌, refl}
use trx_rs.Ftx.Message.Places.{trim_start, trim_end}
use trx_rs.Wspr.{is_valid_power, call_chars, is_call, unpack_call, unpack_locator, unpack_message}
use trx_rs.Wspr.RoundTrip.{second, call_chars-second}

-- FN20
abbrev fn20 : List ℕ
fn20 = b'F' ∷ b'N' ∷ b'2' ∷ b'0' ∷ []

-- " K1JT ", the call of the unit test
abbrev raw_k1jt : List ℕ
raw_k1jt = b' ' ∷ b'K' ∷ b'1' ∷ b'J' ∷ b'T' ∷ b' ' ∷ []

k1jt_chars : call_chars 4160943 ≡ some raw_k1jt
unfolding call_chars
k1jt_chars = refl

call_chars-second_example : second raw_k1jt ≢ b'Z'
call_chars-second_example = call_chars-second 4160943 raw_k1jt k1jt_chars

-- the bits of the unit test
abbrev bits : List ℕ
bits =
    0 ∷ 0 ∷ 0 ∷ 0 ∷ 0 ∷ 0 ∷ 1 ∷ 1 ∷ 1 ∷ 1 ∷ 1 ∷ 1 ∷ 0 ∷ 1 ∷ 1 ∷ 1 ∷ 1 ∷ 1 ∷ 0 ∷ 1 ∷ 1 ∷ 0 ∷ 1 ∷ 0
    ∷ 1 ∷ 1 ∷ 1 ∷ 1 ∷ 1 ∷ 0 ∷ 1 ∷ 1 ∷ 0 ∷ 0 ∷ 1 ∷ 1 ∷ 1 ∷ 0 ∷ 0 ∷ 1 ∷ 1 ∷ 1 ∷ 0 ∷ 0 ∷ 1 ∷ 0 ∷ 0 ∷ 1
    ∷ 0 ∷ 1 ∷ []

message_of_test :
    unpack_message bits
    ≡ some (b'K' ∷ b'1' ∷ b'J' ∷ b'T' ∷ b' ' ∷ (fn20 ++ b' ' ∷ b'3' ∷ b'7' ∷ []))
unfolding unpack_message is_valid_power unpack_call call_chars is_call unpack_locator trim_start
    trim_end
message_of_test = refl
