-- ===== src/Wspr.antt =====
-- The message of the WSPR decoder (src/decoders/trx-wspr/src/protocol.rs, `unpack_message`): 28 bits
-- of call, 15 bits of locator and 7 bits of power. Texts are lists of codes. The Fano decoder that
-- gives the bits works on a table of floating-point metrics and is left out.
pub mod RoundTrip
use trx_rs.Common.{
  ℕ, ◌+◌, ◌-◌, ◌*◌, ◌/◌, ◌%◌, ◌^◌, Bool, true, false, not, ◌&&◌, ◌||◌, Option, none, some, List, [],
  ◌∷◌, ◌++◌, ltb, leb, ◌==◌, get_or, take, drop, length, if◌then◌else◌,
}
use trx_rs.Ftx.Text.{is_digit, is_uppercase}
use trx_rs.Ftx.Message.Places.{trim}

-- bits, the first in the highest place
abbrev pub from_bits : ℕ → List ℕ → ℕ
from_bits n [] = n
from_bits n (b ∷ bs) = from_bits (n * 2 + b) bs

abbrev pub cs37 : ℕ → ℕ
cs37 i = if i == 0 then b' ' else if ltb i 11 then b'0' + (i - 1) else b'A' + (i - 11)

abbrev pub cs27 : ℕ → ℕ
cs27 i = if i == 0 then b' ' else b'A' + (i - 1)

is_member : ℕ → List ℕ → Bool
is_member n [] = false
is_member n (m ∷ ms) = n == m || is_member n ms

unfoldable pub is_valid_power : ℕ → Bool
unfolding is_member
is_valid_power n =
    is_member n (
      0 ∷ 3 ∷ 7 ∷ 10 ∷ 13 ∷ 17 ∷ 20 ∷ 23 ∷ 27 ∷ 30 ∷ 33 ∷ 37 ∷ 40 ∷ 43 ∷ 47 ∷ 50 ∷ 53 ∷ 57 ∷ 60
      ∷ [])

-- the six characters, or none where the first is out of the table
unfoldable pub call_chars : ℕ → Option (List ℕ)
call_chars n1 =
    let i0 = n1 / 27 / 27 / 27 / 10 / 36 in
    if leb 37 i0
    then none
    else some (
        cs37 i0
        ∷ cs37 (n1 / 27 / 27 / 27 / 10 % 36)
        ∷ (b'0' + n1 / 27 / 27 / 27 % 10)
        ∷ cs27 (n1 / 27 / 27 % 27)
        ∷ cs27 (n1 / 27 % 27)
        ∷ cs27 (n1 % 27)
        ∷ [])

has_letter : List ℕ → Bool
has_letter [] = false
has_letter (c ∷ cs) = is_uppercase c || has_letter cs

-- the tests of a call
unfoldable pub is_call : List ℕ → Bool
unfolding has_letter
is_call s = leb 3 (length s) && has_letter s && (is_digit (get_or s 1 0) || is_digit (get_or s 2 0))

checked : List ℕ → Option (List ℕ)
checked s = if is_call s then some s else none

trimmed_call : Option (List ℕ) → Option (List ℕ)
unfolding checked
trimmed_call none = none
trimmed_call (some raw) = checked (trim raw)

unfoldable pub unpack_call : ℕ → Option (List ℕ)
unfolding trimmed_call
unpack_call n1 = trimmed_call (call_chars n1)

unfoldable pub unpack_locator : ℕ → Option (List ℕ)
unpack_locator m1 =
    let t = 179 - m1 / 180 in
    let lo = m1 % 180 in
    if ltb 32_399 m1 || ltb 179 (m1 / 180)
    then none
    else if ltb 17 (t / 10) || ltb 17 (lo / 10)
    then none
    else some ((b'A' + t / 10) ∷ (b'A' + lo / 10) ∷ (b'0' + t % 10) ∷ (b'0' + lo % 10) ∷ [])

-- a power of at most two digits
power_text : ℕ → List ℕ
power_text n = if ltb n 10 then (b'0' + n) ∷ [] else (b'0' + n / 10) ∷ (b'0' + n % 10) ∷ []

joined : List ℕ → ℕ → Option (List ℕ) → Option (List ℕ)
unfolding power_text
joined call power none = none
joined call power (some grid) = some (call ++ b' ' ∷ (grid ++ b' ' ∷ power_text power))

with_call : ℕ → ℕ → Option (List ℕ) → Option (List ℕ)
unfolding joined
with_call m1 power none = none
with_call m1 power (some call) = joined call power (unpack_locator m1)

unfoldable pub unpack_message : List ℕ → Option (List ℕ)
unfolding with_call
unpack_message bits =
    let n1 = from_bits 0 (take 28 bits) in
    let m1 = from_bits 0 (take 15 (drop 28 bits)) in
    let power = from_bits 0 (take 7 (drop 43 bits)) in
    if is_valid_power power then with_call m1 power (unpack_call n1) else none
