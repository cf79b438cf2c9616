-- ===== src/Ftx/Decimal.antt =====
-- `dd_to_int` and `int_to_dd` of src/decoders/trx-ftx/src/common/text.rs. An i32 that overflows
-- wraps, as in a release build.
pub mod Signed
use trx_rs.Common.{
  ℕ, zero, suc, ◌+◌, ◌-◌, ◌*◌, ◌/◌, ◌%◌, ◌^◌, Bool, true, false, ◌&&◌, List, [], ◌∷◌, ◌++◌, ltb,
  leb, ◌==◌, if◌then◌else◌,
}

pub data ℤ : Type 0 where
  pos negsuc : ℕ → ℤ

-- the i32 with these 32 bits
pub to_i32 : ℕ → ℤ
to_i32 n = if ltb n (2 ^ 31) then pos n else negsuc (2 ^ 32 - 1 - n)

is_ascii_digit : ℕ → Bool
is_ascii_digit c = leb b'0' c && leb c b'9'

parse_digits : ℕ → List ℕ → ℕ
parse_digits result [] = result
parse_digits result (c ∷ s) =
    let rest = parse_digits ((result * 10 + (c - b'0')) % 2 ^ 32) s in
    if is_ascii_digit c then rest else result

unfoldable pub dd_to_int : List ℕ → ℤ
unfolding parse_digits to_i32 is_ascii_digit
dd_to_int [] = pos 0
dd_to_int (c ∷ s) =
    if c == b'-'
    then to_i32 ((2 ^ 32 - parse_digits 0 s) % 2 ^ 32)
    else if c == b'+'
    then to_i32 (parse_digits 0 s)
    else to_i32 (parse_digits 0 (c ∷ s))

-- the `while` loop; each round divides the divisor by ten
emit : ℕ → ℕ → ℕ → List ℕ
emit zero divisor remaining = []
emit (suc fuel) divisor remaining =
    let digit = remaining / divisor in
    let rest = emit fuel (divisor / 10) (remaining - digit * divisor) in
    if leb 1 divisor then (b'0' + digit % 2 ^ 8) % 2 ^ 8 ∷ rest else []

sign_of : ℤ → Bool → List ℕ
sign_of (negsuc n) full_sign = b'-' ∷ []
sign_of (pos n) full_sign = if full_sign then b'+' ∷ [] else []

abbrev pub abs : ℤ → ℕ
abs (pos n) = n
abs (negsuc n) = suc n

-- the first divisor has `width` digits, so the loop has `width` rounds
decimal : ℕ → ℕ → List ℕ
decimal zero n = []
decimal (suc width) n = emit (suc width) (10 ^ width % 2 ^ 32) n

unfoldable pub int_to_dd : ℤ → ℕ → Bool → List ℕ
unfolding sign_of decimal emit
int_to_dd value width full_sign = sign_of value full_sign ++ decimal width (abs value)
