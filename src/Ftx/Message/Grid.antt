-- ===== src/Ftx/Message/Grid.antt =====
-- The third field of a standard message (message.rs, `packgrid` and `unpackgrid`): a locator, a
-- report or a token in 16 bits, the highest of them `ir`.
pub mod Sent
pub mod Spelling
use trx_rs.Common.{
  ℕ, zero, suc, ◌+◌, ◌-◌, ◌*◌, ◌/◌, ◌%◌, ◌^◌, Bool, true, false, ◌&&◌, Option, none, some, List, [],
  ◌∷◌, ◌++◌, ltb, leb, ◌==◌, get_or, drop, length, if◌then◌else◌,
}
use trx_rs.Ftx.Text.{is_digit}
use trx_rs.Ftx.Decimal.{ℤ, pos, negsuc, dd_to_int, int_to_dd}
use trx_rs.Ftx.Message.{FtxFieldType, no_field, token, grid, rst}
use trx_rs.Ftx.Message.Callsign.{same_text}

abbrev pub maxgrid4 : ℕ
maxgrid4 = 32_400

-- an i32 as a u16
to_u16 : ℤ → ℕ
to_u16 (pos n) = n % 2 ^ 16
to_u16 (negsuc n) = 2 ^ 16 - 1 - n % 2 ^ 16

-- the difference of two small numbers
minus : ℕ → ℕ → ℤ
minus m n = if leb n m then pos (m - n) else negsuc (n - m - 1)

abbrev pub rrr : List ℕ
rrr = b'R' ∷ b'R' ∷ b'R' ∷ []

abbrev pub rr73 : List ℕ
rr73 = b'R' ∷ b'R' ∷ b'7' ∷ b'3' ∷ []

abbrev pub seventy_three : List ℕ
seventy_three = b'7' ∷ b'3' ∷ []

abbrev pub is_field : ℕ → Bool
is_field c = leb b'A' c && leb c b'R'

-- the four tests of a locator
is_locator : List ℕ → Bool
is_locator g =
    leb 4 (length g)
    && is_field (get_or g 0 0)
    && is_field (get_or g 1 0)
    && is_digit (get_or g 2 0)
    && is_digit (get_or g 3 0)

report_bits : ℤ → ℕ
report_bits dd = (maxgrid4 + (35 + to_u16 dd) % 2 ^ 16) % 2 ^ 16

unfoldable pub packgrid : List ℕ → ℕ
unfolding is_locator report_bits to_u16
packgrid [] = maxgrid4 + 1
packgrid (c ∷ cs) =
    let g = c ∷ cs in
    if same_text g rrr
    then maxgrid4 + 2
    else if same_text g rr73
    then maxgrid4 + 3
    else if same_text g seventy_three
    then maxgrid4 + 4
    else if is_locator g
    then (((get_or g 0 0 - b'A') * 18 + (get_or g 1 0 - b'A')) * 10 + (get_or g 2 0 - b'0')) * 10
      + (get_or g 3 0 - b'0')
    else if c == b'R'
    then report_bits (dd_to_int cs) % 2 ^ 15 + 2 ^ 15
    else report_bits (dd_to_int g)

locator_of : ℕ → List ℕ
locator_of n =
    (b'A' + n / 10 / 10 / 18 % 18)
    ∷ (b'A' + n / 10 / 10 % 18)
    ∷ (b'0' + n / 10 % 10)
    ∷ (b'0' + n % 10)
    ∷ []

unfoldable pub unpackgrid : ℕ → ℕ → Option (List ℕ × FtxFieldType)
unfolding locator_of minus
unpackgrid igrid4 ir =
    let irpt = igrid4 - maxgrid4 in
    let dd_str = int_to_dd (minus irpt 35) 2 true in
    if leb igrid4 maxgrid4
    then some (if ltb 0 ir then b'R' ∷ b' ' ∷ locator_of igrid4 else locator_of igrid4, grid)
    else if irpt == 1
    then some ([], no_field)
    else if irpt == 2
    then some (rrr, token)
    else if irpt == 3
    then some (rr73, token)
    else if irpt == 4
    then some (seventy_three, token)
    else some (if ltb 0 ir then b'R' ∷ dd_str else dd_str, rst)
