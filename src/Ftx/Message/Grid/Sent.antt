-- ===== src/Ftx/Message/Grid/Sent.antt =====
-- About the third fields that the protocol knows, packed and unpacked.
use mathlib.Core.Path.{ap₂}
use trx_rs.Common.{
  ℕ, ◌+◌, ◌-◌, ◌*◌, ◌/◌, ◌%◌, ◌^◌, ◌<◌, true, false, some, List, [], ◌∷◌, ltb, leb, ◌==◌,
  if◌then◌else◌, ◌≡◌, refl, ap, ◌∙◌, ◌⊎◌, inl, inr, arith,
}
use trx_rs.Ftx.Decimal.{ℤ, pos, negsuc, dd_to_int, int_to_dd}
use trx_rs.Ftx.Decimal.Signed.{dd_to_int-int_to_dd}
use trx_rs.Ftx.Message.{FtxFieldType, no_field, token, grid, rst}
use trx_rs.Ftx.Message.Callsign.{same_text}
use trx_rs.Ftx.Message.Grid.{
  maxgrid4, to_u16, minus, rrr, rr73, seventy_three, is_field, is_locator, report_bits, packgrid,
  locator_of, unpackgrid,
}

pub data Extra : Type 0 where
  nothing roger roger_73 best_regards : Extra
  locator : ℕ → ℕ → ℕ → ℕ → Extra
  report roger_report : ℤ → Extra

unfoldable pub spell : Extra → List ℕ
spell nothing = []
spell roger = rrr
spell roger_73 = rr73
spell best_regards = seventy_three
spell (locator a b c d) = (b'A' + a) ∷ (b'A' + b) ∷ (b'0' + c) ∷ (b'0' + d) ∷ []
spell (report dd) = int_to_dd dd 2 true
spell (roger_report dd) = b'R' ∷ int_to_dd dd 2 true

unfoldable pub kind : Extra → FtxFieldType
kind nothing = no_field
kind roger = token
kind roger_73 = token
kind best_regards = token
kind (locator a b c d) = grid
kind (report dd) = rst
kind (roger_report dd) = rst

-- from -30 dB to +99 dB
abbrev pub IsReport : ℤ → Type 0
IsReport (pos n) = n < 100
IsReport (negsuc n) = n < 30

abbrev pub IsSendable : Extra → Type 0
IsSendable (locator a b c d) =
    (a < 18)
    × ((b < 18) × ((c < 10) × ((d < 10) × (same_text (spell (locator a b c d)) rr73 ≡ false))))
IsSendable (report dd) = IsReport dd
IsSendable (roger_report dd) = IsReport dd
IsSendable _ = Unit

abbrev IsBack : Extra → Type 0
IsBack e =
    unpackgrid (packgrid (spell e) % 2 ^ 15) (packgrid (spell e) / 2 ^ 15) ≡ some (spell e, kind e)

pack_locator :
    (a b c d : ℕ)
    → IsSendable (locator a b c d)
    → packgrid (spell (locator a b c d)) ≡ ((a * 18 + b) * 10 + c) * 10 + d
unfolding packgrid spell
pack_locator a b c d v =
    let g = (b'A' + a) ∷ (b'A' + b) ∷ (b'0' + c) ∷ (b'0' + d) ∷ [] in
    let no_rrr : same_text g rrr ≡ false = ground (arith, v) in
    let no_73 : same_text g seventy_three ≡ false = ground (arith, v) in
    let yes : is_locator g ≡ true = unfold is_locator in ground (arith, v) in
    rw (no_rrr, v.1.1.1.1, no_73, yes) (omega arith)

unpackgrid-packed_locator :
    (a b c d : ℕ)
    → a < 18
    → b < 18
    → c < 10
    → d < 10
    → unpackgrid (((a * 18 + b) * 10 + c) * 10 + d) 0 ≡ some (spell (locator a b c d), grid)
unfolding unpackgrid locator_of spell
unpackgrid-packed_locator a b c d ha hb hc hd =
    let n = ((a * 18 + b) * 10 + c) * 10 + d in
    let low : leb n maxgrid4 ≡ true = ground arith in
    let ea : n / 10 / 10 / 18 % 18 ≡ a = omega arith in
    let eb : n / 10 / 10 % 18 ≡ b = omega arith in
    let ec : n / 10 % 10 ≡ c = omega arith in
    let ed : n % 10 ≡ d = omega arith in rw (low, ea, eb, ec, ed) refl

not_locator :
    (c : ℕ) (cs : List ℕ)
    → is_field c ≡ false
    → (is_locator (c ∷ cs) ≡ false) × (is_locator (b'R' ∷ c ∷ cs) ≡ false)
unfolding is_locator
not_locator c cs h = ground (arith, h)

-- a sign starts no token and no locator
signed_text :
    (c : ℕ) (cs : List ℕ)
    → (c ≡ b'+') ⊎ (c ≡ b'-')
    → (packgrid (c ∷ cs) ≡ report_bits (dd_to_int (c ∷ cs)))
      × (packgrid (b'R' ∷ c ∷ cs) ≡ report_bits (dd_to_int (c ∷ cs)) % 2 ^ 15 + 2 ^ 15)
unfolding packgrid
signed_text c cs sign =
    let not_field : is_field c ≡ false = ground (arith, sign) in
    let no_r : (c == b'R') ≡ false = ground (arith, sign) in
    let no_7 : (c == b'7') ≡ false = ground (arith, sign) in
    let no = not_locator c cs not_field in (rw (no_r, no_7, no.0) refl, rw (no_r, no.1) refl)

pack_report :
    (dd : ℤ)
    → IsReport dd
    → (packgrid (spell (report dd)) ≡ report_bits dd)
      × (packgrid (spell (roger_report dd)) ≡ report_bits dd % 2 ^ 15 + 2 ^ 15)
unfolding spell int_to_dd
pack_report (pos n) v =
    let back = dd_to_int-int_to_dd (pos n) 1 true (omega arith) (omega arith) in
    let text = signed_text b'+' _ (inl refl) in
    (text.0 ∙ ap report_bits back, text.1 ∙ ap (λ z. report_bits z % 2 ^ 15 + 2 ^ 15) back)
pack_report (negsuc n) v =
    let back = dd_to_int-int_to_dd (negsuc n) 1 true (omega arith) (omega arith) in
    let text = signed_text b'-' _ (inr refl) in
    (text.0 ∙ ap report_bits back, text.1 ∙ ap (λ z. report_bits z % 2 ^ 15 + 2 ^ 15) back)

unpack_report :
    (v ir : ℕ)
    → 32404 < v
    → unpackgrid v ir
      ≡ some (
        if ltb 0 ir
            then b'R' ∷ int_to_dd (minus (v - maxgrid4) 35) 2 true
            else int_to_dd (minus (v - maxgrid4) 35) 2 true,
        rst,
      )
unfolding unpackgrid
unpack_report v ir h =
    let high : leb v maxgrid4 ≡ false = ground arith in
    let one : (v - maxgrid4 == 1) ≡ false = ground arith in
    let two : (v - maxgrid4 == 2) ≡ false = ground arith in
    let three : (v - maxgrid4 == 3) ≡ false = ground arith in
    let four : (v - maxgrid4 == 4) ≡ false = ground arith in rw (high, one, two, three, four) refl

report_value :
    (dd : ℤ)
    → IsReport dd
    → (32404 < report_bits dd)
      × ((report_bits dd < 2 ^ 15) × (minus (report_bits dd - maxgrid4) 35 ≡ dd))
unfolding report_bits to_u16 minus
report_value (pos n) v =
    let value : (maxgrid4 + (35 + n % 2 ^ 16) % 2 ^ 16) % 2 ^ 16 ≡ 32435 + n = omega arith in
    let yes : leb 35 (32435 + n - maxgrid4) ≡ true = ground arith in
    rw (value, yes) (omega arith, (omega arith, ap pos (omega arith)))
report_value (negsuc n) v =
    let value : (maxgrid4 + (35 + (2 ^ 16 - 1 - n % 2 ^ 16)) % 2 ^ 16) % 2 ^ 16 ≡ 32434 - n =
      omega arith in
    let no : leb 35 (32434 - n - maxgrid4) ≡ false = ground arith in
    rw (value, no) (omega arith, (omega arith, ap negsuc (omega arith)))

-- Every third field that can be sent is read back from its 16 bits, with its kind.
pub unpackgrid-packgrid :
    (e : Extra)
    → IsSendable e
    → unpackgrid (packgrid (spell e) % 2 ^ 15) (packgrid (spell e) / 2 ^ 15)
      ≡ some (spell e, kind e)
unfolding packgrid unpackgrid spell kind
unpackgrid-packgrid nothing v = refl
unpackgrid-packgrid roger v = refl
unpackgrid-packgrid roger_73 v = refl
unpackgrid-packgrid best_regards v = refl
unpackgrid-packgrid (locator a b c d) v =
    let n = ((a * 18 + b) * 10 + c) * 10 + d in
    let low : n % 2 ^ 15 ≡ n = omega arith in
    let no_bit : n / 2 ^ 15 ≡ 0 = omega arith in
    rw (pack_locator a b c d v, low, no_bit)
      (unpackgrid-packed_locator a b c d v.0 v.1.0 v.1.1.0 v.1.1.1.0)
unpackgrid-packgrid (report dd) v =
    let value = report_value dd v in
    let low : report_bits dd % 2 ^ 15 ≡ report_bits dd = omega (arith, value) in
    let no_bit : report_bits dd / 2 ^ 15 ≡ 0 = omega (arith, value) in
    let sent = (pack_report dd v).0 in
    ap₂ unpackgrid (ap (λ n. n % 2 ^ 15) sent ∙ low) (ap (λ n. n / 2 ^ 15) sent ∙ no_bit)
    ∙ unpack_report (report_bits dd) 0 value.0
    ∙ ap (λ z. some (int_to_dd z 2 true, rst)) value.1.1
unpackgrid-packgrid (roger_report dd) v =
    let value = report_value dd v in
    let low : (report_bits dd % 2 ^ 15 + 2 ^ 15) % 2 ^ 15 ≡ report_bits dd = omega (arith, value) in
    let bit : (report_bits dd % 2 ^ 15 + 2 ^ 15) / 2 ^ 15 ≡ 1 = omega (arith, value) in
    let sent = (pack_report dd v).1 in
    ap₂ unpackgrid (ap (λ n. n % 2 ^ 15) sent ∙ low) (ap (λ n. n / 2 ^ 15) sent ∙ bit)
    ∙ unpack_report (report_bits dd) 1 value.0
    ∙ ap (λ z. some (b'R' ∷ int_to_dd z 2 true, rst)) value.1.1

pub packgrid-lt : (e : Extra) → IsSendable e → packgrid (spell e) < 2 ^ 16
unfolding packgrid spell
packgrid-lt nothing v = omega arith
packgrid-lt roger v = omega arith
packgrid-lt roger_73 v = omega arith
packgrid-lt best_regards v = omega arith
packgrid-lt (locator a b c d) v =
    rw (pack_locator a b c d v) (omega (arith, v.0, v.1.0, v.1.1.0, v.1.1.1.0))
packgrid-lt (report dd) v = rw ((pack_report dd v).0) (omega (arith, report_value dd v))
packgrid-lt (roger_report dd) v = rw ((pack_report dd v).1) (omega arith)
