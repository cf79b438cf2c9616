-- ===== src/Ftx/Decimal/Signed.antt =====
-- About `dd_to_int` of what `int_to_dd` gives (text.rs).
use native.Mathlib.Nat.{
  pow-suc, div-add-mod', mod-lt, div-lt_iff_lt-mul, le-mul_of_pos_right, pow-le-pow_right,
}
use mathlib.Core.Path.{ap₂}
use trx_rs.Common.{
  ℕ, zero, suc, ◌+◌, ◌-◌, ◌*◌, ◌/◌, ◌%◌, ◌^◌, ◌<◌, ◌≤◌, Bool, true, false, List, ◌∷◌, ltb, leb,
  ◌==◌, ◌≡◌, refl, ap, sym, ◌∙◌, arith,
}
use trx_rs.Ftx.Decimal.{
  ℤ, pos, negsuc, to_i32, is_ascii_digit, parse_digits, dd_to_int, emit, sign_of, abs, decimal,
  int_to_dd,
}

regroup : (acc d p m : ℕ) → (acc * 10 + d) * p + m ≡ acc * (p * 10) + (d * p + m)
regroup acc d p m = grind arith

pow-pos : (k : ℕ) → 1 ≤ 10 ^ k
pow-pos zero = omega arith
pow-pos (suc k) = rw pow-suc (omega (arith, pow-pos k))

parse_digit :
    (acc d : ℕ) (s : List ℕ)
    → d < 10
    → acc * 10 + d < 2 ^ 32
    → parse_digits acc ((b'0' + d % 2 ^ 8) % 2 ^ 8 ∷ s) ≡ parse_digits (acc * 10 + d) s
unfolding parse_digits is_ascii_digit
parse_digit acc d s p q =
    let c : (b'0' + d % 2 ^ 8) % 2 ^ 8 ≡ b'0' + d = omega arith in
    let digit : is_ascii_digit (b'0' + d) ≡ true = ground arith in
    let value : (acc * 10 + (b'0' + d - b'0')) % 2 ^ 32 ≡ acc * 10 + d = omega arith in
    rw (c, digit, value) refl

emit_step :
    (fuel p r : ℕ)
    → 1 ≤ p
    → emit (suc fuel) p r ≡ (b'0' + r / p % 2 ^ 8) % 2 ^ 8 ∷ emit fuel (p / 10) (r - r / p * p)
unfolding emit
emit_step fuel p r h = let yes : leb 1 p ≡ true = ground arith in rw yes refl

below : (acc d p m : ℕ) → 1 ≤ p → (acc * 10 + d) * p + m < 2 ^ 32 → acc * 10 + d < 2 ^ 32
below acc d p m h q = omega (arith, le-mul_of_pos_right (acc * 10 + d) h)

digit-lt : (p r : ℕ) → 1 ≤ p → r < p * 10 → r / p < 10
digit-lt p r h q = (div-lt_iff_lt-mul h).1 (omega arith)

parse_none : (acc p r : ℕ) → parse_digits acc (emit 0 p r) ≡ acc
unfolding parse_digits emit
parse_none acc p r = refl

parse_emit :
    (k acc r : ℕ)
    → r < 10 ^ suc k
    → acc * 10 ^ suc k + r < 2 ^ 32
    → parse_digits acc (emit (suc k) (10 ^ k) r) ≡ acc * 10 ^ suc k + r
parse_emit zero acc r h q =
    ap (parse_digits acc) (emit_step 0 1 r (omega arith))
    ∙ parse_digit acc (r / 1) _ (omega arith) (omega arith)
    ∙ parse_none (acc * 10 + r / 1) (1 / 10) (r - r / 1 * 1)
    ∙ omega arith
parse_emit (suc k) acc r h q =
    let p = 10 ^ suc k in
    let h' : r < p * 10 = rw pow-suc at h in
    let q' : acc * (p * 10) + r < 2 ^ 32 = rw pow-suc at q in
    let split : r / p * p + r % p ≡ r = div-add-mod' r p in
    let one : 1 ≤ p = pow-pos (suc k) in
    let whole : (acc * 10 + r / p) * p + r % p ≡ acc * (p * 10) + r =
      regroup acc (r / p) p (r % p) ∙ ap (λ x. acc * (p * 10) + x) split in
    let fits : (acc * 10 + r / p) * p + r % p < 2 ^ 32 = omega arith in
    let tail : r - r / p * p ≡ r % p = omega arith in
    let shorter : p / 10 ≡ 10 ^ k = rw pow-suc (omega arith) in
    ap (parse_digits acc) (emit_step (suc k) p r one)
    ∙ parse_digit acc (r / p) _ (digit-lt p r one h') (below acc (r / p) p (r % p) one fits)
    ∙ ap₂ (λ x y. parse_digits (acc * 10 + r / p) (emit (suc k) x y)) shorter tail
    ∙ parse_emit k (acc * 10 + r / p) (r % p) (mod-lt r one) fits
    ∙ whole
    ∙ ap (λ x. acc * x + r) (sym (pow-suc 10 (suc k)))

to_i32_small : (n : ℕ) → n < 2 ^ 31 → to_i32 n ≡ pos n
unfolding to_i32
to_i32_small n h = ground arith

to_i32_negative : (n : ℕ) → suc n < 2 ^ 31 → to_i32 ((2 ^ 32 - suc n) % 2 ^ 32) ≡ negsuc n
unfolding to_i32
to_i32_negative n h =
    let high : ltb ((2 ^ 32 - suc n) % 2 ^ 32) (2 ^ 31) ≡ false = ground arith in
    let back : 2 ^ 32 - 1 - (2 ^ 32 - suc n) % 2 ^ 32 ≡ n = omega arith in rw (high, back) refl

pow-le : (j k : ℕ) → k ≤ j → 10 ^ k ≤ 10 ^ j
pow-le j k h = pow-le-pow_right (omega arith) h

parse_decimal : (w n : ℕ) → w ≤ 8 → n < 10 ^ suc w → parse_digits 0 (decimal (suc w) n) ≡ n
unfolding decimal
parse_decimal w n h r =
    let small : 10 ^ w ≤ 10 ^ 8 = pow-le 8 w h in
    let top : 10 ^ suc w ≤ 10 ^ 9 = pow-le 9 (suc w) (omega arith) in
    let whole : 10 ^ w % 2 ^ 32 ≡ 10 ^ w = omega arith in
    rw whole (parse_emit w 0 n r (omega arith) ∙ omega arith)

-- a text that starts with a digit has no sign
unsigned :
    (d : ℕ) (s : List ℕ)
    → d < 10
    → dd_to_int ((b'0' + d % 2 ^ 8) % 2 ^ 8 ∷ s)
      ≡ to_i32 (parse_digits 0 ((b'0' + d % 2 ^ 8) % 2 ^ 8 ∷ s))
unfolding dd_to_int
unsigned d s h =
    let minus : ((b'0' + d % 2 ^ 8) % 2 ^ 8 == b'-') ≡ false = ground arith in
    let plus : ((b'0' + d % 2 ^ 8) % 2 ^ 8 == b'+') ≡ false = ground arith in rw (minus, plus) refl

dd_to_int-decimal :
    (w n : ℕ)
    → w ≤ 8
    → n < 10 ^ suc w
    → dd_to_int (decimal (suc w) n) ≡ to_i32 (parse_digits 0 (decimal (suc w) n))
unfolding decimal
dd_to_int-decimal w n h r =
    let small : 10 ^ w ≤ 10 ^ 8 = pow-le 8 w h in
    let whole : 10 ^ w % 2 ^ 32 ≡ 10 ^ w = omega arith in
    let one = pow-pos w in
    let r' : n < 10 ^ w * 10 = rw pow-suc at r in
    rw (whole, emit_step w (10 ^ w) n one) (unsigned (n / 10 ^ w) _ (digit-lt (10 ^ w) n one r'))

signed_plus : (s : List ℕ) → dd_to_int (b'+' ∷ s) ≡ to_i32 (parse_digits 0 s)
unfolding dd_to_int
signed_plus s = refl

signed_minus : (s : List ℕ) → dd_to_int (b'-' ∷ s) ≡ to_i32 ((2 ^ 32 - parse_digits 0 s) % 2 ^ 32)
unfolding dd_to_int
signed_minus s = refl

-- A signed number that fits into one to nine digits is read back from the text that `int_to_dd`
-- writes with that many digits, with or without a plus sign.
pub dd_to_int-int_to_dd :
    (v : ℤ) (w : ℕ) (full_sign : Bool)
    → w ≤ 8
    → abs v < 10 ^ suc w
    → dd_to_int (int_to_dd v (suc w) full_sign) ≡ v
unfolding int_to_dd sign_of
dd_to_int-int_to_dd (pos n) w false h r =
    let top : 10 ^ suc w ≤ 10 ^ 9 = pow-le 9 (suc w) (omega arith) in
    dd_to_int-decimal w n h r ∙ ap to_i32 (parse_decimal w n h r) ∙ to_i32_small n (omega arith)
dd_to_int-int_to_dd (pos n) w true h r =
    let top : 10 ^ suc w ≤ 10 ^ 9 = pow-le 9 (suc w) (omega arith) in
    signed_plus (decimal (suc w) n)
    ∙ ap to_i32 (parse_decimal w n h r)
    ∙ to_i32_small n (omega arith)
dd_to_int-int_to_dd (negsuc n) w full_sign h r =
    let top : 10 ^ suc w ≤ 10 ^ 9 = pow-le 9 (suc w) (omega arith) in
    signed_minus (decimal (suc w) (suc n))
    ∙ ap (λ x. to_i32 ((2 ^ 32 - x) % 2 ^ 32)) (parse_decimal w (suc n) h r)
    ∙ to_i32_negative n (omega arith)
