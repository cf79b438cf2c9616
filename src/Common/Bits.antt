-- ===== src/Common/Bits.antt =====
-- Laws of `bit_xor` at variables, from its digits.
use Prim.Native.Nat.add
use Prim.Native.Nat.{
  ℕ, zero, suc, ◌+◌, ◌-◌, ◌*◌, ◌/◌, ◌%◌, ◌^◌, ◌≤◌, ◌<◌, bit_xor, digits, differ, bit_xor-bitwise,
}
use mathlib.Core.Path.{◌≡◌, refl, sym, ◌∙◌}
use native.Mathlib.Nat.{pow-suc, suc-add}
use native.Mathlib.Omega.{arith}

abbrev xor_digits : ℕ → ℕ → ℕ → ℕ
xor_digits n a b = digits (λ b. b) differ n a b

differ-zero : (x : ℕ) → differ x 0 ≡ x
differ-zero zero = refl
differ-zero (suc x) = refl

-- one more digit of fuel than the first number needs changes nothing, and so do many more
one_more : (n a b : ℕ) → a ≤ n → xor_digits (suc n) a b ≡ xor_digits n a b
one_more n zero b h = empty n
  where
    empty : (k : ℕ) → xor_digits (suc k) zero b ≡ xor_digits k zero b
    empty zero = refl
    empty (suc k) = refl
one_more zero (suc a) b h = absurd (omega arith)
one_more (suc n) (suc a) b h = omega (arith, one_more n (suc a / 2) (b / 2) (omega arith))

spare_fuel : (k a b : ℕ) → xor_digits (k + a) a b ≡ bit_xor a b
spare_fuel zero a b = rw add.zero (sym (bit_xor-bitwise a b))
spare_fuel (suc k) a b = rw suc-add (one_more (k + a) a b (omega arith) ∙ spare_fuel k a b)

zero-bit_xor : (b : ℕ) → bit_xor 0 b ≡ b
zero-bit_xor b = bit_xor-bitwise 0 b

-- the lowest digit, and the rest
pub bit_xor_step : (a b : ℕ) → bit_xor a b ≡ bit_xor (a / 2) (b / 2) * 2 + differ (a % 2) (b % 2)
bit_xor_step zero b = omega (arith, zero-bit_xor b, zero-bit_xor (b / 2))
bit_xor_step (suc a) b =
    let half = suc a / 2 in
    let room : (a - half) + half ≡ a = omega arith in
    let rest : xor_digits a half (b / 2) ≡ bit_xor half (b / 2) =
      rw room at (spare_fuel (a - half) half (b / 2)) in
    omega (arith, bit_xor-bitwise (suc a) b, rest)

differ_bit : (a b : ℕ) → differ (a % 2) (b % 2) < 2
differ_bit a b = small (a % 2) (b % 2) (omega arith) (omega arith)
  where
    small : (x y : ℕ) → x < 2 → y < 2 → differ x y < 2
    small zero y p q = q
    small (suc zero) zero p q = omega arith
    small (suc zero) (suc zero) p q = omega arith
    small (suc zero) (suc (suc y)) p q = absurd (omega arith)
    small (suc (suc x)) y p q = absurd (omega arith)

-- Two w-bit words have a w-bit exclusive or.
pub bit_xor-lt : (w a b : ℕ) → a < 2 ^ w → b < 2 ^ w → bit_xor a b < 2 ^ w
bit_xor-lt zero a b p q = let nil : a ≡ 0 = omega arith in rw nil (omega (arith, zero-bit_xor b))
bit_xor-lt (suc w) a b p q =
    let p' : a < 2 ^ w * 2 = rw pow-suc at p in
    let q' : b < 2 ^ w * 2 = rw pow-suc at q in
    rw pow-suc (
      omega (
        arith,
        bit_xor_step a b,
        differ_bit a b,
        bit_xor-lt w (a / 2) (b / 2) (omega arith) (omega arith),
      ))
