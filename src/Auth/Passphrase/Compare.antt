-- ===== src/Auth/Passphrase/Compare.antt =====
-- About `constant_time_eq` and `check_passphrase`, at the digits of the bytes.
use Prim.Native.Nat.{digits, differ, max, bit_or-bitwise}
use trx_rs.Common.{
  ℕ, zero, suc, ◌+◌, ◌/◌, ◌%◌, ◌<◌, ◌≤◌, true, false, Option, none, some, List, [], ◌∷◌, bit_or,
  bit_xor, ◌==◌, length, ◌≡◌, refl, ap, sym, ◌∙◌, ◌↔◌, inl, inr, arith, ==_iff, ==_refl, Bool-cases,
}
use trx_rs.Common.Bits.{bit_xor_step}
use trx_rs.Auth.Passphrase.{
  rx, control, AuthConfig, differences, constant_time_eq, matches, check_passphrase,
}

differ-zero : (x y : ℕ) → differ x y ≡ 0 → x ≡ y
differ-zero zero y e = sym e
differ-zero (suc x) zero e = e
differ-zero (suc x) (suc y) e = ap suc (differ-zero x y e)

differ_self : (x : ℕ) → differ x x ≡ 0
differ_self zero = refl
differ_self (suc x) = differ_self x

bit_xor-zero : (w x y : ℕ) → x + y < w → bit_xor x y ≡ 0 → x ≡ y
bit_xor-zero zero x y h e = absurd (omega arith)
bit_xor-zero (suc w) x y h e = elim (Bool-cases (x + y == 0)) [
  | inl p ↦ omega (arith, (==_iff (x + y) 0).0 p)
  | inr p ↦
      let high : bit_xor (x / 2) (y / 2) ≡ 0 = omega (arith, bit_xor_step x y) in
      let low : differ (x % 2) (y % 2) ≡ 0 = omega (arith, bit_xor_step x y) in
      let positive : 1 ≤ x + y = ground arith in
      omega
        (arith, bit_xor-zero w (x / 2) (y / 2) (omega arith) high, differ-zero (x % 2) (y % 2) low)
]

bit_xor_self : (w x : ℕ) → x < w → bit_xor x x ≡ 0
bit_xor_self zero x h = absurd (omega arith)
bit_xor_self (suc w) zero h = refl
bit_xor_self (suc w) (suc x) h = omega (
  arith,
  bit_xor_step (suc x) (suc x),
  bit_xor_self w (suc x / 2) (omega arith),
  differ_self (suc x % 2),
)

or_digits-ge : (n a b : ℕ) → a ≤ n → a ≤ digits (λ d. d) max n a b
or_digits-ge n zero b h = omega arith
or_digits-ge zero (suc a) b h = absurd (omega arith)
or_digits-ge (suc n) (suc a) b h = omega (arith, or_digits-ge n (suc a / 2) (b / 2) (omega arith))

bit_or-zero : (a b : ℕ) → bit_or a b ≡ 0 → (a ≡ 0) × (b ≡ 0)
bit_or-zero zero b e = (refl, sym (bit_or-bitwise 0 b) ∙ e)
bit_or-zero (suc a) b e =
    absurd (omega (arith, bit_or-bitwise (suc a) b, or_digits-ge (suc a) (suc a) b (omega arith)))

differences-zero :
    (r : ℕ) (xs ys : List ℕ) → length xs ≡ length ys → differences r xs ys ≡ 0 → (r ≡ 0) × (xs ≡ ys)
unfolding differences
differences-zero r [] [] l e = (e, refl)
differences-zero r [] (y ∷ ys) l e = absurd (omega arith)
differences-zero r (x ∷ xs) [] l e = absurd (omega arith)
differences-zero r (x ∷ xs) (y ∷ ys) l e =
    let rest = differences-zero (bit_or r (bit_xor x y)) xs ys (omega arith) e in
    let split = bit_or-zero r (bit_xor x y) rest.0 in
    let same : x ≡ y = bit_xor-zero (x + y + 1) x y (omega arith) split.1 in
    (split.0, ap (λ b. b ∷ xs) same ∙ ap (λ l. y ∷ l) rest.1)

differences_self : (xs : List ℕ) → differences 0 xs xs ≡ 0
unfolding differences
differences_self [] = refl
differences_self (x ∷ xs) = rw (bit_xor_self (x + 1) x (omega arith)) (differences_self xs)

-- The comparison in constant time says true exactly for equal texts.
pub constant_time_eq_iff : (a b : List ℕ) → (constant_time_eq a b ≡ true) ↔ (a ≡ b)
unfolding constant_time_eq
constant_time_eq_iff a b = (to, λ e. rw e (from b))
  where
    from : (c : List ℕ) → constant_time_eq c c ≡ true
    from c = rw (==_refl (length c), differences_self c) refl

    to : constant_time_eq a b ≡ true → a ≡ b
    to h = elim (Bool-cases (length a == length b)) [
      | inl same ↦
          let zero_sum : (differences 0 a b == 0) ≡ true = rw same at h in
          (differences-zero 0 a b ((==_iff (length a) (length b)).0 same)
            ((==_iff _ 0).0 zero_sum)).1
      | inr other ↦ let never : false ≡ true = rw other at h in absurd (ground (arith, never))
    ]

matches_iff : (p : List ℕ) (o : Option (List ℕ)) → (matches p o ≡ true) ↔ (o ≡ some p)
unfolding matches
matches_iff p none = ground arith
matches_iff p (some q) = ground (arith, constant_time_eq_iff p q)

-- The role is control exactly for the control passphrase, and rx exactly for the rx passphrase
-- where it is not the control passphrase too.
pub check_passphrase_iff :
    (c : AuthConfig) (p : List ℕ)
    → ((check_passphrase c p ≡ some control) ↔ (c.control_passphrase ≡ some p))
      × ((check_passphrase c p ≡ some rx)
          ↔ ((c.rx_passphrase ≡ some p) × ¬ (c.control_passphrase ≡ some p)))
unfolding check_passphrase
check_passphrase_iff c p =
    ground (arith, matches_iff p c.control_passphrase, matches_iff p c.rx_passphrase)
