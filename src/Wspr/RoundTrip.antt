-- ===== src/Wspr/RoundTrip.antt =====
-- About the locator, and about the second character of a call.
use trx_rs.Common.{
  ℕ, ◌+◌, ◌-◌, ◌*◌, ◌/◌, ◌%◌, ◌<◌, false, some, List, [], ◌∷◌, ltb, leb, ◌≡◌, ◌≢◌, refl, ap, ◌∙◌,
  inl, inr, Bool-cases, arith,
}
use mathlib.Core.Option.{none-ne-some, some-injective}
use trx_rs.Wspr.{cs37, call_chars, unpack_locator}

-- A locator of four characters is read back from the number that the formula in the comment of
-- the source packs it into.
pub unpack_locator-packed :
    (loc1 loc2 loc3 loc4 : ℕ)
    → loc1 < 18
    → loc2 < 18
    → loc3 < 10
    → loc4 < 10
    → unpack_locator ((179 - 10 * loc1 - loc3) * 180 + 10 * loc2 + loc4)
      ≡ some ((b'A' + loc1) ∷ (b'A' + loc2) ∷ (b'0' + loc3) ∷ (b'0' + loc4) ∷ [])
unfolding unpack_locator
unpack_locator-packed loc1 loc2 loc3 loc4 h1 h2 h3 h4 =
    let m1 = (179 - 10 * loc1 - loc3) * 180 + 10 * loc2 + loc4 in
    let small : ltb 32_399 m1 ≡ false = ground arith in
    let high : m1 / 180 ≡ 179 - 10 * loc1 - loc3 = omega arith in
    let low : m1 % 180 ≡ 10 * loc2 + loc4 = omega arith in
    let in_range : ltb 179 (179 - 10 * loc1 - loc3) ≡ false = ground arith in
    let e1 : (179 - (179 - 10 * loc1 - loc3)) / 10 ≡ loc1 = omega arith in
    let e3 : (179 - (179 - 10 * loc1 - loc3)) % 10 ≡ loc3 = omega arith in
    let e2 : (10 * loc2 + loc4) / 10 ≡ loc2 = omega arith in
    let e4 : (10 * loc2 + loc4) % 10 ≡ loc4 = omega arith in
    let l1 : ltb 17 loc1 ≡ false = ground arith in
    let l2 : ltb 17 loc2 ≡ false = ground arith in
    rw (small, high, low, in_range, e1, e2, e3, e4, l1, l2) refl

-- the character at the second place
abbrev pub second : List ℕ → ℕ
second (a ∷ b ∷ s) = b
second _ = 0

cs37-ne : (i : ℕ) → i < 36 → cs37 i ≢ b'Z'
cs37-ne i h e = ground (arith, e)

-- No number unpacks to a call whose second character of six is a Z.
pub call_chars-second : (n1 : ℕ) (raw : List ℕ) → call_chars n1 ≡ some raw → second raw ≢ b'Z'
unfolding call_chars
call_chars-second n1 raw h z = elim (Bool-cases (leb 37 (n1 / 27 / 27 / 27 / 10 / 36))) [
  | inl y ↦ none-ne-some _ (rw y at h)
  | inr f ↦
      let same = ap second (some-injective _ _ (rw f at h)) in
      cs37-ne (n1 / 27 / 27 / 27 / 10 % 36) (omega arith) (same ∙ z)
]
