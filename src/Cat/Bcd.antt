-- ===== src/Cat/Bcd.antt =====
-- About `encode_freq_bcd` and `decode_freq_bcd` (bcd.rs).
use trx_rs.Common.{
  ℕ, ◌+◌, ◌*◌, ◌/◌, ◌%◌, ◌^◌, ◌<◌, false, List, [], ◌∷◌, ltb, leb, ◌≡◌, refl, ap, ◌∙◌, arith,
}
use trx_rs.Cat.{ok, digits_of, pack, encode_freq_bcd, decode_loop, decode_freq_bcd}

decode_pack :
    (v h l : ℕ) (digits : List ℕ)
    → h < 10
    → l < 10
    → decode_loop v (pack (h ∷ l ∷ digits)) ≡ decode_loop ((v * 10 + h) * 10 + l) (pack digits)
unfolding decode_loop pack
decode_pack v h l digits p q =
    let high : (h * 2 ^ 4 + l) / 2 ^ 4 % 2 ^ 4 ≡ h = omega arith in
    let low : (h * 2 ^ 4 + l) % 2 ^ 4 ≡ l = omega arith in
    let p' : leb 10 h ≡ false = ground arith in
    let q' : leb 10 l ≡ false = ground arith in rw (high, low, p', q') refl

decode_digits : (n : ℕ) → n < 100000000 → decode_loop 0 (pack (digits_of 8 n [])) ≡ ok (n * 10)
unfolding digits_of decode_loop pack
decode_digits n r =
    let n1 = n / 10 in
    let n2 = n1 / 10 in
    let n3 = n2 / 10 in
    let n4 = n3 / 10 in
    let n5 = n4 / 10 in
    let n6 = n5 / 10 in
    let n7 = n6 / 10 in
    let l1 = n1 % 10 ∷ n % 10 ∷ [] in
    let l3 = n3 % 10 ∷ n2 % 10 ∷ l1 in
    let l5 = n5 % 10 ∷ n4 % 10 ∷ l3 in
    let v3 = (0 * 10 + n7 % 10) * 10 + n6 % 10 in
    let v5 = (v3 * 10 + n5 % 10) * 10 + n4 % 10 in
    let v7 = (v5 * 10 + n3 % 10) * 10 + n2 % 10 in
    decode_pack 0 (n7 % 10) (n6 % 10) l5 (omega arith) (omega arith)
    ∙ decode_pack v3 (n5 % 10) (n4 % 10) l3 (omega arith) (omega arith)
    ∙ decode_pack v5 (n3 % 10) (n2 % 10) l1 (omega arith) (omega arith)
    ∙ decode_pack v7 (n1 % 10) (n % 10) [] (omega arith) (omega arith)
    ∙ ap ok (omega arith)

-- Every frequency below 1 GHz that is a multiple of 10 Hz is encoded, and decoding the bytes
-- gives it back.
pub decode_freq_bcd-encode_freq_bcd :
    (hz : ℕ)
    → hz % 10 ≡ 0
    → hz < 1000000000
    → (bytes : List ℕ) × ((encode_freq_bcd hz ≡ ok bytes) × (decode_freq_bcd bytes ≡ ok hz))
unfolding encode_freq_bcd decode_freq_bcd
decode_freq_bcd-encode_freq_bcd hz m r =
    let fits : ltb 99999999 (hz / 10) ≡ false = ground arith in
    let same : hz / 10 * 10 ≡ hz = omega arith in
    (
      pack (digits_of 8 (hz / 10) []),
      (rw (m, fits) refl, decode_digits (hz / 10) (omega arith) ∙ ap ok same),
    )
