-- ===== src/Ftx/Message/FreeText/Shift.antt =====
-- About the bits of telemetry in the payload.
use mathlib.Core.Path.{ap₂}
use trx_rs.Common.{
  ℕ, suc, ◌+◌, ◌*◌, ◌/◌, ◌%◌, ◌^◌, ◌<◌, List, [], ◌∷◌, ◌++◌, take, drop, length, ◌≡◌, refl, sym, ap,
  ◌∙◌, arith,
}
use trx_rs.Ftx.Message.FreeText.{
  next_carry, shift_left, shift_right, ftx_message_encode_telemetry, ftx_message_decode_telemetry,
}
use trx_rs.Ftx.Message.FreeText.Number.{AreBytes, number}

shift_right-shift_left :
    (bs : List ℕ) → AreBytes bs → shift_right (next_carry bs) (shift_left bs) ≡ bs
unfolding next_carry shift_left shift_right
shift_right-shift_left [] v = refl
shift_right-shift_left (b ∷ []) v = ap (λ x. x ∷ []) (omega (arith, v.0))
shift_right-shift_left (b ∷ d ∷ bs) v =
    let carry : (b * 2 % 2 ^ 8 + d / 2 ^ 7 % 2) % 2 ≡ d / 2 ^ 7 % 2 = omega arith in
    let head : b / 2 ^ 7 % 2 * 2 ^ 7 + (b * 2 % 2 ^ 8 + d / 2 ^ 7 % 2) / 2 ≡ b =
      omega (arith, v.0) in
    ap₂ (λ x c. x ∷ shift_right c (shift_left (d ∷ bs))) head carry
    ∙ ap (λ r. b ∷ r) (shift_right-shift_left (d ∷ bs) v.1)

pub length-shift_left : (bs : List ℕ) → length (shift_left bs) ≡ length bs
unfolding shift_left
length-shift_left [] = refl
length-shift_left (b ∷ bs) = ap suc (length-shift_left bs)

pub take_append : (xs ys : List ℕ) → take (length xs) (xs ++ ys) ≡ xs
take_append [] ys = refl
take_append (x ∷ xs) ys = ap (λ r. x ∷ r) (take_append xs ys)

-- Telemetry of 71 bits in nine bytes is read back from the payload that it was written to.
pub decode-encode_telemetry :
    (payload telemetry : List ℕ)
    → length telemetry ≡ 9
    → AreBytes telemetry
    → number telemetry < 2 ^ 71
    → ftx_message_decode_telemetry (ftx_message_encode_telemetry payload telemetry) ≡ telemetry
unfolding ftx_message_decode_telemetry ftx_message_encode_telemetry number next_carry
decode-encode_telemetry payload [] l v h = absurd (omega arith)
decode-encode_telemetry payload (b ∷ bs) l v h =
    let behind : length bs ≡ 8 = omega arith in
    let small : b * 256 ^ 8 + number bs < 2 ^ 71 = rw behind at h in
    let low : b / 2 ^ 7 % 2 ≡ 0 = omega (arith, small) in
    let nine : length (shift_left (b ∷ bs)) ≡ 9 = length-shift_left (b ∷ bs) ∙ l in
    ap₂ shift_right (sym low) (
      ap (λ k. take k (shift_left (b ∷ bs) ++ drop 9 payload)) (sym nine)
      ∙ take_append (shift_left (b ∷ bs)) (drop 9 payload))
    ∙ shift_right-shift_left (b ∷ bs) v
