-- ===== src/Hdlc/Abort.antt =====
-- What an abort, seven ones in a row or more, does to a frame.
use trx_rs.Common.{
  ℕ, zero, suc, ◌+◌, ◌-◌, ◌%◌, ◌^◌, ◌<◌, ◌≤◌, false, Option, List, [], ◌∷◌, ◌++◌, ◌≡◌, refl, ap,
  ◌∙◌, arith, replicate,
}
use trx_rs.Hdlc.{Deframer, on_zero, on_bit, receive}
use trx_rs.Hdlc.Stuffing.{
  decode, AreBits, AreBits-append, nrzi, level_after, at_level, receive-nrzi,
}
use trx_rs.Hdlc.Frames.{decode-append}

ones-AreBits : (n : ℕ) → AreBits (replicate n 1)
ones-AreBits zero = tt
ones-AreBits (suc n) = (omega arith, ones-AreBits n)

level_after-ones : (l n : ℕ) → level_after l (replicate n 1 ++ 0 ∷ []) ≡ 1 - l
unfolding level_after
level_after-ones l zero = refl
level_after-ones l (suc n) = level_after-ones l n

module _ {F : Type 0} (finish : List ℕ → Option F) where
  counts_ones :
      (s : Deframer F) (n : ℕ)
      → s.ones + n < 2 ^ 32
      → decode finish s (replicate n 1) ≡ record s { ones = s.ones + n }
  unfolding decode on_bit
  counts_ones s zero h = ap (λ k. record s { ones = k }) (omega arith)
  counts_ones s (suc n) h =
      let wraps : (s.ones + 1) % 2 ^ 32 ≡ s.ones + 1 = omega arith in
      ap (λ k. decode finish (record s { ones = k }) (replicate n 1)) wraps
      ∙ counts_ones (record s { ones = s.ones + 1 }) n (omega arith)
      ∙ ap (λ k. record s { ones = k }) (omega arith)

  decode_zero :
      (s : Deframer F)
      → 7 ≤ s.ones
      → decode finish s (0 ∷ []) ≡ record s { in_frame = false; frame_bits = []; ones = 0 }
  unfolding decode on_bit on_zero
  decode_zero s h = ground arith

  -- Seven ones or more and a zero, as long as the count of ones does not wrap, drop the frame
  -- that was open and keep the frames that were found.
  pub receive-abort :
      (s : Deframer F) (n : ℕ)
      → s.prev_bit < 2
      → 7 ≤ n
      → s.ones + n < 2 ^ 32
      → receive finish s (nrzi s.prev_bit (replicate n 1 ++ 0 ∷ []))
        ≡ record s { prev_bit = 1 - s.prev_bit; in_frame = false; frame_bits = []; ones = 0 }
  unfolding at_level
  receive-abort s n l h r =
      let counted = record s { ones = s.ones + n } in
      let bits : List ℕ = replicate n 1 ++ 0 ∷ [] in
      let dropped : decode finish s bits
          ≡ record s { in_frame = false; frame_bits = []; ones = 0 } =
        decode-append finish s (replicate n 1) (0 ∷ [])
        ∙ ap (λ t. decode finish t (0 ∷ [])) (counts_ones s n r)
        ∙ decode_zero counted (omega arith) in
      receive-nrzi finish s.prev_bit s bits l
        (AreBits-append (replicate n 1) (0 ∷ []) (ones-AreBits n) (omega arith, tt))
      ∙ ap (at_level finish (level_after s.prev_bit bits)) dropped
      ∙ ap (λ l. record s { prev_bit = l; in_frame = false; frame_bits = []; ones = 0 })
          (level_after-ones s.prev_bit n)
