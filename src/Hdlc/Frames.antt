-- ===== src/Hdlc/Frames.antt =====
-- What the receiver finds between the flags of a transmitter.
use mathlib.Core.List.{append_assoc}
use native.Mathlib.Nat.{suc-add}
use trx_rs.Common.{
  ℕ, zero, suc, ◌+◌, ◌<◌, true, false, Option, List, [], ◌∷◌, ◌++◌, ◌≡◌, refl, ap, sym, ◌∙◌, inl,
  inr, arith, ◌==◌, replicate, Bool-cases, ==_iff,
}
use trx_rs.Hdlc.{Deframer, push_frame, on_zero, on_bit, receive}
use trx_rs.Hdlc.Stuffing.{
  stuff, flag, decode, AreBits, AreBits-append, stuff-AreBits, nrzi, level_after, at_level,
  receive-nrzi,
}

replicate_shift : (k : ℕ) (xs : List ℕ) → replicate k 1 ++ (1 ∷ xs) ≡ replicate (k + 1) 1 ++ xs
replicate_shift zero xs = refl
replicate_shift (suc k) xs = rw suc-add (ap (λ l. 1 ∷ l) (replicate_shift k xs))

regroup : (f r bs : List ℕ) → (f ++ (r ++ 0 ∷ [])) ++ bs ≡ f ++ (r ++ 0 ∷ bs)
regroup f r bs = append_assoc f (r ++ 0 ∷ []) bs ∙ ap (λ l. f ++ l) (append_assoc r (0 ∷ []) bs)

stuff-one : (k : ℕ) (bs : List ℕ) → (k == 4) ≡ false → stuff k (1 ∷ bs) ≡ 1 ∷ stuff (k + 1) bs
unfolding stuff
stuff-one k bs p = rw p refl

abbrev pub AreBitLists : List (List ℕ) → Type 0
AreBitLists [] = Unit
AreBitLists (bs ∷ bss) = AreBits bs × AreBitLists bss

-- the frames of a transmission, each with its closing flag
unfoldable pub framed : List (List ℕ) → List ℕ
framed [] = []
framed (bs ∷ bss) = (stuff 0 bs ++ flag) ++ framed bss

flag-AreBits : AreBits flag
flag-AreBits =
    let z : 0 < 2 = omega arith in
    let o : 1 < 2 = omega arith in (z, (o, (o, (o, (o, (o, (o, (z, tt))))))))

framed-AreBits : (bss : List (List ℕ)) → AreBitLists bss → AreBits (framed bss)
unfolding framed
framed-AreBits [] v = tt
framed-AreBits (bs ∷ bss) v =
    AreBits-append (stuff 0 bs ++ flag) (framed bss)
      (AreBits-append (stuff 0 bs) flag (stuff-AreBits 0 bs v.0) flag-AreBits)
      (framed-AreBits bss v.1)

module _ {F : Type 0} (finish : List ℕ → Option F) where
  -- within a frame, after `ones` ones
  abbrev within : ℕ → ℕ → List ℕ → List F → Deframer F
  within level ones bits frames = record {
    prev_bit = level;
    ones = ones;
    in_frame = true;
    frame_bits = bits;
    frames = frames;
  }

  pub decode-append :
      (s : Deframer F) (xs ys : List ℕ)
      → decode finish s (xs ++ ys) ≡ decode finish (decode finish s xs) ys
  unfolding decode
  decode-append s [] ys = refl
  decode-append s (x ∷ xs) ys = decode-append (on_bit finish s x) xs ys

  decode_step :
      (s : Deframer F) (b : ℕ) (s' : Deframer F) (xs : List ℕ)
      → on_bit finish s b ≡ s'
      → decode finish s (b ∷ xs) ≡ decode finish s' xs
  unfolding decode
  decode_step s b s' xs e = ap (λ t. decode finish t xs) e

  one_more :
      (l k : ℕ) (f : List ℕ) (fs : List F)
      → k < 7
      → on_bit finish (within l k f fs) 1 ≡ within l (k + 1) f fs
  unfolding on_bit
  one_more l k f fs h = ground arith

  data_zero :
      (l k : ℕ) (f : List ℕ) (fs : List F)
      → k < 5
      → on_bit finish (within l k f fs) 0 ≡ within l 0 (f ++ (replicate k 1 ++ 0 ∷ [])) fs
  unfolding on_bit on_zero
  data_zero l k f fs h = ground arith

  stuffed_zero :
      (l : ℕ) (f : List ℕ) (fs : List F)
      → on_bit finish (within l 5 f fs) 0 ≡ within l 0 (f ++ replicate 5 1) fs
  unfolding on_bit on_zero
  stuffed_zero l f fs = refl

  six_ones :
      (l : ℕ) (bits : List ℕ) (fs : List F)
      → decode finish (within l 0 bits fs) (1 ∷ 1 ∷ 1 ∷ 1 ∷ 1 ∷ 1 ∷ 0 ∷ [])
        ≡ within l 0 [] (push_frame fs (finish bits))
  unfolding decode on_bit on_zero
  six_ones l bits fs = refl

  same_bits :
      (l : ℕ) (fs : List F) {bits bits' : List ℕ}
      → bits ≡ bits'
      → within l 0 [] (push_frame fs (finish bits)) ≡ within l 0 [] (push_frame fs (finish bits'))
  same_bits l fs e = ap (λ bits. within l 0 [] (push_frame fs (finish bits))) e

  -- the bits of a frame and the closing flag
  decode-stuff :
      (l k : ℕ) (f : List ℕ) (fs : List F) (bs : List ℕ)
      → k < 5
      → AreBits bs
      → decode finish (within l k f fs) (stuff k bs ++ flag)
        ≡ within l 0 [] (push_frame fs (finish (f ++ (replicate k 1 ++ (bs ++ 0 ∷ [])))))
  unfolding decode stuff
  decode-stuff l k f fs [] h v =
      rw (data_zero l k f fs h) (six_ones l (f ++ (replicate k 1 ++ 0 ∷ [])) fs)
  decode-stuff l k f fs (zero ∷ bs) h v = rw (data_zero l k f fs h) (
      decode-stuff l 0 (f ++ (replicate k 1 ++ 0 ∷ [])) fs bs (omega arith) v.1
      ∙ same_bits l fs (regroup f (replicate k 1) (bs ++ 0 ∷ [])))
  decode-stuff l k f fs (suc zero ∷ bs) h v = elim (Bool-cases (k == 4)) [
    | inl p ↦
        let four : k ≡ 4 = (==_iff k 4).0 p in
        rw four (
          decode_step (within l 4 f fs) 1 _ (0 ∷ stuff 0 bs ++ flag)
            (one_more l 4 f fs (omega arith))
          ∙ decode_step (within l 5 f fs) 0 _ (stuff 0 bs ++ flag) (stuffed_zero l f fs)
          ∙ decode-stuff l 0 (f ++ replicate 5 1) fs bs (omega arith) v.1
          ∙ same_bits l fs (append_assoc f (replicate 5 1) (bs ++ 0 ∷ [])))
    | inr p ↦
        let below : k + 1 < 5 = ground arith in
        ap (λ bits. decode finish (within l k f fs) (bits ++ flag)) (stuff-one k bs p)
        ∙ decode_step (within l k f fs) 1 _ (stuff (k + 1) bs ++ flag)
            (one_more l k f fs (omega arith))
        ∙ decode-stuff l (k + 1) f fs bs below v.1
        ∙ same_bits l fs (ap (λ bits. f ++ bits) (sym (replicate_shift k (bs ++ 0 ∷ []))))
  ]
  decode-stuff l k f fs (suc (suc b) ∷ bs) h v = absurd (omega (arith, v.0))

  opened : Deframer F → Deframer F
  opened s = within s.prev_bit 0 [] s.frames

  outside_zero :
      (s : Deframer F) → s.in_frame ≡ false → s.ones < 6 → on_bit finish s 0 ≡ record s { ones = 0 }
  unfolding on_bit on_zero
  outside_zero s out h = ground arith

  outside_ones :
      (s : Deframer F)
      → s.in_frame ≡ false
      → decode finish (record s { ones = 0 }) (1 ∷ 1 ∷ 1 ∷ 1 ∷ 1 ∷ 1 ∷ 0 ∷ []) ≡ opened s
  unfolding decode on_bit on_zero opened
  outside_ones s out = rw out refl

  decode-flag : (s : Deframer F) → s.in_frame ≡ false → s.ones < 6 → decode finish s flag ≡ opened s
  decode-flag s out h =
      decode_step s 0 (record s { ones = 0 }) _ (outside_zero s out h) ∙ outside_ones s out

  -- the frames of a sequence of bit strings, each with the first zero of the flag behind it
  abbrev pub found : List F → List (List ℕ) → List F
  found fs [] = fs
  found fs (bits ∷ rest) = found (push_frame fs (finish (bits ++ 0 ∷ []))) rest

  decode-frames :
      (l : ℕ) (fs : List F) (bss : List (List ℕ))
      → AreBitLists bss
      → decode finish (within l 0 [] fs) (framed bss) ≡ within l 0 [] (found fs bss)
  unfolding decode framed
  decode-frames l fs [] v = refl
  decode-frames l fs (bs ∷ bss) v =
      decode-append (within l 0 [] fs) (stuff 0 bs ++ flag) (framed bss)
      ∙ ap (λ s. decode finish s (framed bss)) (decode-stuff l 0 [] fs bs (omega arith) v.0)
      ∙ decode-frames l (push_frame fs (finish (bs ++ 0 ∷ []))) bss v.1

  -- From an idle receiver behind a flag, frames of bits that are sent one behind another are all found, in order.
  pub receive-frames :
      (s : Deframer F) (bss : List (List ℕ))
      → s.prev_bit < 2
      → s.in_frame ≡ false
      → s.ones < 6
      → AreBitLists bss
      → (receive finish s (nrzi s.prev_bit (flag ++ framed bss))).frames ≡ found s.frames bss
  unfolding at_level opened
  receive-frames s bss l out h v =
      ap (λ t. t.frames)
        (receive-nrzi finish s.prev_bit s (flag ++ framed bss) l
            (AreBits-append flag (framed bss) flag-AreBits (framed-AreBits bss v))
          ∙ ap (at_level finish (level_after s.prev_bit (flag ++ framed bss))) (
              decode-append s flag (framed bss)
              ∙ ap (λ t. decode finish t (framed bss)) (decode-flag s out h)
              ∙ decode-frames s.prev_bit s.frames bss v))
