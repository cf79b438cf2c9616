-- ===== src/Hdlc/Stuffing.antt =====
-- A transmitter of the HDLC standard, and what the receiver makes of its bits.
use trx_rs.Common.{
  ℕ, zero, suc, ◌+◌, ◌-◌, ◌<◌, Option, List, [], ◌∷◌, ◌++◌, ◌≡◌, refl, ap, ◌∙◌, inl, inr, arith,
  ◌==◌, if◌then◌else◌, Bool-cases,
}
use trx_rs.Hdlc.{Deframer, on_bit, process_symbol, receive}

-- five ones in a row are followed by a zero; k ones stand before
unfoldable pub stuff : ℕ → List ℕ → List ℕ
stuff k [] = []
stuff k (b ∷ bs) =
    if b == 1 then (if k == 4 then 1 ∷ 0 ∷ stuff 0 bs else 1 ∷ stuff (k + 1) bs) else 0 ∷ stuff 0 bs

abbrev pub flag : List ℕ
flag = 0 ∷ 1 ∷ 1 ∷ 1 ∷ 1 ∷ 1 ∷ 1 ∷ 0 ∷ []

-- a one keeps the level of the line, and a zero changes it
abbrev pub next_level : ℕ → ℕ → ℕ
next_level level b = if b == 1 then level else 1 - level

unfoldable pub nrzi : ℕ → List ℕ → List ℕ
nrzi level [] = []
nrzi level (b ∷ bs) = next_level level b ∷ nrzi (next_level level b) bs

-- the level behind the bits
unfoldable pub level_after : ℕ → List ℕ → ℕ
level_after level [] = level
level_after level (b ∷ bs) = level_after (next_level level b) bs

-- the receiver behind the NRZI decoding
unfoldable pub decode : {F : Type 0} → (List ℕ → Option F) → Deframer F → List ℕ → Deframer F
decode finish s [] = s
decode finish s (b ∷ bs) = decode finish (on_bit finish s b) bs

abbrev pub AreBits : List ℕ → Type 0
AreBits [] = Unit
AreBits (b ∷ bs) = (b < 2) × AreBits bs

pub AreBits-append : (xs ys : List ℕ) → AreBits xs → AreBits ys → AreBits (xs ++ ys)
AreBits-append [] ys v w = w
AreBits-append (x ∷ xs) ys v w = (v.0, AreBits-append xs ys v.1 w)

pub stuff-AreBits : (k : ℕ) (bs : List ℕ) → AreBits bs → AreBits (stuff k bs)
unfolding stuff
stuff-AreBits k [] v = tt
stuff-AreBits k (b ∷ bs) v =
    let at_0 = stuff-AreBits 0 bs v.1 in
    let more = stuff-AreBits (k + 1) bs v.1 in
    elim (Bool-cases (b == 1)) [
      | inl one ↦ elim (Bool-cases (k == 4)) [
        | inl full ↦ rw (one, full) (omega arith, (omega arith, at_0))
        | inr room ↦ rw (one, room) (omega arith, more)
      ]
      | inr other ↦ rw other (omega arith, at_0)
    ]

module _ {F : Type 0} (finish : List ℕ → Option F) where
  unfoldable pub at_level : ℕ → Deframer F → Deframer F
  at_level l s = record s { prev_bit = l }

  on_bit-at_level :
      (l : ℕ) (s : Deframer F) (b : ℕ)
      → on_bit finish (at_level l s) b ≡ at_level l (on_bit finish s b)
  unfolding on_bit at_level
  on_bit-at_level l s b = ground arith

  process_symbol-nrzi :
      (level : ℕ) (s : Deframer F) (b : ℕ)
      → level < 2
      → b < 2
      → process_symbol finish (at_level level s) (next_level level b)
        ≡ at_level (next_level level b) (on_bit finish s b)
  unfolding process_symbol at_level
  process_symbol-nrzi zero s zero l v = on_bit-at_level 1 s 0
  process_symbol-nrzi zero s (suc zero) l v = on_bit-at_level 0 s 1
  process_symbol-nrzi (suc zero) s zero l v = on_bit-at_level 0 s 0
  process_symbol-nrzi (suc zero) s (suc zero) l v = on_bit-at_level 1 s 1
  process_symbol-nrzi (suc (suc level)) s b l v = absurd (omega arith)
  process_symbol-nrzi level s (suc (suc b)) l v = absurd (omega arith)

  next_level-lt : (level b : ℕ) → level < 2 → next_level level b < 2
  next_level-lt level b l = ground arith

  pub receive-nrzi :
      (level : ℕ) (s : Deframer F) (bs : List ℕ)
      → level < 2
      → AreBits bs
      → receive finish (at_level level s) (nrzi level bs)
        ≡ at_level (level_after level bs) (decode finish s bs)
  unfolding receive nrzi level_after decode
  receive-nrzi level s [] l v = refl
  receive-nrzi level s (b ∷ bs) l v =
      ap (λ t. receive finish t (nrzi (next_level level b) bs))
        (process_symbol-nrzi level s b l v.0)
      ∙ (receive-nrzi (next_level level b) (on_bit finish s b) bs (next_level-lt level b l) v.1)
