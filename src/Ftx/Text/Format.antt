-- ===== src/Ftx/Text/Format.antt =====
-- `fmtmsg` (text.rs).
use trx_rs.Common.{
  ℕ, ◌&&◌, Bool, false, List, [], ◌∷◌, ◌≡◌, refl, ap, inl, inr, arith, Bool-cases, ◌==◌,
}
use trx_rs.Ftx.Text.{to_upper, fmtmsg_loop, fmtmsg, is_lowercase}

to_upper_idem : (c : ℕ) → to_upper (to_upper c) ≡ to_upper c
unfolding to_upper
to_upper_idem c = ground arith

to_upper_space : (c : ℕ) → (to_upper c == b' ') ≡ (c == b' ')
unfolding to_upper
to_upper_space c = ground arith

fmtmsg_loop_idem : (b : Bool) (s : List ℕ) → fmtmsg_loop b (fmtmsg_loop b s) ≡ fmtmsg_loop b s
unfolding fmtmsg_loop
fmtmsg_loop_idem b [] = refl
fmtmsg_loop_idem b (c ∷ cs) = elim (Bool-cases (c == b' ' && b)) [
  | inl skip ↦ rw skip (fmtmsg_loop_idem b cs)
  | inr keep ↦ rw keep (
      rw (to_upper_idem c, to_upper_space c)
        (rw keep (ap (λ r. to_upper c ∷ r) (fmtmsg_loop_idem (c == b' ') cs))))
]

-- no space follows a space, and the first character is no space if one stands before the text
abbrev pub SingleSpaced : Bool → List ℕ → Type 0
SingleSpaced spaced [] = Unit
SingleSpaced spaced (c ∷ cs) =
    ((c == b' ' && spaced) ≡ false) × (is_lowercase c ≡ false) × SingleSpaced (c == b' ') cs

to_upper-is_lowercase : (c : ℕ) → is_lowercase (to_upper c) ≡ false
unfolding to_upper
to_upper-is_lowercase c = ground arith

fmtmsg_loop-SingleSpaced : (b : Bool) (s : List ℕ) → SingleSpaced b (fmtmsg_loop b s)
unfolding fmtmsg_loop
fmtmsg_loop-SingleSpaced b [] = tt
fmtmsg_loop-SingleSpaced b (c ∷ cs) = elim (Bool-cases (c == b' ' && b)) [
  | inl skip ↦ rw skip (fmtmsg_loop-SingleSpaced b cs)
  | inr keep ↦ rw keep (
    rw (to_upper_space c) keep,
    to_upper-is_lowercase c,
    fmtmsg_loop-SingleSpaced (to_upper c == b' ') cs,
  )
]

-- A formatted message has no lowercase letter and no two spaces in a row, and formatting it again
-- changes nothing.
pub fmtmsg-SingleSpaced :
    (s : List ℕ) → SingleSpaced false (fmtmsg s) × (fmtmsg (fmtmsg s) ≡ fmtmsg s)
unfolding fmtmsg
fmtmsg-SingleSpaced s = (fmtmsg_loop-SingleSpaced false s, fmtmsg_loop_idem false s)
