-- ===== src/Protocol/Text/Ascii.antt =====
-- About texts of one-byte characters.
use mathlib.Core.Option.{none-ne-some}
use trx_rs.Common.{
  ℕ, ◌+◌, ◌-◌, ◌≤◌, true, false, none, List, [], ◌∷◌, ◌++◌, length, ltb, leb, ◌==◌, ◌≡◌, ◌≢◌, inl,
  inr, refl, sym, arith, Bool-cases, Option-cases,
}
use trx_rs.Protocol.Text.{
  utf8_len, byte_len, is_whitespace, trim_start, trim_end, in_front, trim, before, split_at,
  IsAscii,
}

trim_start-IsAscii : (s : List ℕ) → IsAscii s → IsAscii (trim_start s)
unfolding trim_start
trim_start-IsAscii [] v = tt
trim_start-IsAscii (c ∷ cs) v = elim (Bool-cases (is_whitespace c)) [
  | inl y ↦ rw y (trim_start-IsAscii cs v.1)
  | inr n ↦ rw n v
]

in_front-IsAscii : (c : ℕ) (cs : List ℕ) → ltb c 0x80 ≡ true → IsAscii cs → IsAscii (in_front c cs)
unfolding in_front
in_front-IsAscii c [] h v = elim (Bool-cases (is_whitespace c)) [
  | inl y ↦ rw y tt
  | inr n ↦ rw n (h, tt)
]
in_front-IsAscii c (d ∷ ds) h v = (h, v)

trim_end-IsAscii : (s : List ℕ) → IsAscii s → IsAscii (trim_end s)
unfolding trim_end
trim_end-IsAscii [] v = tt
trim_end-IsAscii (c ∷ cs) v = in_front-IsAscii c (trim_end cs) v.0 (trim_end-IsAscii cs v.1)

-- a text of one-byte characters can be split wherever it has a byte
pub split_at-IsAscii : (n : ℕ) (s : List ℕ) → IsAscii s → n ≤ byte_len s → split_at n s ≢ none
unfolding split_at before
split_at-IsAscii n [] v h e =
    let z : (n == 0) ≡ true = ground (arith, h) in none-ne-some _ (sym (rw z at e))
split_at-IsAscii n (c ∷ cs) v h e =
    let long : n ≤ 1 + byte_len cs = rw v.0 at h in
    elim (Bool-cases (n == 0)) [
      | inl z ↦ none-ne-some _ (sym (rw z at e))
      | inr f ↦
          let fits : leb 1 n ≡ true = ground (arith, f) in
          elim (Option-cases (split_at (n - 1) cs)) [
            | inl x ↦ split_at-IsAscii (n - 1) cs v.1 (omega (arith, long)) x
            | inr (r, x) ↦ none-ne-some _ (sym (rw (v.0, f, fits, x, before) at e))
          ]
    ]

pub trim-IsAscii : (s : List ℕ) → IsAscii s → IsAscii (trim s)
trim-IsAscii s v = trim_end-IsAscii (trim_start s) (trim_start-IsAscii s v)

pub byte_len-append : (s t : List ℕ) → IsAscii s → byte_len (s ++ t) ≡ length s + byte_len t
byte_len-append [] t v = omega arith
byte_len-append (c ∷ s) t v = rw v.0 (omega (arith, byte_len-append s t v.1))

wide_char : (c : ℕ) → ltb c 0x80 ≡ false → leb (utf8_len c) 1 ≡ false
wide_char c h = ground (arith, h)

-- a slice that ends inside a character
pub split_at-inside :
    (n : ℕ) (head tail : List ℕ) (c : ℕ)
    → IsAscii head
    → length head + 1 ≡ n
    → ltb c 0x80 ≡ false
    → split_at n (head ++ c ∷ tail) ≡ none
unfolding split_at before
split_at-inside n [] tail c v l h = let one : n ≡ 1 = omega arith in rw (one, wide_char c h) refl
split_at-inside n (d ∷ head) tail c v l h =
    let more : (n == 0) ≡ false = ground (arith, l) in
    let fits : leb 1 n ≡ true = ground (arith, l) in
    rw (more, v.0, fits, split_at-inside (n - 1) head tail c v.1 (omega arith) h) refl
