-- ===== src/Protocol/Text/Split.antt =====
-- About slices of texts: where they can be taken, and what they give.
use trx_rs.Common.{
  ℕ, ◌+◌, ◌-◌, ◌≤◌, true, false, Option, none, some, List, [], ◌∷◌, ◌++◌, leb, ◌==◌, ◌≡◌, refl, ap,
  inl, inr, arith, Bool-cases,
}
use trx_rs.Protocol.Text.{utf8_len, byte_len, to_ascii_lowercase, before, split_at}

utf8_len_pos : (c : ℕ) → 1 ≤ utf8_len c
utf8_len_pos c = ground arith

pub byte_len-concat : (s t : List ℕ) → byte_len (s ++ t) ≡ byte_len s + byte_len t
byte_len-concat [] t = omega arith
byte_len-concat (c ∷ s) t = omega (arith, byte_len-concat s t)

pub byte_len-to_ascii_lowercase : (s : List ℕ) → byte_len (to_ascii_lowercase s) ≡ byte_len s
byte_len-to_ascii_lowercase [] = refl
byte_len-to_ascii_lowercase (c ∷ s) = ground (arith, byte_len-to_ascii_lowercase s)

-- a slice at the length of a beginning
pub split_at-concat : (s t : List ℕ) → split_at (byte_len s) (s ++ t) ≡ some (s, t)
unfolding split_at before
split_at-concat [] [] = refl
split_at-concat [] (c ∷ t) = refl
split_at-concat (c ∷ s) t =
    let n = utf8_len c + byte_len s in
    let some_bytes : (n == 0) ≡ false = ground (arith, utf8_len_pos c) in
    let fits : leb (utf8_len c) n ≡ true = ground arith in
    let rest : n - utf8_len c ≡ byte_len s = omega arith in
    rw (some_bytes, fits, rest, split_at-concat s t) refl

-- the two parts give the text, and the first is as long as it is asked to be
abbrev pub Parts : ℕ → List ℕ → List ℕ × List ℕ → Type 0
Parts n s p = (s ≡ p.0 ++ p.1) × (byte_len p.0 ≡ n)

abbrev PartsOf : ℕ → List ℕ → Option (List ℕ × List ℕ) → Type 0
PartsOf n s none = Unit
PartsOf n s (some p) = Parts n s p

before-PartsOf :
    (n c : ℕ) (s : List ℕ) (o : Option (List ℕ × List ℕ))
    → leb (utf8_len c) n ≡ true
    → PartsOf (n - utf8_len c) s o
    → PartsOf n (c ∷ s) (before c o)
unfolding before
before-PartsOf n c s none fits h = tt
before-PartsOf n c s (some (h, t)) fits (e, l) =
    let enough : utf8_len c ≤ n = ground (arith, fits) in
    (ap (λ x. c ∷ x) e, omega (arith, l, enough))

split_at-PartsOf : (n : ℕ) (s : List ℕ) → PartsOf n s (split_at n s)
unfolding split_at
split_at-PartsOf n [] = elim (Bool-cases (n == 0)) [
  | inl z ↦ rw z (refl, ground (arith, z))
  | inr f ↦ rw f tt
]
split_at-PartsOf n (c ∷ s) = elim (Bool-cases (n == 0)) [
  | inl z ↦ rw z (refl, ground (arith, z))
  | inr f ↦ elim (Bool-cases (leb (utf8_len c) n)) [
    | inl fits ↦
        rw (f, fits)
          (before-PartsOf n c s (split_at (n - utf8_len c) s) fits
            (split_at-PartsOf (n - utf8_len c) s))
    | inr wide ↦ rw (f, wide) tt
  ]
]

pub split_at-Parts :
    (n : ℕ) (s : List ℕ) (p : List ℕ × List ℕ) → split_at n s ≡ some p → Parts n s p
split_at-Parts n s p e = rw e at (split_at-PartsOf n s)
