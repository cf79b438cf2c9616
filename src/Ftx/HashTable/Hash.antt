-- ===== src/Ftx/HashTable/Hash.antt =====
-- The 22-bit hash of a callsign (callsign_hash.rs, `compute_callsign_hash`).
use trx_rs.Common.{
  ℕ, zero, suc, ◌+◌, ◌-◌, ◌*◌, ◌%◌, ◌^◌, ◌<◌, ◌≤◌, Option, none, some, List, [], ◌∷◌, ◌++◌, ◌≡◌,
  refl, ap, inl, inr, arith, length, length-append, take, Option-cases,
}
use trx_rs.Ftx.Text.{alphanum_space_slash, nchar}
use trx_rs.Ftx.HashTable.{hash_chars, finish_hash, finish, compute_callsign_hash}

pub compute_callsign_hash-lt : (s : List ℕ) {h : ℕ} → compute_callsign_hash s ≡ some h → h < 2 ^ 22
unfolding compute_callsign_hash
compute_callsign_hash-lt s e = ground arith

-- one more space in front of the padding
abbrev with_space : Option (ℕ × ℕ) → Option (ℕ × ℕ)
with_space none = none
with_space (some (n, i)) = some (38 * n % 2 ^ 64, i + 1)

space_digit : nchar b' ' alphanum_space_slash ≡ some 0
unfolding nchar
space_digit = refl

hash_chars-space :
    (n i : ℕ) (s : List ℕ) → hash_chars n i (s ++ b' ' ∷ []) ≡ with_space (hash_chars n i s)
unfolding hash_chars
hash_chars-space n i [] = ground (arith, space_digit)
hash_chars-space n i (c ∷ s) = elim (Option-cases (nchar c alphanum_space_slash)) [
  | inl p ↦ rw (p, hash_chars)
  | inr (j, p) ↦ rw (p, hash_chars) (hash_chars-space ((38 * n + j) % 2 ^ 64) (i + 1) s)
]

-- the count of characters, where all are in the table
abbrev Counts : ℕ → Option (ℕ × ℕ) → Type 0
Counts k none = Unit
Counts k (some (n, i)) = i ≡ k

hash_chars-Counts : (n i k : ℕ) (s : List ℕ) → i + length s ≡ k → Counts k (hash_chars n i s)
unfolding hash_chars
hash_chars-Counts n i k [] e = omega arith
hash_chars-Counts n i k (c ∷ s) e = elim (Option-cases (nchar c alphanum_space_slash)) [
  | inl p ↦ rw (p, hash_chars) tt
  | inr (j, p) ↦
      rw (p, hash_chars) (hash_chars-Counts ((38 * n + j) % 2 ^ 64) (i + 1) k s (omega arith))
]

take_all {ℓ} : {A : Type ℓ} (n : ℕ) (s : List A) → length s ≤ n → take n s ≡ s
take_all zero [] h = refl
take_all zero (x ∷ s) h = absurd (omega arith)
take_all (suc n) [] h = refl
take_all (suc n) (x ∷ s) h = ap (λ t. x ∷ t) (take_all n s (omega arith))

finish_space : (r : Option (ℕ × ℕ)) (k : ℕ) → k < 11 → Counts k r → finish (with_space r) ≡ finish r
unfolding finish_hash
finish_space none k h c = refl
finish_space (some (n, i)) k h c = let more : 11 - i ≡ suc (11 - (i + 1)) = omega arith in rw more

compute_short : (s : List ℕ) → length s ≤ 11 → compute_callsign_hash s ≡ finish (hash_chars 0 0 s)
unfolding compute_callsign_hash
compute_short s h = ap (λ t. finish (hash_chars 0 0 t)) (take_all 11 s h)

-- A space behind a callsign of at most ten characters does not change its hash.
pub compute_callsign_hash-space :
    (s : List ℕ) → length s < 11 → compute_callsign_hash (s ++ b' ' ∷ []) ≡ compute_callsign_hash s
compute_callsign_hash-space s h = rw (compute_short s (omega arith)) (
    rw (compute_short (s ++ b' ' ∷ []) (omega (arith, length-append s (b' ' ∷ [])))) (
      rw (hash_chars-space 0 0 s) (
        finish_space (hash_chars 0 0 s) (length s) h
          (hash_chars-Counts 0 0 (length s) s (omega arith)))))
