-- ===== src/Ftx/Crc/RoundTrip.antt =====
-- `ftx_add_crc` and `ftx_check_crc` one after the other (crc.rs).
use Prim.Native.Nat.add
use native.Mathlib.Nat.{suc-add}
use mathlib.Core.List.{append_assoc}
use mathlib.Core.Bool.{false≢true}
use trx_rs.Common.{
  ℕ, zero, suc, ◌+◌, ◌*◌, ◌/◌, ◌%◌, ◌^◌, ◌<◌, ◌≤◌, true, List, [], ◌∷◌, ◌++◌, ◌≡◌, refl, ap, ◌∙◌,
  ◌≢◌, sym, inl, inr, arith, Bool-cases, ◌==◌, ==_iff, get_or, set, take, length, length-append,
  length-take,
}
use trx_rs.Ftx.Crc.{
  crc_loop, ftx_compute_crc, ftx_extract_crc, clear_low3, ftx_add_crc, ftx_check_crc,
}

get_or-skip : (b ys : List ℕ) (i n : ℕ) → length b ≡ n → get_or (b ++ ys) (n + i) 0 ≡ get_or ys i 0
get_or-skip [] ys i zero h = rw add.zero
get_or-skip [] ys i (suc n) h = absurd (omega arith)
get_or-skip (x ∷ b) ys i zero h = absurd (omega arith)
get_or-skip (x ∷ b) ys i (suc n) h = rw suc-add (get_or-skip b ys i n (omega arith))

set-skip : (b ys : List ℕ) (i v n : ℕ) → length b ≡ n → set (b ++ ys) (n + i) v ≡ b ++ set ys i v
set-skip [] ys i v zero h = rw add.zero
set-skip [] ys i v (suc n) h = absurd (omega arith)
set-skip (x ∷ b) ys i v zero h = absurd (omega arith)
set-skip (x ∷ b) ys i v (suc n) h = rw suc-add (ap (λ r. x ∷ r) (set-skip b ys i v n (omega arith)))

get_or_prefix : (p s t : List ℕ) (i : ℕ) → i < length p → get_or (p ++ s) i 0 ≡ get_or (p ++ t) i 0
get_or_prefix [] s t i h = absurd (omega arith)
get_or_prefix (x ∷ p) s t zero h = refl
get_or_prefix (x ∷ p) s t (suc i) h = get_or_prefix p s t i (omega arith)

-- the loop reads no byte behind the bits that it is given
crc_loop_prefix :
    (left : ℕ) (p s t : List ℕ) (idx_bit idx_byte r : ℕ)
    → idx_byte ≡ (idx_bit + 7) / 8
    → idx_bit + left ≤ 8 * length p
    → crc_loop left (p ++ s) idx_bit idx_byte r ≡ crc_loop left (p ++ t) idx_bit idx_byte r
unfolding crc_loop
crc_loop_prefix zero p s t idx_bit idx_byte r e h = refl
crc_loop_prefix (suc left) p s t idx_bit idx_byte r e h = elim (Bool-cases (idx_bit % 8 == 0)) [
  | inl z ↦
      let aligned : idx_bit % 8 ≡ 0 = (==_iff (idx_bit % 8) 0).0 z in
      rw z (
        rw (get_or_prefix p s t idx_byte (omega arith))
          (crc_loop_prefix left p s t (idx_bit + 1) (idx_byte + 1) _ (omega arith) (omega arith)))
  | inr z ↦
      let between : idx_bit % 8 ≢ 0 = λ q. false≢true (sym z ∙ (==_iff (idx_bit % 8) 0).1 q) in
      rw z (crc_loop_prefix left p s t (idx_bit + 1) idx_byte _ (omega arith) (omega arith))
]

crc_same :
    (b : List ℕ) (x s t : ℕ)
    → length b ≡ 9
    → ftx_compute_crc (b ++ x ∷ 0 ∷ s ∷ []) 82 ≡ ftx_compute_crc (b ++ x ∷ 0 ∷ t ∷ []) 82
unfolding ftx_compute_crc
crc_same b x s t h =
    let split : (r : ℕ) → b ++ x ∷ 0 ∷ r ∷ [] ≡ (b ++ x ∷ 0 ∷ []) ++ r ∷ [] =
      λ r. sym (append_assoc b (x ∷ 0 ∷ []) (r ∷ [])) in
    rw (split s, split t)
      (ap (λ c. c % 2 ^ 14)
        (crc_loop_prefix 82 (b ++ x ∷ 0 ∷ []) (s ∷ []) (t ∷ []) 0 0 0 (omega arith)
          (omega (arith, length-append b (x ∷ 0 ∷ [])))))

-- the three bytes that carry a checksum behind the bits that the payload leaves
carry_crc :
    (ninth c : ℕ)
    → c < 2 ^ 14
    → let x = clear_low3 ninth + c / 2 ^ 11 % 2 ^ 8 in
      (x % 2 ^ 3 * 2 ^ 11 + c / 2 ^ 3 % 2 ^ 8 * 2 ^ 3 + c * 2 ^ 5 % 2 ^ 16 % 2 ^ 8 / 2 ^ 5 ≡ c)
      × (clear_low3 x ≡ clear_low3 ninth)
carry_crc ninth c h = (omega arith, omega arith)

compute-lt : (m : List ℕ) (n : ℕ) → ftx_compute_crc m n < 2 ^ 14
unfolding ftx_compute_crc
compute-lt m n = omega arith

-- `ftx_check_crc` reads off the three bytes behind the first nine
check_of_parts :
    (b : List ℕ) (x y z : ℕ)
    → length b ≡ 9
    → ftx_check_crc (b ++ x ∷ y ∷ z ∷ []) ≡ (
        x % 2 ^ 3 * 2 ^ 11 + y * 2 ^ 3 + z / 2 ^ 5
        == ftx_compute_crc (b ++ clear_low3 x ∷ 0 ∷ z ∷ []) 82)
unfolding ftx_check_crc ftx_extract_crc
check_of_parts b x y z h =
    let ys = x ∷ y ∷ z ∷ [] in
    let e9 : get_or (b ++ ys) 9 0 ≡ x = get_or-skip b ys 0 9 h in
    let e10 : get_or (b ++ ys) 10 0 ≡ y = get_or-skip b ys 1 9 h in
    let e11 : get_or (b ++ ys) 11 0 ≡ z = get_or-skip b ys 2 9 h in
    let cleared : set (set (b ++ ys) 9 (clear_low3 x)) 10 0 ≡ b ++ clear_low3 x ∷ 0 ∷ z ∷ [] =
      ap (λ m. set m 10 0) (set-skip b ys 0 (clear_low3 x) 9 h)
      ∙ set-skip b (clear_low3 x ∷ y ∷ z ∷ []) 1 0 9 h in
    cc (e9, e10, e11, cleared)

-- A message of at least ten bytes to which `ftx_add_crc` has added the checksum passes
-- `ftx_check_crc`, whatever the buffer held before.
pub ftx_check_crc-ftx_add_crc :
    (payload a91 : List ℕ) → 10 ≤ length payload → ftx_check_crc (ftx_add_crc payload a91) ≡ true
unfolding ftx_add_crc
ftx_check_crc-ftx_add_crc payload a91 h =
    let b = take 9 payload in
    let nine : length b ≡ 9 = omega (arith, length-take 9 payload) in
    let ninth = get_or payload 9 0 in
    let c = ftx_compute_crc (b ++ clear_low3 ninth ∷ 0 ∷ get_or a91 11 0 ∷ []) 82 in
    let x = clear_low3 ninth + c / 2 ^ 11 % 2 ^ 8 in
    let z = c * 2 ^ 5 % 2 ^ 16 % 2 ^ 8 in
    let (read, cleared) = carry_crc ninth c (compute-lt _ 82) in
    let again : ftx_compute_crc (b ++ clear_low3 x ∷ 0 ∷ z ∷ []) 82 ≡ c =
      ap (λ n. ftx_compute_crc (b ++ n ∷ 0 ∷ z ∷ []) 82) cleared
      ∙ crc_same b (clear_low3 ninth) z (get_or a91 11 0) nine in
    check_of_parts b x (c / 2 ^ 3 % 2 ^ 8) z nine ∙ (==_iff _ _).1 (read ∙ sym again)
