-- ===== src/Ftx/Message/Callsign/Long.antt =====
-- About a call in 58 bits.
use mathlib.Core.List.{append-nil}
use trx_rs.Common.{
  ℕ, zero, suc, ◌+◌, ◌*◌, ◌/◌, ◌^◌, ◌<◌, ◌≤◌, true, false, none, some, List, [], ◌∷◌, leb, ◌==◌,
  length, take, replicate, length-replicate, ◌-◌, ◌≡◌, ◌≢◌, refl, sym, ap, ◌∙◌, arith, inl, inr,
  Bool-cases, Option-cases,
}
use trx_rs.Ftx.Text.{alphanum_space_slash, charn, nchar}
use trx_rs.Ftx.HashTable.{CallsignHashTable, add, compute_callsign_hash}
use trx_rs.Ftx.Message.Places.{Place, pack_places, unpack_places, trim_start, trim, fill}
use trx_rs.Ftx.Message.Places.RoundTrip.{
  AreWide, reverse_onto, unpack_places-pack_places, NoSpaces, trim_end-fill, trim_end-fill_any,
}
use trx_rs.Ftx.Message.Places.Bounds.{room, pack_places-lt}
use trx_rs.Ftx.Message.Callsign.{
  save_callsign, keep_call, trim_front, trim_back, trim_brackets, pack58_loop, finish58, pack58,
  places58, unpack58,
}

abbrev place58 : Place
place58 = (alphanum_space_slash, 38)

-- every character is one of the 38
abbrev pub AreKnown : List ℕ → Type 0
AreKnown [] = Unit
AreKnown (c ∷ cs) = (nchar c alphanum_space_slash ≢ none) × AreKnown cs

-- a call of three to eleven such characters, without a space
pub record IsCall58 (s : List ℕ) : Type 0 where
  pub known : AreKnown s
  pub no_spaces : NoSpaces s
  pub long : 3 ≤ length s
  pub short : length s ≤ 11
  pub hash : ℕ
  pub hashed : compute_callsign_hash s ≡ some hash

pub known-ne :
    (c d : ℕ)
    → nchar c alphanum_space_slash ≢ none
    → nchar d alphanum_space_slash ≡ none
    → (c == d) ≡ false
known-ne c d h e = elim (Bool-cases (c == d)) [
  | inl y ↦
      let same : c ≡ d = ground (arith, y) in
      absurd (h (ap (λ x. nchar x alphanum_space_slash) same ∙ e))
  | inr f ↦ f
]

trim_back-AreKnown : (s : List ℕ) → AreKnown s → trim_back b'>' s ≡ s
unfolding trim_back nchar
trim_back-AreKnown [] v = refl
trim_back-AreKnown (c ∷ []) v = rw (known-ne c b'>' v.0 refl) refl
trim_back-AreKnown (c ∷ d ∷ s) v = rw (trim_back-AreKnown (d ∷ s) v.1) refl

trim_brackets-AreKnown : (s : List ℕ) → AreKnown s → trim_brackets s ≡ s
unfolding trim_brackets trim_front nchar
trim_brackets-AreKnown [] v = trim_back-AreKnown [] v
trim_brackets-AreKnown (c ∷ s) v = rw (known-ne c b'<' v.0 refl) (trim_back-AreKnown (c ∷ s) v)

take-all : (k : ℕ) (s : List ℕ) → length s ≤ k → take k s ≡ s
take-all zero [] h = refl
take-all (suc k) [] h = refl
take-all zero (c ∷ s) h = absurd (omega arith)
take-all (suc k) (c ∷ s) h = ap (λ r. c ∷ r) (take-all k s (omega arith))

loops :
    (s : List ℕ) (n : ℕ)
    → AreKnown s
    → (m : ℕ) × ((pack58_loop n s ≡ some (m, s))
        × (pack_places n (replicate (length s) place58) s ≡ some m))
unfolding pack58_loop pack_places
loops [] n v = (n, (refl, refl))
loops (c ∷ s) n v = elim (Option-cases (nchar c alphanum_space_slash)) [
  | inl e ↦ absurd (v.0 e)
  | inr (j, e) ↦
      let rest = loops s (n * 38 + j) v.1 in
      (rest.0, (rw (e, pack58_loop, rest.1.0) refl, rw (e, pack_places) rest.1.1))
]

reverse_onto-replicate :
    (k j : ℕ) → reverse_onto (replicate k place58) (replicate j place58) ≡ replicate (k + j) place58
unfolding reverse_onto
reverse_onto-replicate zero j = ap (λ i. replicate i place58) (omega arith)
reverse_onto-replicate (suc k) j =
    reverse_onto-replicate k (suc j) ∙ ap (λ i. replicate i place58) (omega arith)

trim-unpack_zero : (j : ℕ) (cs : List ℕ) → trim (unpack_places (replicate j place58) 0 cs) ≡ trim cs
unfolding unpack_places charn trim_start
trim-unpack_zero zero cs = refl
trim-unpack_zero (suc j) cs = trim-unpack_zero j (b' ' ∷ cs)

trim-NoSpaces : (cs : List ℕ) → NoSpaces cs → trim cs ≡ cs
unfolding trim_start fill
trim-NoSpaces [] v = trim_end-fill 0 [] v (omega arith)
trim-NoSpaces (c ∷ cs) v = rw v.0 (
    sym (trim_end-fill_any (length (c ∷ cs)) (c ∷ cs) (omega arith))
    ∙ trim_end-fill (length (c ∷ cs)) (c ∷ cs) v (omega arith))

wide58 : (k : ℕ) → AreWide (replicate k place58)
wide58 zero = tt
wide58 (suc k) = (omega arith, wide58 k)

room-replicate_le : (k j : ℕ) → k ≤ j → room (replicate k place58) ≤ room (replicate j place58)
room-replicate_le zero zero h = omega arith
room-replicate_le zero (suc j) h = omega (arith, room-replicate_le zero j (omega arith))
room-replicate_le (suc k) zero h = absurd (omega arith)
room-replicate_le (suc k) (suc j) h = omega (arith, room-replicate_le k j (omega arith))

unpack_text :
    (s : List ℕ) (m : ℕ)
    → IsCall58 s
    → pack_places 0 (replicate (length s) place58) s ≡ some m
    → trim (unpack_places places58 m []) ≡ s
unfolding unpack_places
unpack_text s m v h =
    let k = length s in
    let l : length s ≡ length (replicate k place58) = sym (length-replicate k place58) in
    let eleven : k + (11 - k) ≡ 11 = omega (arith, v.short) in
    let all = reverse_onto-replicate k (11 - k) ∙ ap (λ i. replicate i place58) eleven in
    ap trim (
      ap (λ ps. unpack_places ps m []) (sym all)
      ∙ unpack_places-pack_places 0 (replicate k place58) (replicate (11 - k) place58) s [] m
          (wide58 k) l h
      ∙ ap (unpack_places (replicate (11 - k) place58) 0) (append-nil s))
    ∙ trim-unpack_zero (11 - k) s
    ∙ trim-NoSpaces s v.no_spaces

save_callsign-IsCall58 :
    (s : List ℕ) (ht : CallsignHashTable) (v : IsCall58 s)
    → save_callsign s ht ≡ some ((v.hash, (v.hash / 2 ^ 10, v.hash / 2 ^ 12)), add s v.hash ht)
unfolding save_callsign
save_callsign-IsCall58 s ht v = rw (v.hashed, save_callsign) refl

-- A call of three to eleven characters is read back from its 58 bits with any table.
pub unpack58-pack58 :
    (s : List ℕ) (v : IsCall58 s)
    → (n : ℕ) × ((n < 2 ^ 58)
        × (((ht : CallsignHashTable) → pack58 ht s ≡ some (n, add s v.hash ht))
            × ((ht : CallsignHashTable) → unpack58 n ht ≡ some (s, add s v.hash ht))))
unfolding pack58 unpack58 keep_call
unpack58-pack58 s v =
    let k = length s in
    let plain = ap (take 11) (trim_brackets-AreKnown s v.known) ∙ take-all 11 s v.short in
    let packed = loops s 0 v.known in
    let n = packed.0 in
    let back = unpack_text s n v packed.1.1 in
    let long : leb 3 (length s) ≡ true = ground (arith, v.long) in
    let below = pack_places-lt 0 n (replicate k place58) s (wide58 k) packed.1.1 in
    let widest : room (replicate k place58) ≤ room (replicate 11 place58) =
      room-replicate_le k 11 v.short in
    (
      n,
      (
        omega (arith, below, widest),
        (
          (λ ht. rw (plain, packed.1.0, save_callsign-IsCall58 s ht v, finish58) refl),
          (λ ht. rw (back, long, save_callsign-IsCall58 s ht v) refl),
        ),
      ),
    )
