-- ===== src/Ftx/Message/Callsign/Standard.antt =====
-- About `pack_basecall` and the unpacking of a standard call.
use trx_rs.Common.{
  ℕ, suc, ◌<◌, ◌≤◌, Bool, true, false, ◌&&◌, Option, none, some, List, [], ◌∷◌, ◌++◌, ltb, leb,
  get_or, drop, length, if◌then◌else◌, ◌≡◌, refl, ap, ◌∙◌, arith, Option-cases, inl, inr,
}
use mathlib.Core.List.{append-nil}
use mathlib.Core.Option.{none-ne-some}
use trx_rs.Ftx.Text.{is_digit, is_uppercase}
use trx_rs.Ftx.Message.Places.{
  pack_places, unpack_places, is_space, trim_start, trim_end, trim, fill,
}
use trx_rs.Ftx.Message.Places.RoundTrip.{
  AreWide, reverse_onto, unpack_places-pack_places, NoSpaces, length-fill, trim_end-fill,
  trim_start-fill,
}
use trx_rs.Ftx.Message.Callsign.{
  starts_with, swaziland, guinea, basecall_chars, call_places, call_places_back, pack_basecall,
  expand_call,
}

-- six characters that pack are unpacked to the same six
c6_back :
    (c6 : List ℕ) (n : ℕ)
    → length c6 ≡ 6
    → pack_places 0 call_places c6 ≡ some n
    → unpack_places call_places_back n [] ≡ c6
unfolding unpack_places reverse_onto
c6_back c6 n l h =
    let wide : AreWide call_places = (
      omega arith,
      (omega arith, (omega arith, (omega arith, (omega arith, (omega arith, tt))))),
    ) in
    unpack_places-pack_places 0 call_places [] c6 [] n wide l h ∙ append-nil c6

-- A call whose plain spelling is not that of another call's short form: no `Q`, no `3D0` in front.
abbrev pub IsPlain : List ℕ → Type 0
IsPlain s =
    NoSpaces s
    × ((starts_with s (b'Q' ∷ []) ≡ false) × (starts_with s (b'3' ∷ b'D' ∷ b'0' ∷ []) ≡ false))

trim-fill :
    (k c : ℕ) (cs : List ℕ)
    → is_space c ≡ false
    → NoSpaces cs
    → length cs ≤ k
    → trim (fill (suc k) (c ∷ cs)) ≡ c ∷ cs
trim-fill k c cs h v l =
    ap trim_end (trim_start-fill k c cs h) ∙ trim_end-fill (suc k) (c ∷ cs) (h, v) (omega arith)

-- the short form of a call, and the call itself
abbrev StandsFor : List ℕ → List ℕ → Type 0
StandsFor s c6 = (length c6 ≡ 6) × (expand_call c6 ≡ s)

swaziland_call :
    (s : List ℕ)
    → NoSpaces s
    → starts_with s swaziland ≡ true
    → 4 < length s
    → length s ≤ 7
    → StandsFor s (b'3' ∷ b'D' ∷ b'0' ∷ fill 3 (drop 4 s))
unfolding expand_call fill
swaziland_call (c0 ∷ c1 ∷ c2 ∷ c3 ∷ e ∷ r) v h l m =
    let e0 : c0 ≡ b'3' = ground (arith, h) in
    let e1 : c1 ≡ b'D' = ground (arith, h) in
    let e2 : c2 ≡ b'A' = ground (arith, h) in
    let e3 : c3 ≡ b'0' = ground (arith, h) in
    let plain : is_space e ≡ false = v.1.1.1.1.0 in
    let back = trim-fill 2 e r plain v.1.1.1.1.1 (omega arith) in
    (omega (arith, length-fill 2 r), rw (e0, e1, e2, e3, plain) (ap (λ t. swaziland ++ t) back))
swaziland_call _ v h l m = absurd (omega arith)

guinea_call :
    (s : List ℕ)
    → NoSpaces s
    → starts_with s guinea ≡ true
    → is_uppercase (get_or s 2 0) ≡ true
    → 2 < length s
    → length s ≤ 7
    → StandsFor s (b'Q' ∷ fill 5 (drop 2 s))
unfolding expand_call fill
guinea_call (c0 ∷ c1 ∷ u ∷ r) v h up l m =
    let e0 : c0 ≡ b'3' = ground (arith, h) in
    let e1 : c1 ≡ b'X' = ground (arith, h) in
    let back = trim-fill 4 u r v.1.1.0 v.1.1.1 (omega arith) in
    (omega (arith, length-fill 4 r), rw (e0, e1, up) (ap (λ t. guinea ++ t) back))
guinea_call _ v h up l m = absurd (omega arith)

two_char_call :
    (c0 c1 c2 : ℕ) (cs : List ℕ)
    → IsPlain (c0 ∷ c1 ∷ c2 ∷ cs)
    → length cs ≤ 3
    → StandsFor (c0 ∷ c1 ∷ c2 ∷ cs) (fill 6 (c0 ∷ c1 ∷ c2 ∷ cs))
unfolding expand_call fill
two_char_call c0 c1 c2 cs v m =
    let back = trim-fill 5 c0 (c1 ∷ c2 ∷ cs) v.0.0 v.0.1 (omega arith) in
    (omega (arith, length-fill 3 cs), rw (v.1.0, v.1.1) back)

one_char_call :
    (c0 c1 c2 : ℕ) (cs : List ℕ)
    → IsPlain (c0 ∷ c1 ∷ c2 ∷ cs)
    → length cs ≤ 2
    → StandsFor (c0 ∷ c1 ∷ c2 ∷ cs) (b' ' ∷ fill 5 (c0 ∷ c1 ∷ c2 ∷ cs))
unfolding expand_call fill trim_start
one_char_call c0 c1 c2 cs v m =
    let back = trim-fill 4 c0 (c1 ∷ c2 ∷ cs) v.0.0 v.0.1 (omega arith) in
    (omega (arith, length-fill 2 cs), back)

-- every text that is chosen stands for the call
abbrev ChoiceStandsFor : List ℕ → Option (List ℕ) → Type 0
ChoiceStandsFor s none = Unit
ChoiceStandsFor s (some c6) = StandsFor s c6

if-StandsFor :
    (s : List ℕ) (b : Bool) (x y : Option (List ℕ))
    → (b ≡ true → ChoiceStandsFor s x)
    → (b ≡ false → ChoiceStandsFor s y)
    → ChoiceStandsFor s (if b then x else y)
if-StandsFor s true x y f g = f refl
if-StandsFor s false x y f g = g refl

chosen : (s : List ℕ) → IsPlain s → ChoiceStandsFor s (basecall_chars s)
unfolding basecall_chars
chosen [] v = tt
chosen (c0 ∷ []) v = tt
chosen (c0 ∷ c1 ∷ []) v = tt
chosen (c0 ∷ c1 ∷ c2 ∷ cs) v =
    let s = c0 ∷ c1 ∷ c2 ∷ cs in
    let len = length s in
    if-StandsFor s (leb len 2) none _ (λ _. tt)
      (λ _.
        if-StandsFor s (starts_with s swaziland && ltb 4 len && leb len 7) _ _
          (λ h. swaziland_call s v.0 (ground (arith, h)) (ground (arith, h)) (ground (arith, h)))
          (λ _.
            if-StandsFor s (starts_with s guinea && is_uppercase c2 && leb len 7) _ _
              (λ h.
                guinea_call s v.0 (ground (arith, h)) (ground (arith, h)) (omega arith)
                  (ground (arith, h)))
              (λ _.
                if-StandsFor s (is_digit c2 && leb len 6) _ _
                  (λ h. two_char_call c0 c1 c2 cs v (ground (arith, h)))
                  (λ _.
                    if-StandsFor s (is_digit c1 && leb len 5) _ none
                      (λ h. one_char_call c0 c1 c2 cs v (ground (arith, h))) (λ _. tt)))))

expand_call-basecall_chars :
    (s c6 : List ℕ) → IsPlain s → basecall_chars s ≡ some c6 → StandsFor s c6
expand_call-basecall_chars s c6 v h = rw h at (chosen s v)

-- A plain call that packs is the expansion of the six characters that its number unpacks to.
pub expand_call-pack_basecall :
    (s : List ℕ) (n : ℕ)
    → IsPlain s
    → pack_basecall s ≡ some n
    → expand_call (unpack_places call_places_back n []) ≡ s
unfolding pack_basecall
expand_call-pack_basecall s n v h = elim (Option-cases (basecall_chars s)) [
  | inl e ↦ absurd (none-ne-some n (rw (e, pack_basecall) at h))
  | inr (c6, e) ↦
      let packed : pack_places 0 call_places c6 ≡ some n = rw (e, pack_basecall) at h in
      let back = expand_call-basecall_chars s c6 v e in
      ap expand_call (c6_back c6 n back.0 packed) ∙ back.1
]
