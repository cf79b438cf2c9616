-- ===== src/Ftx/Message/Places/RoundTrip.antt =====
-- About packing and unpacking, and about `trim` of a text with spaces around it.
use native.Mathlib.Nat.{mul-add-div_right, mul-add-mod_self_right, div-eq_of_lt, mod-eq_of_lt}
use mathlib.Core.Path.{ap₂}
use mathlib.Core.Option.{none-ne-some, some-injective}
use trx_rs.Common.{
  ℕ, zero, suc, ◌+◌, ◌*◌, ◌/◌, ◌%◌, ◌<◌, ◌≤◌, false, some, List, [], ◌∷◌, ◌++◌, if◌then◌else◌, ◌≡◌,
  refl, ap, sym, ◌∙◌, arith, length, inl, inr, Option-cases, Bool-cases,
}
use trx_rs.Ftx.Text.{charn, nchar}
use trx_rs.Ftx.Text.Tables.{size, charn-nchar}
use trx_rs.Ftx.Message.Places.{
  Place, pack_places, unpack_places, is_space, trim_start, trim_end, is_nil, trim, fill,
}

-- every radix has room for the table
abbrev pub AreWide : List Place → Type 0
AreWide [] = Unit
AreWide (p ∷ ps) = (size p.0 ≤ p.1) × AreWide ps

unfoldable pub reverse_onto : List Place → List Place → List Place
reverse_onto [] qs = qs
reverse_onto (p ∷ ps) qs = reverse_onto ps (p ∷ qs)

high : (n r j : ℕ) → j < r → (n * r + j) / r ≡ n
high n r j h =
    let room : 0 < r = omega arith in
    mul-add-div_right room n j ∙ ap (λ q. n + q) (div-eq_of_lt h) ∙ omega arith

low : (n r j : ℕ) → j < r → (n * r + j) % r ≡ j
low n r j h = mul-add-mod_self_right n r j ∙ mod-eq_of_lt h

-- one place
pub pack_one :
    (n : ℕ) (p : Place) (ps : List Place) (c : ℕ) (cs : List ℕ) (m : ℕ)
    → pack_places n (p ∷ ps) (c ∷ cs) ≡ some m
    → (j : ℕ) × ((nchar c p.0 ≡ some j) × (pack_places (n * p.1 + j) ps cs ≡ some m))
unfolding pack_places
pack_one n p ps c cs m h = elim (Option-cases (nchar c p.0)) [
  | inl e ↦ absurd (none-ne-some m (rw (e, pack_places) at h))
  | inr (j, e) ↦ (j, (e, rw (e, pack_places) at h))
]

-- Characters that pack are unpacked in their order, in front of the characters that were out before.
pub unpack_places-pack_places :
    (n : ℕ) (ps qs : List Place) (cs acc : List ℕ) (m : ℕ)
    → AreWide ps
    → length cs ≡ length ps
    → pack_places n ps cs ≡ some m
    → unpack_places (reverse_onto ps qs) m acc ≡ unpack_places qs n (cs ++ acc)
unfolding unpack_places reverse_onto pack_places
unpack_places-pack_places n [] qs [] acc m w l h =
    ap (λ k. unpack_places qs k acc) (sym (some-injective _ _ h))
unpack_places-pack_places n [] qs (c ∷ cs) acc m w l h = absurd (omega arith)
unpack_places-pack_places n (p ∷ ps) qs [] acc m w l h = absurd (omega arith)
unpack_places-pack_places n (p ∷ ps) qs (c ∷ cs) acc m w l h =
    let step = pack_one n p ps c cs m h in
    let char = charn-nchar p.0 c step.1.0 in
    let fits : step.0 < p.1 = omega (arith, w.0, char.1) in
    unpack_places-pack_places (n * p.1 + step.0) ps (p ∷ qs) cs acc m w.1 (omega arith) step.1.1
    ∙ ap₂ (λ k d. unpack_places qs k (charn d p.0 ∷ (cs ++ acc))) (high n p.1 step.0 fits)
        (low n p.1 step.0 fits)
    ∙ ap (λ d. unpack_places qs n (d ∷ (cs ++ acc))) char.0

pub length-fill : (k : ℕ) (cs : List ℕ) → length (fill k cs) ≡ k
unfolding fill
length-fill zero cs = refl
length-fill (suc k) [] = ap suc (length-fill k [])
length-fill (suc k) (c ∷ cs) = ap suc (length-fill k cs)

trim_end-spaces : (k : ℕ) → trim_end (fill k []) ≡ []
unfolding trim_end fill is_nil
trim_end-spaces zero = refl
trim_end-spaces (suc k) = rw (trim_end-spaces k) refl

-- spaces behind a text do not change what `trim` makes of it
pub trim_end-fill_any : (k : ℕ) (cs : List ℕ) → length cs ≤ k → trim_end (fill k cs) ≡ trim_end cs
unfolding trim_end fill
trim_end-fill_any k [] h = trim_end-spaces k
trim_end-fill_any zero (c ∷ cs) h = absurd (omega arith)
trim_end-fill_any (suc k) (c ∷ cs) h = rw (trim_end-fill_any k cs (omega arith)) refl

pub trim-fill_any : (k : ℕ) (cs : List ℕ) → length cs ≤ k → trim (fill k cs) ≡ trim cs
unfolding trim_start fill
trim-fill_any zero [] h = refl
trim-fill_any (suc k) [] h = trim-fill_any k [] (omega arith)
trim-fill_any zero (c ∷ cs) h = absurd (omega arith)
trim-fill_any (suc k) (c ∷ cs) h = elim (Bool-cases (is_space c)) [
  | inl e ↦ rw e (trim-fill_any k cs (omega arith))
  | inr e ↦ rw e (trim_end-fill_any (suc k) (c ∷ cs) h)
]

abbrev pub NoSpaces : List ℕ → Type 0
NoSpaces [] = Unit
NoSpaces (c ∷ cs) = (is_space c ≡ false) × NoSpaces cs

-- The spaces behind a text without spaces are trimmed.
pub trim_end-fill : (k : ℕ) (cs : List ℕ) → NoSpaces cs → length cs ≤ k → trim_end (fill k cs) ≡ cs
unfolding trim_end fill is_nil
trim_end-fill k [] v h = trim_end-spaces k
trim_end-fill zero (c ∷ cs) v h = absurd (omega arith)
trim_end-fill (suc k) (c ∷ cs) v h = rw (trim_end-fill k cs v.1 (omega arith)) (last cs)
  where
    last :
        (ds : List ℕ) → (if is_nil ds then if is_space c then [] else c ∷ [] else c ∷ ds) ≡ c ∷ ds
    last [] = rw v.0 refl
    last (d ∷ ds) = refl

pub trim_start-fill :
    (k c : ℕ) (cs : List ℕ)
    → is_space c ≡ false
    → trim_start (fill (suc k) (c ∷ cs)) ≡ fill (suc k) (c ∷ cs)
unfolding trim_start fill
trim_start-fill k c cs h = rw h refl
