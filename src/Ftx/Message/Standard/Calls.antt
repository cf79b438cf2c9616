-- ===== src/Ftx/Message/Standard/Calls.antt =====
-- About a standard call in its 28 bits.
use mathlib.Core.Option.{none-ne-some}
use mathlib.Core.Path.{ap₂}
use trx_rs.Common.{
  ℕ, ◌+◌, ◌-◌, ◌/◌, ◌^◌, ◌<◌, ◌≤◌, Bool, true, false, ◌&&◌, Option, none, some, List, [], ◌∷◌, ltb,
  leb, length, get_or, ◌≡◌, refl, sym, ap, ◌∙◌, arith, inl, inr, Bool-cases, Option-cases,
  if◌then◌else◌,
}
use trx_rs.Ftx.HashTable.{CallsignHashTable, add, compute_callsign_hash}
use trx_rs.Ftx.Text.{is_digit, is_uppercase}
use trx_rs.Ftx.Message.{call}
use trx_rs.Ftx.Message.Places.{pack_places}
use trx_rs.Ftx.Message.Places.RoundTrip.{AreWide, NoSpaces}
use trx_rs.Ftx.Message.Places.Bounds.{pack_places-lt}
use trx_rs.Ftx.Message.Callsign.{
  max22, ntokens, same_text, starts_with, ends_with, de, qrz, cq, cq_space, slash_p, slash_r,
  basecall_chars, call_places, pack_basecall, swaziland, guinea, save_callsign, pack28, unpack28,
}
use trx_rs.Ftx.Message.Callsign.Standard.{IsPlain, expand_call-pack_basecall}

-- a call that packs into 28 bits without a hash, and is spelled as it is unpacked
pub record IsStandard (s : List ℕ) : Type 0 where
  pub plain : IsPlain s
  pub no_p : ends_with s slash_p ≡ false
  pub no_r : ends_with s slash_r ≡ false
  pub bits : ℕ
  pub packed : pack_basecall s ≡ some bits
  pub hash : ℕ
  pub hashed : compute_callsign_hash s ≡ some hash

same_text-eq : (s t : List ℕ) → same_text s t ≡ true → s ≡ t
same_text-eq [] [] h = refl
same_text-eq [] (d ∷ t) h = absurd (ground (arith, h))
same_text-eq (c ∷ s) [] h = absurd (ground (arith, h))
same_text-eq (c ∷ s) (d ∷ t) h =
    let e : c ≡ d = ground (arith, h) in
    let r : same_text s t ≡ true = ground (arith, h) in ap₂ (λ x xs. x ∷ xs) e (same_text-eq s t r)

-- a text that does not pack is another one
other_text :
    (s t : List ℕ) (n : ℕ)
    → pack_basecall s ≡ some n
    → pack_basecall t ≡ none
    → same_text s t ≡ false
other_text s t n h e = elim (Bool-cases (same_text s t)) [
  | inl y ↦ absurd (none-ne-some n (sym e ∙ ap pack_basecall (sym (same_text-eq s t y)) ∙ h))
  | inr f ↦ f
]

pub no_cq : (s : List ℕ) → NoSpaces s → starts_with s cq_space ≡ false
no_cq [] v = refl
no_cq (c ∷ []) v = ground arith
no_cq (c ∷ d ∷ []) v = ground arith
no_cq (c ∷ d ∷ e ∷ s) v = ground (arith, v.1.1.0)

long_enough : (s : List ℕ) (n : ℕ) → pack_basecall s ≡ some n → 3 ≤ length s
unfolding pack_basecall basecall_chars
long_enough [] n h = absurd (none-ne-some n h)
long_enough (c ∷ []) n h = absurd (none-ne-some n h)
long_enough (c ∷ d ∷ []) n h = absurd (none-ne-some n h)
long_enough (c ∷ d ∷ e ∷ s) n h = omega arith

-- no text that is chosen for a call comes from a longer one than seven
abbrev IsShort : ℕ → Option (List ℕ) → Type 0
IsShort len none = Unit
IsShort len (some c6) = len ≤ 7

if-IsShort :
    (len : ℕ) (c : Bool) (x y : Option (List ℕ))
    → (c ≡ true → IsShort len x)
    → IsShort len y
    → IsShort len (if c then x else y)
if-IsShort len true x y f g = f refl
if-IsShort len false x y f g = g

basecall_chars-IsShort : (s : List ℕ) → IsShort (length s) (basecall_chars s)
unfolding basecall_chars
basecall_chars-IsShort s =
    let len = length s in
    if-IsShort len (leb len 2) none _ (λ _. tt)
      (if-IsShort len (starts_with s swaziland && ltb 4 len && leb len 7) _ _
        (λ h. ground (arith, h))
        (if-IsShort len (starts_with s guinea && is_uppercase (get_or s 2 0) && leb len 7) _ _
          (λ h. ground (arith, h))
          (if-IsShort len (is_digit (get_or s 2 0) && leb len 6) _ _ (λ h. ground (arith, h))
            (if-IsShort len (is_digit (get_or s 1 0) && leb len 5) _ none (λ h. ground (arith, h))
              tt))))

pub three_to_seven : (s : List ℕ) → IsStandard s → (3 ≤ length s) × (length s ≤ 7)
unfolding pack_basecall
three_to_seven s v = elim (Option-cases (basecall_chars s)) [
  | inl e ↦ absurd (none-ne-some v.bits (rw (e, pack_basecall) at v.packed))
  | inr (c6, e) ↦ (long_enough s v.bits v.packed, rw e at (basecall_chars-IsShort s))
]

pub no_tokens :
    (s : List ℕ)
    → IsStandard s
    → (same_text s de ≡ false) × ((same_text s qrz ≡ false) × (same_text s cq ≡ false))
unfolding pack_basecall basecall_chars
no_tokens s v = (
  other_text s de v.bits v.packed refl,
  (other_text s qrz v.bits v.packed refl, other_text s cq v.bits v.packed refl),
)

pub bits-lt : (s : List ℕ) (v : IsStandard s) → ntokens + max22 + v.bits < 2 ^ 28
unfolding pack_basecall
bits-lt s v = elim (Option-cases (basecall_chars s)) [
  | inl e ↦ absurd (none-ne-some v.bits (rw (e, pack_basecall) at v.packed))
  | inr (c6, e) ↦
      let packed : pack_places 0 call_places c6 ≡ some v.bits = rw (e, pack_basecall) at v.packed in
      let wide : AreWide call_places = ground arith in
      omega (arith, pack_places-lt 0 v.bits call_places c6 wide packed)
]

save_callsign-IsStandard :
    (s : List ℕ) (ht : CallsignHashTable) (v : IsStandard s)
    → save_callsign s ht ≡ some ((v.hash, (v.hash / 2 ^ 10, v.hash / 2 ^ 12)), add s v.hash ht)
unfolding save_callsign
save_callsign-IsStandard s ht v = rw (v.hashed, save_callsign) refl

pub pack28-IsStandard :
    (s : List ℕ) (ht : CallsignHashTable) (v : IsStandard s)
    → pack28 s ht ≡ some ((ntokens + max22 + v.bits, 0), add s v.hash ht)
unfolding pack28
pack28-IsStandard s ht v =
    let other = no_tokens s v in
    rw
      (
        other.0,
        other.1.0,
        other.1.1,
        no_cq s v.plain.0,
        v.no_p,
        v.no_r,
        v.packed,
        save_callsign-IsStandard s ht v,
      )
      refl

pub unpack28-IsStandard :
    (s : List ℕ) (ht : CallsignHashTable) (v : IsStandard s) (i3 : ℕ)
    → unpack28 (ntokens + max22 + v.bits) 0 i3 ht ≡ some ((s, call), add s v.hash ht)
unfolding unpack28
unpack28-IsStandard s ht v i3 =
    let back = expand_call-pack_basecall s v.bits v.plain v.packed in
    let no_token : ltb (ntokens + max22 + v.bits) ntokens ≡ false = ground arith in
    let no_hash : ltb (ntokens + max22 + v.bits - ntokens) max22 ≡ false = ground arith in
    let value : ntokens + max22 + v.bits - ntokens - max22 ≡ v.bits = omega arith in
    let long : ltb (length s) 3 ≡ false = ground (arith, long_enough s v.bits v.packed) in
    rw (no_token, no_hash, value, back, long, save_callsign-IsStandard s ht v) refl
