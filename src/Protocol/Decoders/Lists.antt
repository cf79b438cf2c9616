-- ===== src/Protocol/Decoders/Lists.antt =====
-- The lists of identifiers that `resolve_bookmark_decoders` of src/trx-protocol/src/decoders.rs builds.
use trx_rs.Common.{
  ℕ, Bool, true, false, ◌&&◌, ◌||◌, List, [], ◌∷◌, ◌++◌, map, ◌≡◌, refl, sym, ap, inl, inr, arith,
  Bool-cases,
}
use trx_rs.Protocol.Text.{same_text, contains}
use trx_rs.Protocol.Text.Equal.{same_text_refl, same_text_comm, same_text→eq}
use trx_rs.Protocol.Decoders.{
  DecoderDescriptor, is_known, cleaned, known_of, push_new, infers, inferred,
}

abbrev pub AllKnown : Bool → List DecoderDescriptor → List (List ℕ) → Type 0
AllKnown bg ds [] = Unit
AllKnown bg ds (s ∷ ss) = (is_known bg ds s ≡ true) × AllKnown bg ds ss

abbrev pub AllDistinct : List (List ℕ) → Type 0
AllDistinct [] = Unit
AllDistinct (s ∷ ss) = (contains ss s ≡ false) × AllDistinct ss

contains-append :
    (ss : List (List ℕ)) (s x : List ℕ)
    → contains (ss ++ s ∷ []) x ≡ (contains ss x || same_text s x)
contains-append [] s x = ground arith
contains-append (t ∷ ss) s x = ground (arith, contains-append ss s x)

append-AllDistinct :
    (ss : List (List ℕ)) (s : List ℕ)
    → contains ss s ≡ false
    → AllDistinct ss
    → AllDistinct (ss ++ s ∷ [])
append-AllDistinct [] s new d = (refl, tt)
append-AllDistinct (t ∷ ss) s new d = (
  ground (arith, new, d.0, contains-append ss s t, same_text_comm s t),
  append-AllDistinct ss s (ground (arith, new)) d.1,
)

pub push_new-AllDistinct :
    (acc ss : List (List ℕ)) → AllDistinct acc → AllDistinct (push_new acc ss)
unfolding push_new
push_new-AllDistinct acc [] d = d
push_new-AllDistinct acc (s ∷ ss) d = elim (Bool-cases (contains acc s)) [
  | inl old ↦ rw old (push_new-AllDistinct acc ss d)
  | inr new ↦ rw new (push_new-AllDistinct (acc ++ s ∷ []) ss (append-AllDistinct acc s new d))
]

inferred-contains :
    (bg : Bool) (ds : List DecoderDescriptor) (mode x : List ℕ)
    → contains (map (λ d. d.decoder_id) ds) x ≡ false
    → contains (inferred bg ds mode) x ≡ false
unfolding inferred
inferred-contains bg [] mode x h = refl
inferred-contains bg (d ∷ ds) mode x h =
    let rest = inferred-contains bg ds mode x (ground (arith, h)) in
    elim (Bool-cases (infers bg mode d)) [
      | inl implied ↦ rw implied (ground (arith, h, rest))
      | inr other ↦ rw other rest
    ]

pub inferred-AllDistinct :
    (bg : Bool) (ds : List DecoderDescriptor) (mode : List ℕ)
    → AllDistinct (map (λ d. d.decoder_id) ds)
    → AllDistinct (inferred bg ds mode)
unfolding inferred
inferred-AllDistinct bg [] mode h = tt
inferred-AllDistinct bg (d ∷ ds) mode h =
    let rest = inferred-AllDistinct bg ds mode h.1 in
    elim (Bool-cases (infers bg mode d)) [
      | inl implied ↦ rw implied (inferred-contains bg ds mode d.decoder_id h.0, rest)
      | inr other ↦ rw other rest
    ]

-- Equal texts pass a test alike.
same_text-test :
    (test : List ℕ → Bool) (s x : List ℕ) → (same_text s x && test x) ≡ (same_text s x && test s)
same_text-test test s x = elim (Bool-cases (same_text s x)) [
  | inl same ↦ rw same (sym (ap test (same_text→eq s x same)))
  | inr apart ↦ rw apart refl
]

pub contains-push_new :
    (acc ss : List (List ℕ)) (x : List ℕ)
    → contains (push_new acc ss) x ≡ (contains acc x || contains ss x)
unfolding push_new
contains-push_new acc [] x = ground arith
contains-push_new acc (s ∷ ss) x =
    let alike = same_text-test (contains acc) s x in
    elim (Bool-cases (contains acc s)) [
      | inl old ↦ rw old (ground (arith, old, alike, contains-push_new acc ss x))
      | inr new ↦
          rw new (ground (arith, contains-push_new (acc ++ s ∷ []) ss x, contains-append acc s x))
    ]

pub contains-known_of :
    (bg : Bool) (ds : List DecoderDescriptor) (ss : List (List ℕ)) (x : List ℕ)
    → contains (known_of bg ds ss) x ≡ (is_known bg ds x && contains (map cleaned ss) x)
unfolding known_of
contains-known_of bg ds [] x = ground arith
contains-known_of bg ds (s ∷ ss) x =
    let alike = same_text-test (is_known bg ds) (cleaned s) x in
    let rest = contains-known_of bg ds ss x in
    elim (Bool-cases (is_known bg ds (cleaned s))) [
      | inl known ↦ rw known (ground (arith, known, alike, rest))
      | inr unknown ↦ rw unknown (ground (arith, unknown, alike, rest))
    ]

pub named-is_known :
    (bg : Bool) (ds : List DecoderDescriptor) (ss : List (List ℕ)) (x : List ℕ)
    → contains (push_new [] (known_of bg ds ss)) x ≡ true
    → is_known bg ds x ≡ true
named-is_known bg ds ss x h =
    ground (arith, h, contains-push_new [] (known_of bg ds ss) x, contains-known_of bg ds ss x)

pub inferred-is_known :
    (bg : Bool) (ds : List DecoderDescriptor) (mode x : List ℕ)
    → contains (inferred bg ds mode) x ≡ true
    → is_known bg ds x ≡ true
unfolding inferred
inferred-is_known bg [] mode x h = h
inferred-is_known bg (d ∷ ds) mode x h = elim (Bool-cases (infers bg mode d)) [
  | inl implied ↦
      let h' = rw implied at h in
      elim (Bool-cases (same_text d.decoder_id x)) [
        | inl same ↦ ground (arith, same, implied)
        | inr apart ↦ ground (arith, inferred-is_known bg ds mode x (ground (arith, h', apart)))
      ]
  | inr other ↦ ground (arith, inferred-is_known bg ds mode x (rw other at h))
]

pub all_known :
    (bg : Bool) (ds : List DecoderDescriptor) (ss : List (List ℕ))
    → ((x : List ℕ) → contains ss x ≡ true → is_known bg ds x ≡ true)
    → AllKnown bg ds ss
all_known bg ds [] h = tt
all_known bg ds (s ∷ ss) h = (
  h s (ground (arith, same_text_refl s)),
  all_known bg ds ss (λ x inside. h x (ground (arith, inside))),
)
