-- ===== src/Protocol/Token/Stripped.antt =====
-- What `strip_bearer` of src/trx-protocol/src/auth.rs leaves of a value.
use mathlib.Core.Bool.{true≢false}
use mathlib.Core.Option.{none-ne-some, some-injective}
use trx_rs.Common.{
  ℕ, ◌<◌, true, false, none, some, List, [], ◌∷◌, ◌++◌, leb, ◌≡◌, ◌⊎◌, ◌↔◌, inl, inr, refl, sym, ap,
  ◌∙◌, arith, Bool-cases, Option-cases, if◌then◌else◌,
}
use trx_rs.Protocol.Text.{byte_len, trim, split_at, to_ascii_lowercase, same_text}
use trx_rs.Protocol.Text.Equal.{same_text→eq}
use trx_rs.Protocol.Text.Split.{
  byte_len-concat, byte_len-to_ascii_lowercase, split_at-concat, split_at-Parts,
}
use trx_rs.Protocol.Token.{prefix, after_prefix, strip_bearer}

-- the scheme of the header, and a blank, in any case of letters
abbrev pub IsScheme : List ℕ → Type 0
IsScheme s = to_ascii_lowercase s ≡ b'b' ∷ b'e' ∷ b'a' ∷ b'r' ∷ b'e' ∷ b'r' ∷ b' ' ∷ []

-- a text that has no scheme in front: it is shorter than seven bytes, or its first seven are whole
-- characters that are not the scheme
abbrev pub IsBare : List ℕ → Type 0
IsBare s =
    (byte_len s < 7)
    ⊎ ((head : List ℕ) × ((tail : List ℕ) × ((s ≡ head ++ tail)
            × ((byte_len head ≡ 7) × (¬ IsScheme head)))))

-- Without the whitespace around it, a value is the scheme and the candidate, or the candidate alone.
abbrev pub IsOf : List ℕ → List ℕ → Type 0
IsOf value candidate =
    ((head : List ℕ) × ((trim value ≡ head ++ candidate) × IsScheme head))
    ⊎ ((trim value ≡ candidate) × IsBare candidate)

scheme_bytes : (head : List ℕ) → IsScheme head → byte_len head ≡ 7
scheme_bytes head h = sym (byte_len-to_ascii_lowercase head) ∙ ap byte_len h

-- a text cut into seven bytes and the rest
cut :
    (head tail : List ℕ)
    → byte_len head ≡ 7
    → (leb 7 (byte_len (head ++ tail)) ≡ true) × (split_at 7 (head ++ tail) ≡ some (head, tail))
cut head tail l =
    (ground (arith, byte_len-concat head tail, l), rw l at (split_at-concat head tail))

test_scheme : (head : List ℕ) → IsScheme head → same_text (to_ascii_lowercase head) prefix ≡ true
test_scheme head h = rw h refl

test_other : (head : List ℕ) → ¬ IsScheme head → same_text (to_ascii_lowercase head) prefix ≡ false
test_other head h = elim (Bool-cases (same_text (to_ascii_lowercase head) prefix)) [
  | inl same ↦ absurd (h (same_text→eq (to_ascii_lowercase head) prefix same))
  | inr apart ↦ apart
]

strip_bearer-cut :
    (value head tail : List ℕ)
    → trim value ≡ head ++ tail
    → byte_len head ≡ 7
    → strip_bearer value
      ≡ some (if same_text (to_ascii_lowercase head) prefix then tail else head ++ tail)
unfolding strip_bearer after_prefix
strip_bearer-cut value head tail e l = let c = cut head tail l in rw (e, c.0, c.1) refl

strip_bearer-short :
    (value : List ℕ) → byte_len (trim value) < 7 → strip_bearer value ≡ some (trim value)
unfolding strip_bearer
strip_bearer-short value h =
    let short : leb 7 (byte_len (trim value)) ≡ false = ground (arith, h) in rw short refl

strip_bearer-long :
    (value : List ℕ)
    → leb 7 (byte_len (trim value)) ≡ true
    → strip_bearer value ≡ after_prefix (trim value) (split_at 7 (trim value))
unfolding strip_bearer
strip_bearer-long value long = rw long refl

parts-IsOf :
    (value candidate head tail : List ℕ)
    → trim value ≡ head ++ tail
    → byte_len head ≡ 7
    → strip_bearer value ≡ some candidate
    → IsOf value candidate
parts-IsOf value candidate head tail e l h =
    let law = sym (strip_bearer-cut value head tail e l) ∙ h in
    elim (Bool-cases (same_text (to_ascii_lowercase head) prefix)) [
      | inl same ↦
          let left : tail ≡ candidate = some-injective _ _ (rw same at law) in
          inl (
            head,
            (e ∙ ap (λ x. head ++ x) left, same_text→eq (to_ascii_lowercase head) prefix same),
          )
      | inr apart ↦
          let left : head ++ tail ≡ candidate = some-injective _ _ (rw apart at law) in
          inr (
            e ∙ left,
            inr (head, (tail, (sym left, (l, λ s. true≢false (sym (test_scheme head s) ∙ apart))))),
          )
    ]

-- The candidate that `strip_bearer` finds is the one that the value bears.
pub strip_bearer_iff :
    (value candidate : List ℕ) → (strip_bearer value ≡ some candidate) ↔ IsOf value candidate
unfolding after_prefix
strip_bearer_iff value candidate = (
  λ h. elim (Bool-cases (leb 7 (byte_len (trim value)))) [
    | inl long ↦ elim (Option-cases (split_at 7 (trim value))) [
      | inl x ↦
          let no : strip_bearer value ≡ none = strip_bearer-long value long ∙ rw x refl in
          absurd (none-ne-some _ (sym no ∙ h))
      | inr ((head, tail), x) ↦
          let parts = split_at-Parts 7 (trim value) (head, tail) x in
          parts-IsOf value candidate head tail parts.0 parts.1 h
    ]
    | inr short ↦
        let few : byte_len (trim value) < 7 = ground (arith, short) in
        let same : trim value ≡ candidate =
          some-injective _ _ (sym (strip_bearer-short value few) ∙ h) in
        inr (same, inl (rw same at few))
  ],
  λ b. elim b [
    | inl (head, (e, s)) ↦
        strip_bearer-cut value head candidate e (scheme_bytes head s) ∙ rw (test_scheme head s) refl
    | inr (e, inl few) ↦
        let few' : byte_len (trim value) < 7 = rw e few in
        strip_bearer-short value few' ∙ ap (λ x. some x) e
    | inr (e, inr (head, (tail, (whole, (l, other))))) ↦
        strip_bearer-cut value head tail (e ∙ whole) l
        ∙ rw (test_other head other) (ap (λ x. some x) (sym whole))
  ],
)
