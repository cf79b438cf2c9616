-- ===== src/Protocol/Token/Bearer.antt =====
-- About the tokens that are accepted, and those that a slice panics on.
use mathlib.Core.Option.{none-ne-some, some-injective}
use mathlib.Core.List.{cons-ne-nil}
use trx_rs.Common.{
  ℕ, true, false, Option, none, some, List, [], ◌∷◌, ltb, leb, ◌++◌, length, ◌≡◌, ◌≢◌, ◌⊎◌, ◌↔◌,
  inl, inr, refl, sym, ap, ◌∙◌, arith, Bool-cases, Option-cases, if◌then◌else◌,
}
use trx_rs.Protocol.Text.{byte_len, trim, split_at, contains, IsAscii}
use trx_rs.Protocol.Text.Ascii.{split_at-IsAscii, split_at-inside, byte_len-append, trim-IsAscii}
use trx_rs.Protocol.Token.Stripped.{IsOf, strip_bearer_iff}
use trx_rs.Protocol.Token.{
  after_prefix, strip_bearer, accepted, invalid, panicked, check_candidate, check_token, validate,
}

-- a token that is given, and bears one of the set
abbrev pub IsGranted : List (List ℕ) → Option (List ℕ) → Type 0
IsGranted tokens token =
    (value : List ℕ) × ((token ≡ some value)
      × ((candidate : List ℕ) × (IsOf value candidate × (contains tokens candidate ≡ true))))

granted :
    (tokens : List (List ℕ)) (token : Option (List ℕ))
    → (check_token tokens token ≡ accepted) ↔ IsGranted tokens token
unfolding check_token check_candidate
granted tokens none = (λ e. ground (arith, e), λ g. absurd (none-ne-some _ g.1.0))
granted tokens (some value) = (
  λ e. elim (Option-cases (strip_bearer value)) [
    | inl x ↦
        let no : panicked ≡ accepted = rw (x, check_candidate) at e in absurd (ground (arith, no))
    | inr (c, x) ↦
        let sure : (if contains tokens c then accepted else invalid) ≡ accepted =
          rw (x, check_candidate) at e in
        (value, (refl, (c, ((strip_bearer_iff value c).0 x, ground (arith, sure)))))
  ],
  λ g.
      let same : value ≡ g.0 = some-injective _ _ g.1.0 in
      let x : strip_bearer value ≡ some g.1.1.0 =
        ap strip_bearer same ∙ (strip_bearer_iff g.0 g.1.1.0).1 g.1.1.1.0 in
      rw (x, g.1.1.1.1) refl,
)

-- A token is accepted exactly when no tokens are configured, or when it is given and, without the
-- whitespace around it, it is one of the tokens behind the seven characters of "bearer " in any
-- case of letters, or it is one of them itself and has no such beginning; for one without that
-- beginning it is part of the condition that the first seven bytes, if there are as many, are
-- whole characters.
pub validate_iff :
    (tokens : List (List ℕ)) (token : Option (List ℕ))
    → (validate tokens token ≡ accepted) ↔ ((tokens ≡ []) ⊎ IsGranted tokens token)
unfolding validate
validate_iff [] token = (λ e. inl refl, λ e. refl)
validate_iff (t ∷ ts) token =
    let g = granted (t ∷ ts) token in
    (λ e. inr (g.0 e), λ c. elim c [ inl e ↦ absurd (cons-ne-nil t ts e) | inr h ↦ g.1 h ])

strip_bearer-IsAscii : (value : List ℕ) → IsAscii value → strip_bearer value ≢ none
unfolding strip_bearer after_prefix
strip_bearer-IsAscii value v e = elim (Bool-cases (leb 7 (byte_len (trim value)))) [
  | inl long ↦ elim (Option-cases (split_at 7 (trim value))) [
    | inl x ↦ split_at-IsAscii 7 (trim value) (trim-IsAscii value v) (ground (arith, long)) x
    | inr (r, x) ↦ none-ne-some _ (sym (rw (long, x, after_prefix) at e))
  ]
  | inr short ↦ none-ne-some _ (sym (rw short at e))
]

-- A token of one-byte characters never makes the validator panic.
pub validate-IsAscii :
    (tokens : List (List ℕ)) (value : List ℕ)
    → IsAscii value
    → validate tokens (some value) ≢ panicked
unfolding validate check_token check_candidate
validate-IsAscii [] value v e = ground (arith, e)
validate-IsAscii (t ∷ ts) value v e = elim (Option-cases (strip_bearer value)) [
  | inl x ↦ strip_bearer-IsAscii value v x
  | inr (c, x) ↦
      let no : (if contains (t ∷ ts) c then accepted else invalid) ≡ panicked =
        rw (x, check_candidate) at e in
      ground (arith, no)
]

-- Where tokens are configured, every token that has six one-byte characters and then a longer
-- one, behind the whitespace at its start, makes the validator panic.
pub validate-inside :
    (t : List ℕ) (ts : List (List ℕ)) (value head tail : List ℕ) (c : ℕ)
    → trim value ≡ head ++ c ∷ tail
    → IsAscii head
    → length head ≡ 6
    → ltb c 0x80 ≡ false
    → validate (t ∷ ts) (some value) ≡ panicked
unfolding validate check_token check_candidate strip_bearer after_prefix
validate-inside t ts value head tail c e v l h =
    let long : leb 7 (byte_len (trim value)) ≡ true =
      ground (arith, ap byte_len e, byte_len-append head (c ∷ tail) v, h, l) in
    let broken = ap (split_at 7) e ∙ split_at-inside 7 head tail c v (omega arith) h in
    rw (long, broken) refl
