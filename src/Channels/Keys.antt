-- ===== src/Channels/Keys.antt =====
-- Texts compared, and a `HashMap` with texts as keys that is walked over: a list of its entries.
use Prim.Native.String.{String}
use text.Mathlib.Text.{◌==◌}
use text.Mathlib.TextEquality.{eq_iff}
use mathlib.Core.Bool.{false≢true}
use trx_rs.Common.{
  Bool, true, false, ◌&&◌, Option, none, some, List, [], ◌∷◌, ◌≡◌, ◌≢◌, refl, sym, ◌∙◌, arith, inl,
  inr, Bool-cases, if◌then◌else◌,
}

abbrev pub str_eq : String → String → Bool
str_eq a b = a == b

pub str_eq_refl : (a : String) → str_eq a a ≡ true
str_eq_refl a = (eq_iff a a).1 refl

pub str_eq→eq : (a b : String) → str_eq a b ≡ true → a ≡ b
str_eq→eq a b h = (eq_iff a b).0 h

pub ne_of_str_eq : (a b : String) → str_eq a b ≡ false → a ≢ b
ne_of_str_eq a b h e = false≢true (sym h ∙ (eq_iff a b).1 e)

-- `Vec<String>` compared
abbrev pub texts_eq : List String → List String → Bool
texts_eq [] [] = true
texts_eq (a ∷ as') (b ∷ bs) = a == b && texts_eq as' bs
texts_eq _ _ = false

-- the value at a key, and the map with another value there
abbrev pub lookup {ℓ} : {V : Type ℓ} → String → List (String × V) → Option V
lookup k [] = none
lookup k (entry ∷ rest) = if str_eq k entry.0 then some entry.1 else lookup k rest

abbrev pub insert {ℓ} : {V : Type ℓ} → String → V → List (String × V) → List (String × V)
insert k v [] = (k, v) ∷ []
insert k v (entry ∷ rest) =
    let others = insert k v rest in if str_eq k entry.0 then (entry.0, v) ∷ rest else entry ∷ others

pub lookup-insert {ℓ} :
    {V : Type ℓ} (at key : String) (v : V) (entries : List (String × V))
    → lookup key (insert at v entries) ≡ (if str_eq at key then some v else lookup key entries)
lookup-insert at key v [] = ground (arith, eq_iff key at, eq_iff at key)
lookup-insert at key v (entry ∷ rest) = elim (Bool-cases (str_eq at entry.0)) [
  | inl here ↦
      let same : at ≡ entry.0 = str_eq→eq at entry.0 here in
      rw here (ground (arith, eq_iff key entry.0, eq_iff at key))
  | inr away ↦
      let apart : at ≢ entry.0 = ne_of_str_eq at entry.0 away in
      rw away (ground (arith, eq_iff key entry.0, eq_iff at key, lookup-insert at key v rest))
]
