-- ===== src/Ftx/Message/Places.antt =====
-- Numbers of mixed radix: the loops that pack characters into an integer, first character in the
-- highest place, and take them out again from the lowest.
pub mod RoundTrip
pub mod Bounds
use trx_rs.Common.{
  ℕ, zero, suc, ◌+◌, ◌*◌, ◌/◌, ◌%◌, Bool, true, false, Option, none, some, List, [], ◌∷◌, ◌==◌,
  if◌then◌else◌,
}
use trx_rs.Ftx.Text.{CharTable, charn, nchar}

-- a place: the table of its characters, and its radix
abbrev pub Place : Type 0
Place = CharTable × ℕ

unfoldable pub pack_places : ℕ → List Place → List ℕ → Option ℕ
pack_places n [] cs = some n
pack_places n (p ∷ ps) [] = none
pack_places n (p ∷ ps) (c ∷ cs) = elim (nchar c p.0) [
  | none ↦ none
  | some j ↦ pack_places (n * p.1 + j) ps cs
]

-- the places from the lowest, and the characters that are out already
unfoldable pub unpack_places : List Place → ℕ → List ℕ → List ℕ
unpack_places [] n cs = cs
unpack_places (p ∷ ps) n cs = unpack_places ps (n / p.1) (charn (n % p.1) p.0 ∷ cs)

abbrev pub is_space : ℕ → Bool
is_space c = c == b' '

-- `trim` of a text of printable characters
unfoldable pub trim_start : List ℕ → List ℕ
trim_start [] = []
trim_start (c ∷ cs) = let rest = trim_start cs in if is_space c then rest else c ∷ cs

is_nil : List ℕ → Bool
is_nil [] = true
is_nil (c ∷ cs) = false

unfoldable pub trim_end : List ℕ → List ℕ
unfolding is_nil
trim_end [] = []
trim_end (c ∷ cs) =
    let rest = trim_end cs in if is_nil rest then if is_space c then [] else c ∷ [] else c ∷ rest

abbrev pub trim : List ℕ → List ℕ
trim cs = trim_end (trim_start cs)

-- a text at the left of `k` places, with spaces behind it
unfoldable pub fill : ℕ → List ℕ → List ℕ
fill zero cs = []
fill (suc k) [] = b' ' ∷ fill k []
fill (suc k) (c ∷ cs) = c ∷ fill k cs
