-- ===== src/Auth/Dict.antt =====
-- `HashMap` with texts as keys.
use Prim.Native.String.{String}
use text.Mathlib.Text.{◌==◌}
use trx_rs.Common.{Bool, Option, none, some, if◌then◌else◌}

module _ {ℓ} {V : Type ℓ} where
  abbrev pub empty : String → Option V
  empty k = none

  abbrev pub insert : String → V → (String → Option V) → String → Option V
  insert k v m j = if k == j then some v else m j

  abbrev pub remove : String → (String → Option V) → String → Option V
  remove k m j = if k == j then none else m j

  abbrev pub keep : (V → Bool) → Option V → Option V
  keep p none = none
  keep p (some v) = if p v then some v else none

  abbrev pub retain : (V → Bool) → (String → Option V) → String → Option V
  retain p m j = keep p (m j)
