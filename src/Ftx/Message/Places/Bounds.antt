-- ===== src/Ftx/Message/Places/Bounds.antt =====
-- About the size of a packed number.
use native.Mathlib.Nat.{mul-le-mul_right}
use mathlib.Core.Option.{none-ne-some, some-injective}
use trx_rs.Common.{ℕ, ◌+◌, ◌*◌, ◌<◌, some, List, [], ◌∷◌, ◌≡◌, arith}
use trx_rs.Ftx.Text.Tables.{charn-nchar}
use trx_rs.Ftx.Message.Places.{Place, pack_places}
use trx_rs.Ftx.Message.Places.RoundTrip.{AreWide, pack_one}

-- how many numbers the places can hold
abbrev pub room : List Place → ℕ
room [] = 1
room (p ∷ ps) = p.1 * room ps

-- the room that is left behind one place
fits_in : (n r j q m : ℕ) → j < r → m < (n * r + j + 1) * q → m < (n + 1) * (r * q)
fits_in n r j q m h l =
    let wide = mul-le-mul_right {m = n * r + j + 1} {n = n * r + r} q (omega arith) in grind arith

pub pack_places-lt :
    (n m : ℕ) (ps : List Place) (cs : List ℕ)
    → AreWide ps
    → pack_places n ps cs ≡ some m
    → m < (n + 1) * room ps
unfolding pack_places
pack_places-lt n m [] cs w h = omega (arith, some-injective _ _ h)
pack_places-lt n m (p ∷ ps) [] w h = absurd (none-ne-some m h)
pack_places-lt n m (p ∷ ps) (c ∷ cs) w h =
    let step = pack_one n p ps c cs m h in
    let fits : step.0 < p.1 = omega (arith, w.0, (charn-nchar p.0 c step.1.0).1) in
    fits_in n p.1 step.0 (room ps) m fits (pack_places-lt (n * p.1 + step.0) m ps cs w.1 step.1.1)
