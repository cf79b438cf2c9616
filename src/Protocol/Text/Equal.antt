-- ===== src/Protocol/Text/Equal.antt =====
-- Equality of texts.
use mathlib.Core.Bool.{false≢true}
use trx_rs.Common.{ℕ, true, List, [], ◌∷◌, ◌≡◌, refl, ap, arith}
use trx_rs.Protocol.Text.{same_text}

pub same_text_refl : (s : List ℕ) → same_text s s ≡ true
same_text_refl [] = refl
same_text_refl (c ∷ s) = ground (arith, same_text_refl s)

pub same_text_comm : (s t : List ℕ) → same_text s t ≡ same_text t s
same_text_comm [] [] = refl
same_text_comm [] (d ∷ t) = refl
same_text_comm (c ∷ s) [] = refl
same_text_comm (c ∷ s) (d ∷ t) = ground (arith, same_text_comm s t)

pub same_text→eq : (s t : List ℕ) → same_text s t ≡ true → s ≡ t
same_text→eq [] [] h = refl
same_text→eq [] (d ∷ t) h = absurd (false≢true h)
same_text→eq (c ∷ s) [] h = absurd (false≢true h)
same_text→eq (c ∷ s) (d ∷ t) h =
    let heads : c ≡ d = ground (arith, h) in
    let tails : s ≡ t = same_text→eq s t (ground (arith, h)) in rw heads (ap (λ u. d ∷ u) tails)
