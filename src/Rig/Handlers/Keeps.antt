-- ===== src/Rig/Handlers/Keeps.antt =====
-- What two calls keep, their sequence keeps.
use trx_rs.Common.{Bool, true, false, if◌then◌else◌}
use trx_rs.Rig.Handlers.{Outcome, failed, Call, continue, ◌>>=◌}

abbrev pub Keeps {ℓ} : {S A : Type 0} → (S → Type ℓ) → Call S A → Type ℓ
Keeps {S} P m = (s : S) → P s → P (m s).1

module _ {ℓ} {S : Type 0} (P : S → Type ℓ) where
  continue-Keeps :
      {A B : Type 0} (f : A → Call S B)
      → ((a : A) → Keeps P (f a))
      → (r : Outcome A) (s : S) → P s
      → P (continue r f s).1
  unfolding continue
  continue-Keeps f keep (Outcome.done a) s h = keep a s h
  continue-Keeps f keep (failed e) s h = h

  pub >>=-Keeps :
      {A B : Type 0} (m : Call S A) (f : A → Call S B)
      → Keeps P m
      → ((a : A) → Keeps P (f a))
      → Keeps P (m >>= f)
  unfolding ◌>>=◌
  >>=-Keeps m f first rest s h = continue-Keeps f rest (m s).0 (m s).1 (first s h)

  pub if-Keeps :
      {A : Type 0} (q : Bool) (m n : Call S A)
      → Keeps P m
      → Keeps P n
      → Keeps P (λ s. if q then m s else n s)
  if-Keeps true m n h k = h
  if-Keeps false m n h k = k
