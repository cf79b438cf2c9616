-- ===== src/Task/Batch/Order.antt =====
-- In which order the requests of a batch are processed (src/trx-server/src/rig_task.rs).
use trx_rs.Common.{
  ℕ, zero, suc, ◌+◌, ◌≤◌, false, Option, none, some, List, [], ◌∷◌, ◌++◌, map, length, get_elem?,
  ◌≡◌, refl, ap, ◌∙◌, ◌⊎◌, inl, inr, arith, Bool-cases, length-append, if◌then◌else◌,
}
use trx_rs.Rig.Command.{RigCommand, get_spectrum}
use trx_rs.Task.Batch.{
  RigRequest, Round, is_spectrum, init, last, swap_remove, visit, coalesce, gather, drain, plan,
}

-- how many requests of a list ask for the spectrum
abbrev pub spectra : List RigRequest → ℕ
spectra [] = 0
spectra (r ∷ rs) = (if is_spectrum r.cmd then 1 else 0) + spectra rs

abbrev pub commands : List RigRequest → List RigCommand
commands rs = map (λ r. r.cmd) rs

abbrev pub processed : List Round → List RigCommand
processed rs = map (λ r. r.cmd) rs

other_at :
    (batch : List RigRequest) (i : ℕ) {r : RigRequest}
    → spectra batch ≡ 0
    → get_elem? batch i ≡ some r
    → is_spectrum r.cmd ≡ false
other_at [] i h e = cc
other_at (q ∷ qs) zero h e = ground arith
other_at (q ∷ qs) (suc i) h e = other_at qs i (ground arith) e

visit-same :
    (go : ℕ → List RigRequest → List ℕ → List RigRequest × List ℕ) (i : ℕ) (batch : List RigRequest)
    (rs : List ℕ) (o : Option RigRequest)
    → spectra batch ≡ 0
    → ((j : ℕ) → go j batch rs ≡ (batch, rs))
    → get_elem? batch i ≡ o
    → visit go i batch rs o ≡ (batch, rs)
unfolding visit
visit-same go i batch rs none h ih e = refl
visit-same go i batch rs (some r) h ih e = rw (other_at batch i h e) (ih (i + 1))

coalesce-same :
    (fuel i : ℕ) (batch : List RigRequest) (rs : List ℕ)
    → spectra batch ≡ 0
    → coalesce fuel i batch rs ≡ (batch, rs)
unfolding coalesce
coalesce-same zero i batch rs h = refl
coalesce-same (suc fuel) i batch rs h =
    visit-same (coalesce fuel) i batch rs (get_elem? batch i) h
      (λ j. coalesce-same fuel j batch rs h) refl

gather-same :
    (cmd : RigCommand) (batch : List RigRequest)
    → (is_spectrum cmd ≡ false) ⊎ (spectra batch ≡ 0)
    → gather cmd batch ≡ (batch, [])
unfolding gather
gather-same cmd batch (inl other) = rw other
gather-same cmd batch (inr clean) = elim (Bool-cases (is_spectrum cmd)) [
  | inl spectrum ↦ rw spectrum (coalesce-same (length batch) 0 batch [] clean)
  | inr other ↦ rw other
]

only_one :
    (r : RigRequest) (batch : List RigRequest)
    → spectra (r ∷ batch) ≤ 1
    → (is_spectrum r.cmd ≡ false) ⊎ (spectra batch ≡ 0)
only_one r batch h = elim (Bool-cases (is_spectrum r.cmd)) [
  | inl spectrum ↦ inr (ground arith)
  | inr other ↦ inl other
]

drain-processed :
    (fuel : ℕ) (batch : List RigRequest)
    → length batch ≤ fuel
    → spectra batch ≤ 1
    → processed (drain fuel batch) ≡ commands batch
unfolding drain
drain-processed zero [] h one = refl
drain-processed zero (r ∷ batch) h one = elim h [ ]
drain-processed (suc fuel) [] h one = refl
drain-processed (suc fuel) (r ∷ batch) h one =
    ap (λ l. r.cmd ∷ l)
      (ap (λ p. processed (drain fuel p.0)) (gather-same r.cmd batch (only_one r batch one))
        ∙ drain-processed fuel batch (omega arith) (ground arith))

-- A batch with at most one request for the spectrum is processed in the order in which it came.
pub plan-processed :
    (batch : List RigRequest) → spectra batch ≤ 1 → processed (plan batch) ≡ commands batch
unfolding plan
plan-processed batch one = drain-processed (length batch) batch (omega arith) one

init-append : (r z : RigRequest) (xs : List RigRequest) → init r (xs ++ z ∷ []) ≡ r ∷ xs
init-append r z [] = refl
init-append r z (x ∷ xs) = ap (λ l. r ∷ l) (init-append x z xs)

last-append : (r z : RigRequest) (xs : List RigRequest) → last r (xs ++ z ∷ []) ≡ z
last-append r z [] = refl
last-append r z (x ∷ xs) = last-append x z xs

swap_remove-first :
    (r z : RigRequest) (xs : List RigRequest) → swap_remove (r ∷ (xs ++ z ∷ [])) 0 ≡ z ∷ xs
unfolding swap_remove
swap_remove-first r z xs = rw (init-append r z xs, last-append r z xs)

-- one request for the spectrum in front of others that are not
gather-moves :
    (j : ℕ) (xs : List RigRequest) (z : RigRequest)
    → spectra (z ∷ xs) ≡ 0
    → (gather get_spectrum (record { cmd = get_spectrum; respond_to = j } ∷ (xs ++ z ∷ []))).0
      ≡ z ∷ xs
unfolding gather coalesce visit is_spectrum
gather-moves j xs z clean =
    let first : RigRequest = record { cmd = get_spectrum; respond_to = j } in
    let fuel = length (xs ++ z ∷ []) in
    ap (λ l. (coalesce fuel 0 l (j ∷ [])).0) (swap_remove-first first z xs)
    ∙ ap (λ p. p.0) (coalesce-same fuel 0 (z ∷ xs) (j ∷ []) clean)

-- In a batch that starts with two requests for the spectrum and has no more of them, the last
-- request is processed before all the others that came before it.
pub plan-moves_last :
    (i j : ℕ) (xs : List RigRequest) (z : RigRequest)
    → spectra (z ∷ xs) ≡ 0
    → let asks =
        λ (k : ℕ). let r : RigRequest = record { cmd = get_spectrum; respond_to = k } in r in
      processed (plan (asks i ∷ asks j ∷ (xs ++ z ∷ []))) ≡ get_spectrum ∷ z.cmd ∷ commands xs
unfolding plan drain
plan-moves_last i j xs z clean =
    let n = length (xs ++ z ∷ []) in
    ap (λ l. get_spectrum ∷ l)
      (ap (λ l. processed (drain (suc n) l)) (gather-moves j xs z clean)
        ∙ drain-processed (suc n) (z ∷ xs) (omega (arith, length-append xs (z ∷ []))) (omega arith))
