-- ===== src/Task/Batch/Answered.antt =====
-- Every request is answered once (src/trx-server/src/rig_task.rs).
use trx_rs.Common.{
  ℕ, zero, suc, ◌+◌, ◌≤◌, ◌==◌, Option, none, some, List, [], ◌∷◌, ◌++◌, map, length, get_elem?,
  set, ◌≡◌, refl, ap, ◌∙◌, ◌⊎◌, inl, inr, arith, Bool-cases, length-set, if◌then◌else◌,
}
use trx_rs.Rig.Types.{RigInfo}
use trx_rs.Task.Backend.{Backend, TaskConfig}
use trx_rs.Task.Tuning.Sound.{IsSound}
use trx_rs.Task.Process.{Context, Readings, process_command}
use trx_rs.Task.Process.Sound.{process_command-IsSound}
use trx_rs.Task.Batch.{
  RigRequest, Round, is_spectrum, init, last, swap_remove, visit, coalesce, gather, drain, plan,
  run_rounds, run_batch,
}

pub one : ℕ → ℕ → ℕ
one t i = if i == t then 1 else 0

-- how often a responder is listed, asks, and is answered
abbrev pub count : ℕ → List ℕ → ℕ
count t [] = 0
count t (i ∷ is) = one t i + count t is

abbrev pub asked : ℕ → List RigRequest → ℕ
asked t [] = 0
asked t (r ∷ rs) = one t r.respond_to + asked t rs

abbrev pub answered : {A : Type 0} → ℕ → List (ℕ × A) → ℕ
answered t [] = 0
answered t (a ∷ rest) = one t a.0 + answered t rest

listed : ℕ → List Round → ℕ
listed t [] = 0
listed t (r ∷ rs) = count t r.responders + listed t rs

count-append : (t : ℕ) (is js : List ℕ) → count t (is ++ js) ≡ count t is + count t js
count-append t [] js = omega arith
count-append t (i ∷ is) js = omega (arith, count-append t is js)

asked-init :
    (t : ℕ) (r : RigRequest) (rs : List RigRequest)
    → asked t (init r rs) + one t (last r rs).respond_to ≡ asked t (r ∷ rs)
asked-init t r [] = omega arith
asked-init t r (q ∷ qs) = omega (arith, asked-init t q qs)

length-init : (r : RigRequest) (rs : List RigRequest) → length (init r rs) ≡ length rs
length-init r [] = refl
length-init r (q ∷ qs) = ap suc (length-init q qs)

asked-set :
    (t : ℕ) (rs : List RigRequest) (i : ℕ) {q : RigRequest} (r : RigRequest)
    → get_elem? rs i ≡ some q
    → asked t (set rs i r) + one t q.respond_to ≡ asked t rs + one t r.respond_to
asked-set t [] i r e = cc
asked-set t (p ∷ rs) zero {q} r e = ground arith
asked-set t (p ∷ rs) (suc i) r e = omega (arith, asked-set t rs i r e)

-- an index into a list that is not empty is that of its last entry, or one before it
get_elem?-init :
    (r : RigRequest) (rs : List RigRequest) (i : ℕ) {q : RigRequest}
    → get_elem? (r ∷ rs) i ≡ some q
    → (get_elem? (init r rs) i ≡ some q)
      ⊎ ((q ≡ last r rs) × ((v : RigRequest) → set (init r rs) i v ≡ init r rs))
get_elem?-init r [] zero e = inr (cc, λ v. refl)
get_elem?-init r [] (suc i) e = cc
get_elem?-init r (p ∷ ps) zero e = inl e
get_elem?-init r (p ∷ ps) (suc i) e = elim (get_elem?-init p ps i e) [
  | inl here ↦ inl here
  | inr (is_last, same) ↦ inr (is_last, λ v. ap (λ l. r ∷ l) (same v))
]

asked-swap_remove :
    (t : ℕ) (rs : List RigRequest) (i : ℕ) {q : RigRequest}
    → get_elem? rs i ≡ some q
    → asked t (swap_remove rs i) + one t q.respond_to ≡ asked t rs
unfolding swap_remove
asked-swap_remove t [] i e = cc
asked-swap_remove t (r ∷ rs) i {q} e = elim (get_elem?-init r rs i e) [
  | inl here ↦ omega (arith, asked-set t (init r rs) i (last r rs) here, asked-init t r rs)
  | inr (is_last, same) ↦ rw (same (last r rs), is_last) (asked-init t r rs)
]

length-swap_remove :
    (rs : List RigRequest) (i : ℕ) {q : RigRequest}
    → get_elem? rs i ≡ some q
    → length (swap_remove rs i) + 1 ≡ length rs
unfolding swap_remove
length-swap_remove [] i e = cc
length-swap_remove (r ∷ rs) i e =
    omega (arith, length-set (init r rs) i (last r rs), length-init r rs)

-- a pass over the batch loses no request, and gives none to two rounds
abbrev IsSplit : ℕ → List RigRequest → List ℕ → List RigRequest × List ℕ → Type 0
IsSplit t batch responders r =
    (asked t r.0 + count t r.1 ≡ asked t batch + count t responders) × (length r.0 ≤ length batch)

visit-IsSplit :
    (t : ℕ) (go : ℕ → List RigRequest → List ℕ → List RigRequest × List ℕ)
    → ((i : ℕ) (batch : List RigRequest) (rs : List ℕ) → IsSplit t batch rs (go i batch rs))
    → (i : ℕ) (batch : List RigRequest) (rs : List ℕ) (o : Option RigRequest)
    → get_elem? batch i ≡ o
    → IsSplit t batch rs (visit go i batch rs o)
unfolding visit
visit-IsSplit t go ih i batch rs none e = (refl, omega arith)
visit-IsSplit t go ih i batch rs (some r) e = elim (Bool-cases (is_spectrum r.cmd)) [
  | inl gone ↦
      let h = ih i (swap_remove batch i) (rs ++ r.respond_to ∷ []) in
      rw gone (
        omega (arith, h.0, asked-swap_remove t batch i e, count-append t rs (r.respond_to ∷ [])),
        omega (arith, h.1, length-swap_remove batch i e),
      )
  | inr kept ↦ rw kept (ih (i + 1) batch rs)
]

coalesce-IsSplit :
    (t fuel i : ℕ) (batch : List RigRequest) (rs : List ℕ)
    → IsSplit t batch rs (coalesce fuel i batch rs)
unfolding coalesce
coalesce-IsSplit t zero i batch rs = (refl, omega arith)
coalesce-IsSplit t (suc fuel) i batch rs =
    visit-IsSplit t (coalesce fuel) (coalesce-IsSplit t fuel) i batch rs (get_elem? batch i) refl

gather-IsSplit :
    (t : ℕ) (r : RigRequest) (batch : List RigRequest) → IsSplit t batch [] (gather r.cmd batch)
unfolding gather
gather-IsSplit t r batch = elim (Bool-cases (is_spectrum r.cmd)) [
  | inl spectrum ↦ rw spectrum (coalesce-IsSplit t (length batch) 0 batch [])
  | inr other ↦ rw other (refl, omega arith)
]

drain-listed :
    (t fuel : ℕ) (batch : List RigRequest)
    → length batch ≤ fuel
    → listed t (drain fuel batch) ≡ asked t batch
unfolding drain listed
drain-listed t zero [] h = refl
drain-listed t zero (r ∷ batch) h = elim h [ ]
drain-listed t (suc fuel) [] h = refl
drain-listed t (suc fuel) (r ∷ batch) h =
    let split = gather-IsSplit t r batch in
    omega (arith, split.0, drain-listed t fuel (gather r.cmd batch).0 (omega (arith, split.1, h)))

answered-append :
    {A : Type 0} (t : ℕ) (xs ys : List (ℕ × A))
    → answered t (xs ++ ys) ≡ answered t xs + answered t ys
answered-append t [] ys = omega arith
answered-append t (x ∷ xs) ys = omega (arith, answered-append t xs ys)

answered-map :
    {A : Type 0} (t : ℕ) (a : A) (is : List ℕ) → answered t (map (λ i. (i, a)) is) ≡ count t is
answered-map t a [] = refl
answered-map t a (i ∷ is) = ap (λ n. one t i + n) (answered-map t a is)

module _ {S : Type 0} (c : TaskConfig) (b : Backend S) where
  run_rounds-answered :
      (t : ℕ) (clock : ℕ → Readings) (n : ℕ) (rs : List Round) (x : Context S)
      → answered t (run_rounds c b clock n rs x).0 ≡ listed t rs
  unfolding run_rounds listed
  run_rounds-answered t clock n [] x = refl
  run_rounds-answered t clock n (r ∷ rs) x =
      let reply = process_command c b (clock n) r.cmd x in
      let rest = run_rounds c b clock (n + 1) rs reply.1 in
      omega (
        arith,
        answered-append t (map (λ i. (i, reply.0)) r.responders) rest.0,
        answered-map t reply.0 r.responders,
        run_rounds-answered t clock (n + 1) rs reply.1,
      )

  -- Of a batch of requests each is answered exactly as often as it asks, whether or not requests
  -- for the spectrum are joined.
  pub run_batch-answered :
      (t : ℕ) (clock : ℕ → Readings) (batch : List RigRequest) (x : Context S)
      → answered t (run_batch c b clock batch x).0 ≡ asked t batch
  unfolding run_batch plan
  run_batch-answered t clock batch x =
      run_rounds-answered t clock 0 (plan batch) x
      ∙ drain-listed t (length batch) batch (omega arith)

  run_rounds-IsSound :
      (info : RigInfo) (clock : ℕ → Readings) (n : ℕ) (rs : List Round) (x : Context S)
      → IsSound info x.state
      → IsSound info (run_rounds c b clock n rs x).1.state
  unfolding run_rounds
  run_rounds-IsSound info clock n [] x h = h
  run_rounds-IsSound info clock n (r ∷ rs) x h =
      run_rounds-IsSound info clock (n + 1) rs (process_command c b (clock n) r.cmd x).1
        (process_command-IsSound info c b (clock n) r.cmd x h)

  pub run_batch-IsSound :
      (info : RigInfo) (clock : ℕ → Readings) (batch : List RigRequest) (x : Context S)
      → IsSound info x.state
      → IsSound info (run_batch c b clock batch x).1.state
  unfolding run_batch
  run_batch-IsSound info clock batch x h = run_rounds-IsSound info clock 0 (plan batch) x h
