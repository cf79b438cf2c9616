-- ===== src/Task/Batch.antt =====
-- The requests that the task takes from its channel at once (the `rx.recv()` arm of `run_rig_task` in
-- src/trx-server/src/rig_task.rs): the order in which they are processed, and who gets which
-- result. A request's `respond_to` is a number.
pub mod Answered
pub mod Order
use trx_rs.Common.{
  ℕ, zero, suc, ◌+◌, Bool, true, false, Option, none, some, List, [], ◌∷◌, ◌++◌, map, length,
  get_elem?, set, if◌then◌else◌,
}
use trx_rs.Rig.Command.{RigCommand, get_spectrum}
use trx_rs.Task.State.{RigSnapshot}
use trx_rs.Task.Backend.{Backend, TaskConfig}
use trx_rs.Task.Process.{RigResult, Context, Readings, process_command}

pub record RigRequest : Type 0 where
  pub cmd : RigCommand
  pub respond_to : ℕ

pub record Round : Type 0 where
  pub cmd : RigCommand
  pub responders : List ℕ

unfoldable pub is_spectrum : RigCommand → Bool
is_spectrum get_spectrum = true
is_spectrum _ = false

-- all but the last entry, and the last
abbrev pub init : RigRequest → List RigRequest → List RigRequest
init r [] = []
init r (q ∷ qs) = r ∷ init q qs

abbrev pub last : RigRequest → List RigRequest → RigRequest
last r [] = r
last r (q ∷ qs) = last q qs

-- `Vec::swap_remove`: the last entry takes the place of the one that goes
unfoldable pub swap_remove : List RigRequest → ℕ → List RigRequest
swap_remove [] i = []
swap_remove (r ∷ rs) i = set (init r rs) i (last r rs)

visit :
    (ℕ → List RigRequest → List ℕ → List RigRequest × List ℕ)
    → ℕ
    → List RigRequest
    → List ℕ
    → Option RigRequest
    → List RigRequest × List ℕ
unfolding swap_remove is_spectrum
visit go i batch responders none = (batch, responders)
visit go i batch responders (some r) =
    let gone = go i (swap_remove batch i) (responders ++ r.respond_to ∷ []) in
    let kept = go (i + 1) batch responders in if is_spectrum r.cmd then gone else kept

-- The `while idx < batch.len()`; each round shortens the batch or the part that is left to see, so
-- its length is fuel enough.
coalesce : ℕ → ℕ → List RigRequest → List ℕ → List RigRequest × List ℕ
unfolding visit
coalesce zero i batch responders = (batch, responders)
coalesce (suc fuel) i batch responders =
    visit (coalesce fuel) i batch responders (get_elem? batch i)

gather : RigCommand → List RigRequest → List RigRequest × List ℕ
unfolding coalesce is_spectrum
gather cmd batch = if is_spectrum cmd then coalesce (length batch) 0 batch [] else (batch, [])

drain : ℕ → List RigRequest → List Round
unfolding gather
drain zero batch = []
drain (suc fuel) [] = []
drain (suc fuel) (r ∷ batch) =
    let rest = gather r.cmd batch in
    record { cmd = r.cmd; responders = r.respond_to ∷ rest.1 } ∷ drain fuel rest.0

-- the `while !batch.is_empty()`: a round takes at least one request
unfoldable pub plan : List RigRequest → List Round
unfolding drain
plan batch = drain (length batch) batch

module _ {S : Type 0} (c : TaskConfig) (b : Backend S) where
  -- Each round reads the clocks anew; the answers are in the order in which they are sent.
  unfoldable pub run_rounds :
      (ℕ → Readings) → ℕ → List Round → Context S → List (ℕ × RigResult RigSnapshot) × Context S
  unfolding process_command
  run_rounds clock n [] x = ([], x)
  run_rounds clock n (r ∷ rs) x =
      let (result, y) = process_command c b (clock n) r.cmd x in
      let (answers, z) = run_rounds clock (n + 1) rs y in
      (map (λ i. (i, result)) r.responders ++ answers, z)

  unfoldable pub run_batch :
      (ℕ → Readings) → List RigRequest → Context S → List (ℕ × RigResult RigSnapshot) × Context S
  unfolding plan run_rounds
  run_batch clock batch x = run_rounds clock 0 (plan batch) x
