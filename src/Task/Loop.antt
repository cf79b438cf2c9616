-- ===== src/Task/Loop.antt =====
-- The loop of the rig task (`run_rig_task` of src/trx-server/src/rig_task.rs) as a function of the
-- events that it selects. A timeout that drops a call midway is not modelled.
pub mod Invariant
use trx_rs.Common.{
  ℕ, ◌+◌, ◌-◌, Bool, true, false, not, ◌&&◌, Option, none, some, List, [], ◌∷◌, ltb, and_then,
  if◌then◌else◌,
}
use trx_rs.Rig.Types.{F64}
use trx_rs.Rig.Handlers.{Outcome, failed}
use trx_rs.Rig.Policies.{millis}
use trx_rs.Task.State.{RigState}
use trx_rs.Task.Sync.{sync_machine_state, is_off}
use trx_rs.Task.Backend.{Backend, TaskConfig}
use trx_rs.Task.Tuning.{set_sig, map_signal_strength, refresh_state}
use trx_rs.Task.Process.{Context, Readings}
use trx_rs.Task.Batch.{RigRequest, run_batch}

pub data TaskEvent : Type 0 where
  -- the clock at the test of the pause, after the read, and at the synchronisation
  poll : ℕ → ℕ → ℕ → TaskEvent
  meter : ℕ → TaskEvent
  requests : (ℕ → Readings) → List RigRequest → TaskEvent

unfoldable pub is_paused : ℕ → Option ℕ → Bool
is_paused now none = false
is_paused now (some until) = ltb now until

-- within five seconds of a `PowerOn` a failed poll pauses the next
pause_after_failure : ℕ → Option ℕ → Option ℕ → Option ℕ
pause_after_failure now none pause = pause
pause_after_failure now (some last_on) pause =
    if ltb (now - last_on) (millis 5_000) then some (now + millis 800) else pause

of_meter : (ℕ → F64) → {S : Type 0} → Outcome ℕ × S → Option F64 × S
of_meter f (Outcome.done raw, st) = (some (f raw), st)
of_meter f (failed e, st) = (none, st)

has_moved : (F64 → F64 → Bool) → Option F64 → F64 → Bool
has_moved significant none db = true
has_moved significant (some old) db = significant old db

module _ {S : Type 0} (c : TaskConfig) (b : Backend S) where
  after_poll : ℕ → ℕ → Outcome (Unit {0}) × (S × RigState) → Context S → Context S
  unfolding pause_after_failure
  after_poll now sync_now (failed e, p) x = record x {
    rig = p.0;
    state = p.1;
    poll_pause_until = pause_after_failure now x.last_power_on x.poll_pause_until;
  }
  after_poll now sync_now (Outcome.done u, p) x = record x {
    rig = p.0;
    state = p.1;
    machine = sync_machine_state sync_now x.machine p.1;
    published = p.1 ∷ x.published;
  }

  on_poll : ℕ → ℕ → ℕ → Context S → Context S
  unfolding after_poll is_paused is_off refresh_state
  on_poll now after sync_now x =
      let y : Context S = record x { poll_pause_until = none } in
      let polled : Context S = after_poll after sync_now (refresh_state c b (y.rig, y.state)) y in
      if is_paused now x.poll_pause_until
      then x
      else if is_off x.state.control.enabled
      then y
      else polled

  -- the reading of the meter, if there is one
  read_meter : RigState → Option F64 × S → Option F64 × S
  unfolding of_meter map_signal_strength
  read_meter s (some db, st) = (some db, st)
  read_meter s (none, st) =
      of_meter (map_signal_strength c.f64_diff s.status.mode) (b.rig_get_signal_strength st)

  after_meter : Option F64 × S → Context S → Context S
  unfolding has_moved set_sig
  after_meter (none, st) x = record x { rig = st }
  after_meter (some db, st) x =
      let s : RigState = set_sig db x.state in
      let new : Bool = has_moved c.significant (and_then x.state.status.rx (λ r. r.sig)) db in
      if new
      then record x { rig = st; state = s; published = s ∷ x.published }
      else record x { rig = st }

  on_meter : ℕ → Context S → Context S
  unfolding after_meter read_meter is_paused is_off
  on_meter now x =
      let read : Context S =
        after_meter (read_meter x.state (b.rig_get_signal_strength_db x.rig)) x in
      if not (is_off x.state.control.enabled)
        && (not x.state.status.tx_en && not (is_paused now x.poll_pause_until))
      then read
      else x

  unfoldable pub task_step : TaskEvent → Context S → Context S
  unfolding on_poll on_meter run_batch
  task_step (poll now after sync_now) x = on_poll now after sync_now x
  task_step (meter now) x = on_meter now x
  task_step (requests clock batch) x = (run_batch c b clock batch x).1

  unfoldable pub run : List TaskEvent → Context S → Context S
  unfolding task_step
  run [] x = x
  run (e ∷ es) x = run es (task_step e x)
