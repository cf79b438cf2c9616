-- ===== src/Task/Start.antt =====
-- The start of the rig task, up to its loop (`run_rig_task`, `apply_initial_tune` and `prime_vfo_state`
-- of src/trx-server/src/rig_task.rs). Pauses between calls and log lines are left out, and the rig is
-- built.
pub mod Ready
use trx_rs.Common.{
  ℕ, String, Bool, true, false, not, ◌&&◌, ◌||◌, Option, none, some, [], ◌∷◌, ◌==◌, if◌then◌else◌,
}
use trx_rs.Rig.Types.{F64, Freq, RigMode, RigInfo}
use trx_rs.Rig.Modes.{mode_eq}
use trx_rs.Rig.Machine.{RigStateMachine, new}
use trx_rs.Rig.Handlers.{Outcome, failed, Call, ◌>>=◌, ◌>>◌, pure}
use trx_rs.Task.State.{RigState, new_with_metadata}
use trx_rs.Task.Sync.{sync_machine_state, unwrap_or}
use trx_rs.Task.Backend.{Backend, TaskConfig}
use trx_rs.Task.Tuning.{filter_of, refresh_state, refresh_after_power_on}
use trx_rs.Task.Process.{Context}

-- what `RigTaskConfig` says of the first state
pub record StartConfig : Type 0 where
  pub initial_freq_hz : ℕ
  pub initial_mode : RigMode
  pub server_callsign : Option String
  pub server_version : Option String
  pub server_build_date : Option String
  pub server_latitude : Option F64
  pub server_longitude : Option F64
  pub pskreporter_status : Option String
  pub aprs_is_status : Option String
  pub vfo_prime : Bool

-- a call of the rig by itself, and one whose error is only logged
unfoldable pub on_rig : {S A : Type 0} → Call S A → Call (S × RigState) A
on_rig m (st, s) = let (r, st') = m st in (r, (st', s))

unfoldable pub ignored : {S A : Type 0} → Call S A → Call S (Unit {0})
ignored m st = (Outcome.done tt, (m st).1)

unfoldable pub when : {S : Type 0} → Bool → Call S (Unit {0}) → Call S (Unit {0})
unfolding pure
when q m = if q then m else pure tt

unfoldable pub succeeded : {A : Type 0} → Outcome A → Bool
succeeded (Outcome.done a) = true
succeeded (failed e) = false

module _ {S : Type 0} (c : TaskConfig) (b : Backend S) where
  tune : Bool → Bool → ℕ → RigMode → Call (S × RigState) (Unit {0})
  unfolding ◌>>=◌ on_rig when refresh_state
  tune needs_freq needs_mode freq_hz mode = do
    when needs_mode (on_rig (b.cat.rig_set_mode mode))
    when needs_freq (on_rig (b.cat.rig_set_freq (record { hz = freq_hz })))
    refresh_state c b

  unfoldable pub apply_initial_tune : ℕ → RigMode → Call (S × RigState) (Unit {0})
  unfolding tune mode_eq
  apply_initial_tune freq_hz mode p =
      let needs_freq = not (p.1.status.freq.hz == freq_hz) in
      let needs_mode = not (mode_eq p.1.status.mode mode) in
      if not needs_freq && not needs_mode
      then (Outcome.done tt, p)
      else tune needs_freq needs_mode freq_hz mode p

  unfoldable pub prime_vfo_state : Call (S × RigState) (Unit {0})
  unfolding ◌>>=◌ on_rig ignored refresh_state
  prime_vfo_state = do
    on_rig (ignored b.cat.rig_unlock)
    refresh_state c b
    on_rig b.cat.rig_toggle_vfo
    refresh_state c b
    on_rig b.cat.rig_toggle_vfo
    refresh_state c b

  -- the state before any call of the rig
  unfoldable pub first_state : StartConfig → RigInfo → S → RigState
  unfolding new_with_metadata
  first_state k info st =
      let s : RigState =
        new_with_metadata k.server_callsign k.server_version k.server_build_date k.server_latitude
          k.server_longitude k.initial_freq_hz k.initial_mode in
      record s {
        pskreporter_status = k.pskreporter_status;
        aprs_is_status = k.aprs_is_status;
        rig_info = some info;
        filter = filter_of b st;
      }

  -- `power_on` and what follows it; the Boolean says whether the rig was read
  after_wake : Outcome (Unit {0}) × S → RigState → Bool × (S × RigState)
  unfolding refresh_after_power_on succeeded
  after_wake (failed e, st) s = (false, (st, s))
  after_wake (Outcome.done u, st) s =
      let (r, p) =
        refresh_after_power_on c b
          (st, record s { control = record s.control { enabled = some true } }) in
      (succeeded r, p)

  wake : S × RigState → Bool × (S × RigState)
  unfolding after_wake
  wake (st, s) =
      if unwrap_or s.control.enabled false
      then (false, (st, s))
      else after_wake (b.cat.rig_power_on st) s

  prime : Bool → Bool × (S × RigState) → Bool × (S × RigState)
  unfolding prime_vfo_state succeeded
  prime vfo_prime (was_read, p) =
      let (r, q) = prime_vfo_state p in
      if vfo_prime then (was_read || succeeded r, q) else (was_read, p)

  -- `initial_status_read`, and whether a tuned rig is synchronised at once
  tune_once : StartConfig → Bool × (S × RigState) → Bool × (S × RigState)
  unfolding apply_initial_tune succeeded
  tune_once k (was_read, p) =
      let (r, q) = apply_initial_tune k.initial_freq_hz k.initial_mode p in
      if was_read then (succeeded r, q) else (false, p)

  -- the three readings of the clock are those of `sync_machine_state`
  unfoldable pub start : StartConfig → RigInfo → ℕ → ℕ → ℕ → S → Context S
  unfolding first_state wake prime tune_once
  start k info t0 t1 t2 st =
      let s0 : RigState = first_state k info st in
      let m0 : RigStateMachine = sync_machine_state t0 new s0 in
      let (tuned, p) = tune_once k (prime k.vfo_prime (wake (st, s0))) in
      let m1 : RigStateMachine = if tuned then sync_machine_state t1 m0 p.1 else m0 in
      let s2 : RigState = record p.1 { initialized = true } in
      record {
        rig = p.0;
        state = s2;
        machine = sync_machine_state t2 m1 s2;
        poll_pause_until = none;
        last_power_on = none;
        published = s2 ∷ s0 ∷ [];
        cleared = [];
      }
