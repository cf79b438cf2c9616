-- ===== src/Examples/Task.antt =====
-- The rig task at concrete inputs.
use trx_rs.Common.{
  ℕ, ◌≤◌, true, false, false, none, some, List, [], ◌∷◌, ◌≡◌, ◌≢◌, ◌↔◌, refl, arith,
}
use trx_rs.Rig.Types.{RigMode}
use trx_rs.Rig.Command.{RigCommand, get_spectrum}
use trx_rs.Rig.Machine.{new}
use trx_rs.Rig.Handlers.{Outcome, failed, command_from_rig_command}
use trx_rs.Rig.Handlers.Validation.{retunes}
use trx_rs.Rig.Policies.{default_rig, invalid_state}
use trx_rs.Task.State.{
  RigState, RigSnapshot, new_uninitialized, default_status, default_decoders, default_control,
}
use trx_rs.Task.Sync.{is_off, lock_state_from, desired_machine_state}
use trx_rs.Task.Sync.Desired.{IsUp}
use trx_rs.Task.Backend.{Backend, TaskConfig}
use trx_rs.Task.Tuning.{retune}
use trx_rs.Task.Tuning.Sound.{IsSound}
use trx_rs.Task.Tuning.Decoders.{seq, is_image, retune-seq}
use trx_rs.Task.Tuning.Modes.{runs_in}
use trx_rs.Task.Route.{History, route}
use trx_rs.Task.Process.{Context, Readings, refused, process_command}
use trx_rs.Task.Process.Locked.{only_synced, process_command-locked}
use trx_rs.Task.Process.Answers.{IsTold, publishes, syncs, process_command-IsTold}
use trx_rs.Task.Batch.{RigRequest, plan, run_batch, is_spectrum}
use trx_rs.Task.Batch.Answered.{asked, answered, run_batch-answered}
use trx_rs.Task.Batch.Order.{spectra, processed, plan-processed, plan-moves_last}
use trx_rs.Task.Start.{StartConfig, start}
use trx_rs.Task.Start.Ready.{start-IsSound}
use trx_rs.Task.Loop.{TaskEvent, poll, meter, requests, run}
use trx_rs.Task.Loop.Invariant.{run-start-IsSound}
use trx_rs.Examples.Rig.{info, counting}

abbrev config : TaskConfig
config = record {
  retry = default_rig;
  jitter = λ d. d;
  label = λ hz. "20m";
  f64_diff = λ a b. a;
  significant = λ a b. true;
}

abbrev backend : Backend ℕ
backend = record {
  cat = counting;
  rig_get_status = λ n. (Outcome.done (record { hz = 14_074_000 }, RigMode.dig, none), n);
  rig_get_signal_strength = λ n. (Outcome.done 9, n);
  rig_get_signal_strength_db = λ n. (none, n);
  rig_get_tx_power = λ n. (failed "no answer", n);
  sdr = none;
}

abbrev readings : Readings
readings = record { first_sync = 1; answered = 2; second_sync = 3 }

abbrev locked_state : RigState
locked_state = record new_uninitialized {
  rig_info = some info;
  initialized = true;
  control = record default_control { enabled = some true; lock = some true };
}

abbrev resting : RigState → Context ℕ
resting s = record {
  rig = 0;
  state = s;
  machine = new;
  poll_pause_until = none;
  last_power_on = none;
  published = [];
  cleared = [];
}

abbrev set_40m : RigCommand
set_40m = RigCommand.set_freq (record { hz = 7_074_000 })

locked_IsUp : IsUp info locked_state
unfolding is_off
locked_IsUp = (refl, refl, refl)

locked_locked : lock_state_from locked_state ≡ true
unfolding lock_state_from
locked_locked = refl

set_40m-retunes : retunes (command_from_rig_command set_40m) ≡ true
unfolding retunes command_from_rig_command
set_40m-retunes = refl

process_command-locked_example :
    process_command config backend readings set_40m (resting locked_state) ≡ (
      refused (invalid_state "panel is locked"),
      only_synced info config backend readings (resting locked_state),
    )
process_command-locked_example =
    process_command-locked info config backend readings set_40m (resting locked_state) locked_IsUp
      locked_locked set_40m-retunes

abbrev keyed_state : RigState
keyed_state = record locked_state { status = record default_status { tx_en = true } }

keyed_IsUp : IsUp info keyed_state
unfolding is_off
keyed_IsUp = (refl, refl, refl)

set_40m-publishes : publishes {S = ℕ} (route set_40m) ≡ true
unfolding publishes route
set_40m-publishes = refl

process_command-IsTold_example :
    IsTold config
      (syncs {S = ℕ} (route set_40m))
      []
      (process_command config backend readings set_40m (resting keyed_state))
process_command-IsTold_example =
    process_command-IsTold config backend readings set_40m (resting keyed_state) set_40m-publishes

retune-seq_example :
    (seq History.ft8 (retune (record { hz = 7_074_000 }) locked_state).reset_seqs ≢ 0) ↔ (
      (7_074_000 ≢ locked_state.status.freq.hz)
      × ((runs_in History.ft8 RigMode.usb ≡ true) × (is_image History.ft8 ≡ false)))
retune-seq_example = retune-seq (record { hz = 7_074_000 }) locked_state History.ft8

abbrev snapshot_20m : RigSnapshot
snapshot_20m = record {
  info = info;
  status = default_status;
  band = none;
  enabled = some true;
  initialized = true;
  server_callsign = some "SP2SJG";
  server_version = none;
  server_build_date = none;
  server_latitude = none;
  server_longitude = none;
  pskreporter_status = none;
  aprs_is_status = none;
  decoders = default_decoders;
  cw_auto = true;
  cw_wpm = 15;
  cw_tone_hz = 700;
  filter = none;
  spectrum = none;
  vchan_rds = none;
}

abbrev asks : RigCommand → ℕ → RigRequest
asks c i = record { cmd = c; respond_to = i }

abbrev set_20m : RigCommand
set_20m = RigCommand.set_freq (record { hz = 14_074_000 })

abbrev mixed : List RigRequest
mixed = asks set_40m 0 ∷ asks get_spectrum 1 ∷ asks set_20m 2 ∷ []

one_spectrum : spectra mixed ≤ 1
unfolding is_spectrum
one_spectrum = omega arith

plan-processed_example : processed (plan mixed) ≡ set_40m ∷ get_spectrum ∷ set_20m ∷ []
plan-processed_example = plan-processed mixed one_spectrum

no_spectrum : spectra (asks set_20m 3 ∷ asks set_40m 2 ∷ []) ≡ 0
unfolding is_spectrum
no_spectrum = refl

-- the rig ends on the first of two frequencies
plan-moves_last_example :
    processed
      (plan (asks get_spectrum 0 ∷ asks get_spectrum 1 ∷ asks set_40m 2 ∷ asks set_20m 3 ∷ []))
    ≡ get_spectrum ∷ set_20m ∷ set_40m ∷ []
plan-moves_last_example = plan-moves_last 0 1 (asks set_40m 2 ∷ []) (asks set_20m 3) no_spectrum

run_batch-answered_example :
    answered 2 (run_batch config backend (λ n. readings) mixed (resting keyed_state)).0
    ≡ asked 2 mixed
run_batch-answered_example =
    run_batch-answered config backend 2 (λ n. readings) mixed (resting keyed_state)

abbrev start_config : StartConfig
start_config = record {
  initial_freq_hz = 144_300_000;
  initial_mode = RigMode.usb;
  server_callsign = some "SP2SJG";
  server_version = none;
  server_build_date = none;
  server_latitude = none;
  server_longitude = none;
  pskreporter_status = none;
  aprs_is_status = none;
  vfo_prime = true;
}

start-IsSound_example :
    let x = start config backend start_config info 1 2 3 0 in
    IsSound info x.state
    × (x.state.initialized ≡ true)
    × (x.machine.state ≡ desired_machine_state x.state)
start-IsSound_example = start-IsSound info config backend start_config 1 2 3 0

abbrev events : List TaskEvent
events =
    poll 10 11 12
    ∷ requests (λ n. readings) (asks (RigCommand.set_cw_wpm 90) 0 ∷ mixed)
    ∷ meter 13
    ∷ []

run-start-IsSound_example :
    IsSound info (run config backend events (start config backend start_config info 1 2 3 0)).state
run-start-IsSound_example = run-start-IsSound info config backend start_config 1 2 3 0 events
