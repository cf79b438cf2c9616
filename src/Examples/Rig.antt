-- ===== src/Examples/Rig.antt =====
-- The rig controller at concrete inputs.
use trx_rs.Common.{
  ℕ, ◌+◌, true, false, none, some, List, [], ◌∷◌, ◌≡◌, ◌↔◌, refl, arith, ltb, if◌then◌else◌,
}
use trx_rs.Rig.Types.{RigMode, RigInfo, RigCapabilities, RigAccessMethod}
use trx_rs.Rig.Machine.{
  RigStateError, RigEvent, connected, initialized, powered_on, ptt_on, RigMachineState, ready,
  ReadyStateData, RigStateMachine, is_initialized, is_locked, is_transmitting, next_state, new,
  process_event, Stamped, run,
}
use trx_rs.Rig.Machine.Transitions.{Accepts, process-event_rejected}
use trx_rs.Rig.Machine.Traces.{accepted, on_air, HasPttOn, on_air_needs_ptt_on}
use trx_rs.Rig.Handlers.{ValidationResult, power_off, can_execute, Outcome, failed, Call, RigCat}
use trx_rs.Rig.Handlers.Validation.{can_execute-power_off}
use trx_rs.Rig.Policies.{default_rig, exponential, timeout, should_retry, refresh_with_retry}
use trx_rs.Rig.Policies.Retry.{start, one_more, refresh_with_retry-done}

abbrev capabilities : RigCapabilities
capabilities = record {
  min_freq_step_hz = 10;
  supported_bands = [];
  supported_modes = RigMode.usb ∷ [];
  num_vfos = 2;
  lock = true;
  lockable = true;
  attenuator = false;
  preamp = false;
  rit = false;
  rpt = false;
  split = false;
  tx = true;
  tx_limit = true;
  vfo_switch = true;
  filter_controls = false;
  signal_meter = true;
}

abbrev pub info : RigInfo
info = record {
  manufacturer = "Yaesu";
  model = "FT-817";
  revision = "";
  capabilities = capabilities;
  access = RigAccessMethod.serial "/dev/ttyUSB0" 9600;
}

abbrev data_20m : ReadyStateData
data_20m = record {
  rig_info = info;
  freq = record { hz = 14_074_000 };
  mode = RigMode.usb;
  vfo = none;
  rx = none;
  tx_limit = some 5;
  locked = true;
}

abbrev on_20m : RigStateMachine
on_20m = record { state = ready data_20m; transition_count = 4; last_transition = none }

-- the events of a start, as the diagram of the architecture has them
abbrev starting : List Stamped
starting =
    record { unix_secs = 1; now = 1; event = RigEvent.connected }
    ∷ record { unix_secs = 2; now = 2; event = RigEvent.initialized }
    ∷ record { unix_secs = 3; now = 3; event = RigEvent.powered_on }
    ∷ []

not_accepted : ¬ Accepts on_20m.state connected
not_accepted a = elim a [ ]

process-event_rejected_example : process_event 7 8 on_20m connected ≡ (on_20m, false)
process-event_rejected_example = process-event_rejected 7 8 on_20m connected not_accepted

abbrev glitch : RigStateError
glitch = record { message = "CAT timeout"; recoverable = true; occurred_at = some 7 }

on_20m_powered_off :
    next_state 7 (ready data_20m) RigEvent.powered_off ≡ some (RigMachineState.powered_off info)
unfolding next_state
on_20m_powered_off = refl

abbrev script : List Stamped
script =
    record { unix_secs = 1; now = 1; event = connected }
    ∷ record { unix_secs = 2; now = 2; event = initialized }
    ∷ record { unix_secs = 3; now = 3; event = powered_on }
    ∷ record { unix_secs = 4; now = 4; event = ptt_on }
    ∷ []

two_accepted : accepted new script ≡ 2
unfolding accepted process_event new
two_accepted = refl

on_20m_keyed : on_air (run on_20m script).state ≡ true
unfolding run process_event on_air
on_20m_keyed = refl

on_20m_silent : on_air on_20m.state ≡ false
unfolding on_air
on_20m_silent = refl

on_air_needs_ptt_on_example : HasPttOn script
on_air_needs_ptt_on_example = on_air_needs_ptt_on on_20m script on_20m_silent on_20m_keyed

panel_locked : is_locked (ready data_20m) ≡ true
unfolding is_locked
panel_locked = refl

no_rig : is_initialized RigMachineState.disconnected ≡ false
unfolding is_initialized
no_rig = refl

can_execute-power_off_example :
    (can_execute power_off (ready data_20m) ≡ ValidationResult.ok)
    ↔ (is_transmitting (ready data_20m) ≡ false)
can_execute-power_off_example = can_execute-power_off (ready data_20m)

-- a backend that counts its calls, and fails the first three
abbrev flaky : Call ℕ (Unit {0})
flaky n = if◌then◌else◌ (ltb n 2) (failed "busy", n + 1) (Outcome.done tt, n)

abbrev count_call : Call ℕ (Unit {0})
count_call n = (Outcome.done tt, n + 1)

abbrev pub counting : RigCat ℕ
counting = record {
  rig_set_freq = λ f. count_call;
  rig_set_mode = λ m. count_call;
  rig_set_ptt = λ b. count_call;
  rig_power_on = count_call;
  rig_power_off = count_call;
  rig_toggle_vfo = count_call;
  rig_lock = count_call;
  rig_unlock = count_call;
  rig_get_tx_limit = λ n. (Outcome.done 5, n + 1);
  rig_set_tx_limit = λ l. count_call;
}

first_retry : should_retry (exponential default_rig) 1 timeout ≡ true
unfolding should_retry timeout
first_retry = refl

refresh_with_retry-done_example :
    let r = refresh_with_retry (λ d. d) default_rig flaky 1 in
    (r.result ≡ Outcome.done tt) × (r.state ≡ 2)
refresh_with_retry-done_example =
    refresh_with_retry-done (λ d. d) default_rig flaky 1 (one_more refl start) refl (omega arith)

abbrev dead : Call ℕ (Unit {0})
dead n = (failed "no answer", n + 1)
