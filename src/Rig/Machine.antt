-- ===== src/Rig/Machine.antt =====
-- src/trx-core/src/rig/controller/machine.rs: the lifecycle of a rig. `SystemTime::now()` and
-- `Instant::now()` are arguments, in seconds and in ticks of the monotonic clock.
pub mod Transitions
pub mod Traces
use trx_rs.Common.{
  ℕ, ◌+◌, ◌%◌, ◌^◌, String, Bool, true, false, Option, none, some, List, [], ◌∷◌, and_then,
  if◌then◌else◌,
}
use trx_rs.Rig.Types.{
  Freq, RigMode, RigInfo, RigVfo, RigRxStatus, RigTxStatus, RigStatus, float_zero,
}

pub record RigStateError : Type 0 where
  pub message : String
  pub recoverable : Bool
  pub occurred_at : Option ℕ

-- `RigStateError::new`, `transient` and `fatal`; the seconds since the epoch come in
unfoldable pub new_error : ℕ → String → Bool → RigStateError
new_error unix_secs message recoverable = record {
  message = message;
  recoverable = recoverable;
  occurred_at = some unix_secs;
}

unfoldable pub transient_error : ℕ → String → RigStateError
unfolding new_error
transient_error unix_secs message = new_error unix_secs message true

unfoldable pub fatal_error : ℕ → String → RigStateError
unfolding new_error
fatal_error unix_secs message = new_error unix_secs message false

pub data RigEvent : Type 0 where
  connected initialized powered_on powered_off ptt_on ptt_off : RigEvent
  error : RigStateError → RigEvent
  recovered disconnected : RigEvent

pub record ReadyStateData : Type 0 where
  pub rig_info : RigInfo
  pub freq : Freq
  pub mode : RigMode
  pub vfo : Option RigVfo
  pub rx : Option RigRxStatus
  pub tx_limit : Option ℕ
  pub locked : Bool

pub record TransmittingStateData : Type 0 where
  pub rig_info : RigInfo
  pub freq : Freq
  pub mode : RigMode
  pub vfo : Option RigVfo
  pub tx : Option RigTxStatus
  pub locked : Bool

pub data RigMachineState : Type 0 where
  disconnected : RigMachineState
  connecting : Option ℕ → RigMachineState
  initializing : Option RigInfo → RigMachineState
  powered_off : RigInfo → RigMachineState
  ready : ReadyStateData → RigMachineState
  transmitting : TransmittingStateData → RigMachineState
  error : RigStateError → RigMachineState → RigMachineState

unfoldable pub can_execute_commands : RigMachineState → Bool
can_execute_commands (ready _) = true
can_execute_commands (transmitting _) = true
can_execute_commands _ = false

unfoldable pub is_initialized : RigMachineState → Bool
is_initialized (ready _) = true
is_initialized (transmitting _) = true
is_initialized (powered_off _) = true
is_initialized _ = false

unfoldable pub is_transmitting : RigMachineState → Bool
is_transmitting (transmitting _) = true
is_transmitting _ = false

unfoldable pub is_error : RigMachineState → Bool
is_error (error _ _) = true
is_error _ = false

unfoldable pub is_locked : RigMachineState → Bool
is_locked (ready d) = d.locked
is_locked (transmitting d) = d.locked
is_locked _ = false

unfoldable pub state_freq : RigMachineState → Option Freq
state_freq (ready d) = some d.freq
state_freq (transmitting d) = some d.freq
state_freq _ = none

unfoldable pub state_mode : RigMachineState → Option RigMode
state_mode (ready d) = some d.mode
state_mode (transmitting d) = some d.mode
state_mode _ = none

unfoldable pub state_rig_info : RigMachineState → Option RigInfo
state_rig_info disconnected = none
state_rig_info (connecting _) = none
state_rig_info (initializing info) = info
state_rig_info (powered_off info) = some info
state_rig_info (ready d) = some d.rig_info
state_rig_info (transmitting d) = some d.rig_info
state_rig_info (error _ previous) = state_rig_info previous

unfoldable pub to_rig_status : RigMachineState → Option RigStatus
to_rig_status (ready d) = some (record {
  freq = d.freq;
  mode = d.mode;
  tx_en = false;
  vfo = d.vfo;
  tx = some (record { power = some 0; limit = d.tx_limit; swr = some float_zero; alc = none });
  rx = d.rx;
  lock = some d.locked;
})
to_rig_status (transmitting d) = some (record {
  freq = d.freq;
  mode = d.mode;
  tx_en = true;
  vfo = d.vfo;
  tx = d.tx;
  rx = some (record { sig = some float_zero });
  lock = some d.locked;
})
to_rig_status _ = none

pub record RigStateMachine : Type 0 where
  pub state : RigMachineState
  pub transition_count : ℕ  -- u64
  pub last_transition : Option ℕ

unfoldable pub new : RigStateMachine
new = record { state = disconnected; transition_count = 0; last_transition = none }

-- the state that `PoweredOn` enters
abbrev fresh_ready : RigInfo → ReadyStateData
fresh_ready info = record {
  rig_info = info;
  freq = record { hz = 0 };
  mode = RigMode.usb;
  vfo = none;
  rx = none;
  tx_limit = none;
  locked = false;
}

abbrev start_transmitting : ReadyStateData → TransmittingStateData
start_transmitting d = record {
  rig_info = d.rig_info;
  freq = d.freq;
  mode = d.mode;
  vfo = d.vfo;
  tx = some (record { power = none; limit = d.tx_limit; swr = none; alc = none });
  locked = d.locked;
}

abbrev stop_transmitting : TransmittingStateData → ReadyStateData
stop_transmitting d = record {
  rig_info = d.rig_info;
  freq = d.freq;
  mode = d.mode;
  vfo = d.vfo;
  rx = none;
  tx_limit = and_then d.tx (λ t. t.limit);
  locked = d.locked;
}

-- The `match` of `next_state`, in its order: the rows of one state, then `Error` and
-- `Disconnected` from any state, then nothing.
unfoldable pub next_state : ℕ → RigMachineState → RigEvent → Option RigMachineState
next_state unix_secs disconnected connected = some (connecting (some unix_secs))
next_state unix_secs (connecting _) initialized = some (initializing none)
next_state unix_secs (initializing info) powered_on =
    and_then info (λ i. some (ready (fresh_ready i)))
next_state unix_secs (initializing _) powered_off = none
next_state unix_secs (powered_off info) powered_on = some (ready (fresh_ready info))
next_state unix_secs (ready d) ptt_on = some (transmitting (start_transmitting d))
next_state unix_secs (ready d) powered_off = some (powered_off d.rig_info)
next_state unix_secs (transmitting d) ptt_off = some (ready (stop_transmitting d))
next_state unix_secs (transmitting d) powered_off = some (powered_off d.rig_info)
next_state unix_secs current (RigEvent.error e) = some (error e current)
next_state unix_secs (error e previous) recovered =
    if e.recoverable then some previous else some disconnected
next_state unix_secs _ RigEvent.disconnected = some disconnected
next_state unix_secs _ _ = none

-- `set_state`, also the tail of `process_event`
unfoldable pub set_state : ℕ → RigMachineState → RigStateMachine → RigStateMachine
set_state now s m = record {
  state = s;
  transition_count = (m.transition_count + 1) % 2 ^ 64;
  last_transition = some now;
}

enter : ℕ → Option RigMachineState → RigStateMachine → RigStateMachine × Bool
enter now (some s) m = (set_state now s m, true)
enter now none m = (m, false)

unfoldable pub process_event : ℕ → ℕ → RigStateMachine → RigEvent → RigStateMachine × Bool
unfolding next_state set_state enter
process_event unix_secs now m e = enter now (next_state unix_secs m.state e) m

on_ready : (ReadyStateData → ReadyStateData) → RigMachineState → RigMachineState
on_ready f (ready d) = ready (f d)
on_ready f s = s

unfoldable pub update_ready_data :
    (ReadyStateData → ReadyStateData) → RigStateMachine → RigStateMachine
unfolding on_ready
update_ready_data f m = record m { state = on_ready f m.state }

on_transmitting :
    (TransmittingStateData → TransmittingStateData) → RigMachineState → RigMachineState
on_transmitting f (transmitting d) = transmitting (f d)
on_transmitting f s = s

unfoldable pub update_transmitting_data :
    (TransmittingStateData → TransmittingStateData) → RigStateMachine → RigStateMachine
unfolding on_transmitting
update_transmitting_data f m = record m { state = on_transmitting f m.state }

-- a sequence of events, each with the two clock readings that it sees
pub record Stamped : Type 0 where
  pub unix_secs : ℕ
  pub now : ℕ
  pub event : RigEvent

unfoldable pub run : RigStateMachine → List Stamped → RigStateMachine
run m [] = m
run m (e ∷ es) = run (process_event e.unix_secs e.now m e.event).0 es
