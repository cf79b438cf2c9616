-- ===== src/Task/Sync.antt =====
-- The state machine that follows the state of the task (`sync_machine_state` and what it calls, in
-- src/trx-server/src/rig_task.rs). `now` is the clock that `set_state` reads.
pub mod Desired
use trx_rs.Common.{ℕ, Bool, true, false, Option, none, some, and_then, if◌then◌else◌}
use trx_rs.Rig.Types.{RigInfo}
use trx_rs.Rig.Machine.{
  RigMachineState, disconnected, initializing, powered_off, ready, transmitting, RigStateMachine,
  ReadyStateData, TransmittingStateData, set_state, update_ready_data, update_transmitting_data,
}
use trx_rs.Task.State.{RigState}

-- `a.or(b)` and `a.unwrap_or(d)`
abbrev pub option_or {ℓ} : {A : Type ℓ} → Option A → Option A → Option A
option_or none b = b
option_or (some a) b = some a

abbrev pub unwrap_or {ℓ} : {A : Type ℓ} → Option A → A → A
unwrap_or none d = d
unwrap_or (some a) d = a

unfoldable pub lock_state_from : RigState → Bool
lock_state_from s = unwrap_or (option_or s.control.lock s.status.lock) false

unfoldable pub ready_data_from_state : RigState → RigInfo → ReadyStateData
unfolding lock_state_from
ready_data_from_state s info = record {
  rig_info = info;
  freq = s.status.freq;
  mode = s.status.mode;
  vfo = s.status.vfo;
  rx = s.status.rx;
  tx_limit = and_then s.status.tx (λ t. t.limit);
  locked = lock_state_from s;
}

unfoldable pub transmitting_data_from_state : RigState → RigInfo → TransmittingStateData
unfolding lock_state_from
transmitting_data_from_state s info = record {
  rig_info = info;
  freq = s.status.freq;
  mode = s.status.mode;
  vfo = s.status.vfo;
  tx = s.status.tx;
  locked = lock_state_from s;
}

-- `matches!(enabled, Some(false))`
unfoldable pub is_off : Option Bool → Bool
is_off (some false) = true
is_off _ = false

before_initialized : Option RigInfo → RigMachineState
before_initialized none = disconnected
before_initialized (some info) = initializing (some info)

once_initialized : RigState → Option RigInfo → RigMachineState
unfolding is_off ready_data_from_state transmitting_data_from_state
once_initialized s none = disconnected
once_initialized s (some info) =
    if is_off s.control.enabled
    then powered_off info
    else if s.status.tx_en
    then transmitting (transmitting_data_from_state s info)
    else ready (ready_data_from_state s info)

unfoldable pub desired_machine_state : RigState → RigMachineState
unfolding before_initialized once_initialized
desired_machine_state s =
    if s.initialized then once_initialized s s.rig_info else before_initialized s.rig_info

follow : ℕ → RigStateMachine → RigMachineState → RigMachineState → RigStateMachine
unfolding update_ready_data update_transmitting_data set_state
follow now m (ready _) (ready d) = update_ready_data (λ _. d) m
follow now m (transmitting _) (transmitting d) = update_transmitting_data (λ _. d) m
follow now m _ desired = set_state now desired m

unfoldable pub sync_machine_state : ℕ → RigStateMachine → RigState → RigStateMachine
unfolding follow desired_machine_state
sync_machine_state now m s = follow now m m.state (desired_machine_state s)
