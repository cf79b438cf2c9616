-- ===== src/Task/Sync/Desired.antt =====
-- The machine after a synchronisation (`sync_machine_state` of src/trx-server/src/rig_task.rs).
use trx_rs.Common.{ℕ, true, false, some, ◌≡◌, refl, arith}
use trx_rs.Rig.Types.{RigInfo}
use trx_rs.Rig.Machine.{
  RigMachineState, ready, transmitting, RigStateMachine, is_locked, is_transmitting, set_state,
  update_ready_data, update_transmitting_data,
}
use trx_rs.Task.State.{RigState}
use trx_rs.Task.Sync.{
  sync_machine_state, desired_machine_state, lock_state_from, is_off, follow, once_initialized,
}

follow-state :
    (now : ℕ) (m : RigStateMachine) (current desired : RigMachineState)
    → m.state ≡ current
    → (follow now m current desired).state ≡ desired
unfolding follow update_ready_data update_transmitting_data set_state
follow-state now m (ready a) (ready b) e = rw e
follow-state now m (transmitting a) (transmitting b) e = rw e
follow-state now m current desired e = ground arith

-- Whatever state the machine is in, it is then in the state that is desired.
pub sync_machine_state-desired :
    (now : ℕ) (m : RigStateMachine) (s : RigState)
    → (sync_machine_state now m s).state ≡ desired_machine_state s
unfolding sync_machine_state
sync_machine_state-desired now m s = follow-state now m m.state (desired_machine_state s) refl

-- the rig is known and on, and the task has finished its start
abbrev pub IsUp : RigInfo → RigState → Type 0
IsUp info s = (s.initialized ≡ true) × (s.rig_info ≡ some info) × (is_off s.control.enabled ≡ false)

pub desired_up-is_locked :
    (info : RigInfo) (s : RigState)
    → IsUp info s
    → is_locked (desired_machine_state s) ≡ lock_state_from s
unfolding desired_machine_state once_initialized is_locked
desired_up-is_locked info s h = ground arith

pub desired_up-is_transmitting :
    (info : RigInfo) (s : RigState)
    → IsUp info s
    → s.status.tx_en ≡ true
    → is_transmitting (desired_machine_state s) ≡ true
unfolding desired_machine_state once_initialized is_transmitting
desired_up-is_transmitting info s h e = ground arith
