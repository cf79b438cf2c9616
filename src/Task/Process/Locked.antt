-- ===== src/Task/Process/Locked.antt =====
-- Which commands reach the rig (`process_command` of src/trx-server/src/rig_task.rs).
use trx_rs.Common.{Bool, true, not, ◌&&◌, ◌≡◌, refl, ◌∙◌, ap, arith, if◌then◌else◌}
use trx_rs.Rig.Types.{RigInfo}
use trx_rs.Rig.Command.{RigCommand}
use trx_rs.Rig.Machine.{RigMachineState, is_transmitting}
use trx_rs.Rig.Handlers.{ValidationResult, power_off, can_execute, command_from_rig_command}
use trx_rs.Rig.Handlers.Validation.{retunes, can_execute-locked}
use trx_rs.Rig.Policies.{invalid_state}
use trx_rs.Task.Sync.{sync_machine_state, desired_machine_state, lock_state_from}
use trx_rs.Task.Sync.Desired.{
  sync_machine_state-desired, IsUp, desired_up-is_locked, desired_up-is_transmitting,
}
use trx_rs.Task.Backend.{Backend, TaskConfig}
use trx_rs.Task.Route.{handled, route}
use trx_rs.Task.Process.{
  Context, Readings, refused, Reply, follow_route, run_handler, synced, needs_rig, once_validated,
  process_command,
}

retunes-handled :
    (S : Type 0) (cmd : RigCommand)
    → retunes (command_from_rig_command cmd) ≡ true
    → route {S = S} cmd ≡ handled
unfolding retunes command_from_rig_command route
retunes-handled S (RigCommand.set_freq f) h = refl
retunes-handled S (RigCommand.set_mode m) h = refl
retunes-handled S RigCommand.toggle_vfo h = refl
retunes-handled S cmd h = cc

power_off-transmitting :
    (s : RigMachineState)
    → is_transmitting s ≡ true
    → can_execute power_off s ≡ ValidationResult.invalid_state "Cannot power off while transmitting"
unfolding can_execute
power_off-transmitting s e = ground arith

module _ {S : Type 0} (info : RigInfo) (c : TaskConfig) (b : Backend S) (t : Readings) where
  -- all that a command leaves behind that is refused before it reaches the rig
  abbrev pub only_synced : Context S → Context S
  only_synced x = record x { machine = sync_machine_state t.first_sync x.machine x.state }

  run_handler-validated :
      (cmd : RigCommand) (x : Context S) (v : ValidationResult)
      → x.state.initialized ≡ true
      → can_execute (command_from_rig_command cmd) (desired_machine_state x.state) ≡ v
      → run_handler c b t cmd x ≡ once_validated c b t cmd v (only_synced x)
  unfolding run_handler synced
  run_handler-validated cmd x v up e =
      let y : Context S = only_synced x in
      let early : Reply S = (refused (invalid_state "rig not initialized yet"), y) in
      let h = command_from_rig_command cmd in
      let rest = λ (w : ValidationResult). once_validated c b t cmd w y in
      ap
        (λ (q : Bool).
          if not q && needs_rig cmd then early else rest (can_execute h y.machine.state))
        up
      ∙ ap rest (ap (can_execute h) (sync_machine_state-desired t.first_sync x.machine x.state) ∙ e)

  handled-validated :
      (cmd : RigCommand) (x : Context S) (v : ValidationResult)
      → route {S = S} cmd ≡ handled
      → x.state.initialized ≡ true
      → can_execute (command_from_rig_command cmd) (desired_machine_state x.state) ≡ v
      → process_command c b t cmd x ≡ once_validated c b t cmd v (only_synced x)
  unfolding process_command follow_route
  handled-validated cmd x v r up e =
      ap (λ q. follow_route c b t cmd q x) r ∙ run_handler-validated cmd x v up e

  -- On a rig that is up and whose panel is locked, a command that retunes it is refused, and all
  -- it changes is that the machine is brought to the state of the task.
  pub process_command-locked :
      (cmd : RigCommand) (x : Context S)
      → IsUp info x.state
      → lock_state_from x.state ≡ true
      → retunes (command_from_rig_command cmd) ≡ true
      → process_command c b t cmd x ≡ (refused (invalid_state "panel is locked"), only_synced x)
  unfolding once_validated
  process_command-locked cmd x up locked moves =
      handled-validated cmd x ValidationResult.locked (retunes-handled S cmd moves) up.0 (
        (can_execute-locked _ (desired_machine_state x.state)
            (desired_up-is_locked info x.state up ∙ locked)).1
          moves)

  -- On a rig that is up and transmits, `PowerOff` is refused, and all it changes is that the
  -- machine is brought to the state of the task.
  pub process_command-transmitting :
      (x : Context S)
      → IsUp info x.state
      → x.state.status.tx_en ≡ true
      → process_command c b t RigCommand.power_off x
        ≡ (refused (invalid_state "Cannot power off while transmitting"), only_synced x)
  unfolding once_validated command_from_rig_command route
  process_command-transmitting x up on = handled-validated RigCommand.power_off x _ refl up.0 (
      power_off-transmitting (desired_machine_state x.state)
        (desired_up-is_transmitting info x.state up on))
