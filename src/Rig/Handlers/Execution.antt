-- ===== src/Rig/Handlers/Execution.antt =====
-- What carrying out a command does to the rig (handlers.rs, executor.rs).
use trx_rs.Common.{ℕ, Bool, true, false, ◌≡◌, refl, arith}
use trx_rs.Rig.Machine.{RigMachineState}
use trx_rs.Rig.Command.{RigCommand}
use trx_rs.Rig.Handlers.{
  ValidationResult, Handler, set_freq, set_mode, set_ptt, set_tx_limit, power_on, power_off,
  toggle_vfo, lock, unlock, get_tx_limit, get_snapshot, can_execute, CommandResult, freq_updated,
  mode_updated, ptt_updated, power_updated, lock_updated, tx_limit_updated, refresh_required,
  Outcome, RigCat, rig_cat_executor, execute, command_from_rig_command,
}

-- the commands that are meant for the rig itself
unfoldable pub is_rig_command : RigCommand → Bool
is_rig_command (RigCommand.set_freq _) = true
is_rig_command (RigCommand.set_mode _) = true
is_rig_command (RigCommand.set_ptt _) = true
is_rig_command RigCommand.power_on = true
is_rig_command RigCommand.power_off = true
is_rig_command RigCommand.toggle_vfo = true
is_rig_command RigCommand.get_tx_limit = true
is_rig_command (RigCommand.set_tx_limit _) = true
is_rig_command RigCommand.lock = true
is_rig_command RigCommand.unlock = true
is_rig_command _ = false

-- A command for a decoder, for the receiver or for a snapshot passes in every state, leaves the
-- rig as it is, and only asks for a refresh.
pub execute-inert :
    {S : Type 0} (c : RigCommand) (rig : RigCat S) (st : S) (s : RigMachineState)
    → is_rig_command c ≡ false
    → (can_execute (command_from_rig_command c) s ≡ ValidationResult.ok)
      × (execute (rig_cat_executor rig) (command_from_rig_command c) st
          ≡ (Outcome.done refresh_required, st))
unfolding command_from_rig_command can_execute execute rig_cat_executor is_rig_command
execute-inert (RigCommand.set_freq f) rig st s h = cc
execute-inert c rig st s h = (ground arith, ground arith)

-- What a result reports of the command that was carried out.
abbrev pub Reports : Handler → CommandResult → Type 0
Reports (set_freq f) r = r ≡ freq_updated f
Reports (set_mode m) r = r ≡ mode_updated m
Reports (set_ptt p) r = r ≡ ptt_updated p
Reports (set_tx_limit l) r = r ≡ tx_limit_updated l
Reports power_on r = r ≡ power_updated true
Reports power_off r = r ≡ power_updated false
Reports toggle_vfo r = r ≡ refresh_required
Reports lock r = r ≡ lock_updated true
Reports unlock r = r ≡ lock_updated false
Reports get_tx_limit r = (l : ℕ) × (r ≡ tx_limit_updated l)
Reports get_snapshot r = r ≡ refresh_required

-- the state that the one call of the rig for a command leaves behind, and its error
abbrev pub rig_state_after : {S : Type 0} → RigCat S → Handler → S → S
rig_state_after rig (set_freq f) st = (rig.rig_set_freq f st).1
rig_state_after rig (set_mode m) st = (rig.rig_set_mode m st).1
rig_state_after rig (set_ptt p) st = (rig.rig_set_ptt p st).1
rig_state_after rig (set_tx_limit l) st = (rig.rig_set_tx_limit l st).1
rig_state_after rig power_on st = (rig.rig_power_on st).1
rig_state_after rig power_off st = (rig.rig_power_off st).1
rig_state_after rig toggle_vfo st = (rig.rig_toggle_vfo st).1
rig_state_after rig lock st = (rig.rig_lock st).1
rig_state_after rig unlock st = (rig.rig_unlock st).1
rig_state_after rig get_tx_limit st = (rig.rig_get_tx_limit st).1
rig_state_after rig get_snapshot st = st

-- Whether it succeeds or fails, a command makes just its own call of the rig.
pub execute-state :
    {S : Type 0} (rig : RigCat S) (h : Handler) (st : S)
    → (execute (rig_cat_executor rig) h st).1 ≡ rig_state_after rig h st
unfolding execute rig_cat_executor
execute-state rig get_snapshot st = refl
execute-state rig h st = ground arith

-- A command that succeeds reports what was asked for.
pub execute-Reports :
    {S : Type 0} (rig : RigCat S) (h : Handler) (st : S) {r : CommandResult}
    → (execute (rig_cat_executor rig) h st).0 ≡ Outcome.done r
    → Reports h r
unfolding execute rig_cat_executor
execute-Reports rig get_snapshot st e = cc
execute-Reports rig h st e = ground arith
