-- ===== src/Rig/Handlers.antt =====
-- src/trx-core/src/rig/controller/handlers.rs and executor.rs: each command is validated against
-- the state of the machine and then carried out by an executor. An async call is a function on the
-- state of the rig that returns a result and the state after it; `DynResult` is `Outcome`.
pub mod Validation
pub mod Execution
pub mod Keeps
use trx_rs.Common.{ℕ, String, Bool, true, false, not, List, [], ◌∷◌, ◌==◌, if◌then◌else◌}
use trx_rs.Rig.Types.{Freq, RigMode}
use trx_rs.Rig.Command.{RigCommand}
use trx_rs.Rig.Machine.{RigMachineState, is_initialized, is_locked, is_transmitting}

pub data ValidationResult : Type 0 where
  ok : ValidationResult
  invalid_state invalid_params : String → ValidationResult
  locked : ValidationResult

-- one constructor for each struct that implements `RigCommandHandler`
pub data Handler : Type 0 where
  set_freq : Freq → Handler
  set_mode : RigMode → Handler
  set_ptt : Bool → Handler
  set_tx_limit : ℕ → Handler
  power_on power_off toggle_vfo lock unlock get_tx_limit get_snapshot : Handler

unfoldable pub name : Handler → String
name (set_freq _) = "SetFreq"
name (set_mode _) = "SetMode"
name (set_ptt _) = "SetPtt"
name (set_tx_limit _) = "SetTxLimit"
name power_on = "PowerOn"
name power_off = "PowerOff"
name toggle_vfo = "ToggleVfo"
name lock = "Lock"
name unlock = "Unlock"
name get_tx_limit = "GetTxLimit"
name get_snapshot = "GetSnapshot"

-- the `@check` arms of `rig_command!`; `next` is what follows the early return
pub data Precondition : Type 0 where
  initialized unlocked not_transmitting : Precondition

check : Precondition → RigMachineState → ValidationResult → ValidationResult
check initialized s next =
    if not (is_initialized s) then invalid_state "Rig not initialized" else next
check unlocked s next = if is_locked s then ValidationResult.locked else next
check not_transmitting s next =
    if is_transmitting s then invalid_state "Cannot power off while transmitting" else next

check_all : List Precondition → RigMachineState → ValidationResult → ValidationResult
unfolding check
check_all [] s next = next
check_all (p ∷ ps) s next = check p s (check_all ps s next)

unfoldable pub can_execute : Handler → RigMachineState → ValidationResult
unfolding check_all is_initialized is_locked is_transmitting
can_execute (set_freq f) s =
    check_all (initialized ∷ unlocked ∷ []) s
      (if f.hz == 0 then invalid_params "Frequency cannot be 0 Hz" else ok)
can_execute (set_mode _) s = check_all (initialized ∷ unlocked ∷ []) s ok
can_execute (set_ptt _) s = check_all (initialized ∷ []) s ok
can_execute (set_tx_limit _) s = check_all (initialized ∷ []) s ok
can_execute power_on s = check_all [] s ok
can_execute power_off s = check_all (not_transmitting ∷ []) s ok
can_execute toggle_vfo s = check_all (initialized ∷ unlocked ∷ []) s ok
can_execute lock s = check_all (initialized ∷ []) s ok
can_execute unlock s = check_all [] s ok
can_execute get_tx_limit s = check_all (initialized ∷ []) s ok
can_execute get_snapshot s = check_all [] s ok

pub data CommandResult : Type 0 where
  done : CommandResult
  freq_updated : Freq → CommandResult
  mode_updated : RigMode → CommandResult
  ptt_updated power_updated lock_updated : Bool → CommandResult
  tx_limit_updated : ℕ → CommandResult
  refresh_required : CommandResult

-- `DynResult<T>`
pub data Outcome (A : Type 0) : Type 0 where
  done : A → Outcome A
  failed : String → Outcome A

abbrev pub Call : Type 0 → Type 0 → Type 0
Call S A = S → Outcome A × S

continue : {S A B : Type 0} → Outcome A → (A → Call S B) → Call S B
continue (Outcome.done a) f s = f a s
continue (failed e) f s = (failed e, s)

-- `.await?` and what follows it
infixl 5 ◌>>=◌ ◌>>◌
unfoldable pub ◌>>=◌ : {S A B : Type 0} → Call S A → (A → Call S B) → Call S B
unfolding continue
◌>>=◌ m f s = let (r, s') = m s in continue r f s'

abbrev pub ◌>>◌ : {S B : Type 0} → Call S (Unit {0}) → Call S B → Call S B
m >> k = m >>= λ _. k

unfoldable pub pure : {S A : Type 0} → A → Call S A
pure a s = (Outcome.done a, s)

-- The operations of `RigCat` that the executor calls, over the state `S` of a backend.
pub record RigCat (S : Type 0) : Type 0 where
  pub rig_set_freq : Freq → Call S (Unit {0})
  pub rig_set_mode : RigMode → Call S (Unit {0})
  pub rig_set_ptt : Bool → Call S (Unit {0})
  pub rig_power_on : Call S (Unit {0})
  pub rig_power_off : Call S (Unit {0})
  pub rig_toggle_vfo : Call S (Unit {0})
  pub rig_lock : Call S (Unit {0})
  pub rig_unlock : Call S (Unit {0})
  pub rig_get_tx_limit : Call S ℕ
  pub rig_set_tx_limit : ℕ → Call S (Unit {0})

pub record CommandExecutor (S : Type 0) : Type 0 where
  pub ex_set_freq : Freq → Call S (Unit {0})
  pub ex_set_mode : RigMode → Call S (Unit {0})
  pub ex_set_ptt : Bool → Call S (Unit {0})
  pub ex_power_on : Call S (Unit {0})
  pub ex_power_off : Call S (Unit {0})
  pub ex_toggle_vfo : Call S (Unit {0})
  pub ex_lock : Call S (Unit {0})
  pub ex_unlock : Call S (Unit {0})
  pub ex_get_tx_limit : Call S ℕ
  pub ex_set_tx_limit : ℕ → Call S (Unit {0})
  pub ex_refresh_state : Call S (Unit {0})

-- executor.rs, `RigCatExecutor`
unfoldable pub rig_cat_executor : {S : Type 0} → RigCat S → CommandExecutor S
unfolding pure
rig_cat_executor r = record {
  ex_set_freq = r.rig_set_freq;
  ex_set_mode = r.rig_set_mode;
  ex_set_ptt = r.rig_set_ptt;
  ex_power_on = r.rig_power_on;
  ex_power_off = r.rig_power_off;
  ex_toggle_vfo = r.rig_toggle_vfo;
  ex_lock = r.rig_lock;
  ex_unlock = r.rig_unlock;
  ex_get_tx_limit = r.rig_get_tx_limit;
  ex_set_tx_limit = r.rig_set_tx_limit;
  ex_refresh_state = pure tt;
}

unfoldable pub execute : {S : Type 0} → CommandExecutor S → Handler → Call S CommandResult
unfolding ◌>>=◌ pure
execute ex (set_freq f) = do ex.ex_set_freq f; pure (freq_updated f)
execute ex (set_mode m) = do ex.ex_set_mode m; pure (mode_updated m)
execute ex (set_ptt p) = do ex.ex_set_ptt p; pure (ptt_updated p)
execute ex (set_tx_limit l) = do ex.ex_set_tx_limit l; pure (tx_limit_updated l)
execute ex power_on = do ex.ex_power_on; pure (power_updated true)
execute ex power_off = do ex.ex_power_off; pure (power_updated false)
execute ex toggle_vfo = do ex.ex_toggle_vfo; pure refresh_required
execute ex lock = do ex.ex_lock; pure (lock_updated true)
execute ex unlock = do ex.ex_unlock; pure (lock_updated false)
execute ex get_tx_limit = do l ← ex.ex_get_tx_limit; pure (tx_limit_updated l)
execute ex get_snapshot = do ex.ex_refresh_state; pure refresh_required

-- `command_from_rig_command`: the commands for decoders and the receiver fall back to a snapshot
unfoldable pub command_from_rig_command : RigCommand → Handler
command_from_rig_command (RigCommand.set_freq f) = set_freq f
command_from_rig_command (RigCommand.set_mode m) = set_mode m
command_from_rig_command (RigCommand.set_ptt p) = set_ptt p
command_from_rig_command RigCommand.power_on = power_on
command_from_rig_command RigCommand.power_off = power_off
command_from_rig_command RigCommand.toggle_vfo = toggle_vfo
command_from_rig_command RigCommand.get_tx_limit = get_tx_limit
command_from_rig_command (RigCommand.set_tx_limit l) = set_tx_limit l
command_from_rig_command RigCommand.lock = lock
command_from_rig_command RigCommand.unlock = unlock
command_from_rig_command _ = get_snapshot
