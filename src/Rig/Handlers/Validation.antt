-- ===== src/Rig/Handlers/Validation.antt =====
-- Which commands are validated in which states (handlers.rs, `can_execute`).
use trx_rs.Common.{◌<◌, Bool, true, false, ◌≡◌, ◌↔◌, arith}
use trx_rs.Rig.Types.{Freq}
use trx_rs.Rig.Machine.{RigMachineState, is_initialized, is_locked, is_transmitting}
use trx_rs.Rig.Handlers.{
  ValidationResult, Handler, set_freq, set_mode, power_on, power_off, toggle_vfo, unlock,
  get_snapshot, can_execute,
}

-- the commands that change what the rig is tuned to
unfoldable pub retunes : Handler → Bool
retunes (set_freq _) = true
retunes (set_mode _) = true
retunes toggle_vfo = true
retunes _ = false

-- With the panel locked, exactly the commands that retune the rig are refused as locked.
pub can_execute-locked :
    (h : Handler) (s : RigMachineState)
    → is_locked s ≡ true
    → (can_execute h s ≡ ValidationResult.locked) ↔ (retunes h ≡ true)
unfolding can_execute retunes
can_execute-locked h s p = (λ e. ground arith, λ e. ground arith)

-- the commands that need no initialized rig
unfoldable pub is_bootstrap : Handler → Bool
is_bootstrap power_on = true
is_bootstrap power_off = true
is_bootstrap unlock = true
is_bootstrap get_snapshot = true
is_bootstrap _ = false

-- On a rig that is not initialized exactly `PowerOn`, `PowerOff`, `Unlock` and `GetSnapshot`
-- pass.
pub can_execute-not_initialized :
    (h : Handler) (s : RigMachineState)
    → is_initialized s ≡ false
    → (can_execute h s ≡ ValidationResult.ok) ↔ (is_bootstrap h ≡ true)
unfolding can_execute is_bootstrap
can_execute-not_initialized h s p = (λ e. ground arith, λ e. ground arith)

-- `PowerOff` passes exactly when the rig is not transmitting.
pub can_execute-power_off :
    (s : RigMachineState)
    → (can_execute power_off s ≡ ValidationResult.ok) ↔ (is_transmitting s ≡ false)
unfolding can_execute
can_execute-power_off s = (λ e. ground arith, λ e. ground arith)

-- A frequency command that passes is for an initialized, unlocked rig and a frequency above 0 Hz.
pub can_execute-set_freq :
    (f : Freq) (s : RigMachineState)
    → (can_execute (set_freq f) s ≡ ValidationResult.ok)
      ↔ ((is_initialized s ≡ true) × (is_locked s ≡ false) × (0 < f.hz))
unfolding can_execute
can_execute-set_freq f s = (λ e. ground arith, λ e. ground arith)
