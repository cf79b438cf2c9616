-- ===== src/Rig/Modes.antt =====
-- `==` on modes, which src/trx-core/src/rig/state.rs derives.
use text.Mathlib.Text.{◌==◌}
use trx_rs.Common.{Bool, true, false}
use trx_rs.Rig.Types.{RigMode, lsb, usb, cw, cwr, am, sam, wfm, fm, ais, vdes, dig, pkt, other}

unfoldable pub mode_eq : RigMode → RigMode → Bool
mode_eq lsb lsb = true
mode_eq usb usb = true
mode_eq cw cw = true
mode_eq cwr cwr = true
mode_eq am am = true
mode_eq sam sam = true
mode_eq wfm wfm = true
mode_eq fm fm = true
mode_eq ais ais = true
mode_eq vdes vdes = true
mode_eq dig dig = true
mode_eq pkt pkt = true
mode_eq (other a) (other b) = a == b
mode_eq _ _ = false
