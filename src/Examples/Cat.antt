-- ===== src/Examples/Cat.antt =====
-- The theorems on CAT control at concrete inputs.
use trx_rs.Common.{some, ◌≡◌, refl, [], ◌∷◌}
use trx_rs.Rig.Types.{usb, cw}
use trx_rs.Cat.{ok, encode_freq_bcd, encode_mode, Ft817, new, toggle_vfo, get_status}
use trx_rs.Cat.Vfo.{active_entry, own_entry, active_entry-get_status}

-- 14.074 MHz as the rig's manual has it
frame_bytes : encode_freq_bcd 14074000 ≡ ok (0x01 ∷ 0x40 ∷ 0x74 ∷ 0x00 ∷ [])
unfolding encode_freq_bcd
frame_bytes = refl

-- one reading, then the other VFO
abbrev toggled : Ft817
toggled = toggle_vfo (get_status 7074000 cw new).1

active_entry-get_status_example :
    active_entry (get_status 14074000 usb toggled).0
    ≡ own_entry (get_status 14074000 usb toggled).1.vfo_side 14074000 usb
active_entry-get_status_example = active_entry-get_status 14074000 usb toggled

usb_code : encode_mode usb ≡ some 0x01
unfolding encode_mode
usb_code = refl
