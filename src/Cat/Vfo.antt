-- ===== src/Cat/Vfo.antt =====
-- About `get_status`, `toggle_vfo` and the mode codes of the FT-817.
use trx_rs.Common.{
  ℕ, Option, none, some, ◌==◌, ◌≡◌, refl, ap, sym, ◌∙◌, get_elem?, Bool-cases, inl, inr,
}
use trx_rs.Rig.Types.{RigMode, Freq, RigVfoEntry, RigVfo, lsb, usb, cw, cwr, am, wfm, fm, dig, pkt}
use trx_rs.Cat.{
  Ft817, Ft817VfoSide, a, b, unknown, update_vfo_freq, freq_at, infer_side, update_vfo_mode,
  mode_at, entry_of, entries_of, active_at, active_of, vfo_of, get_status, encode_mode, decode_mode,
  find_code, mode_codes,
}

-- what a status says about the active VFO: there is no list, no index, an index that is not in the
-- list, or the entry at the index
pub data Active : Type 0 where
  no_list no_index outside : Active
  shows : RigVfoEntry → Active

abbrev pub at_index : Option RigVfoEntry → Active
at_index none = outside
at_index (some e) = shows e

abbrev pub active_entry : Option RigVfo → Active
active_entry none = no_list
active_entry (some v) = elim v.active [
  | none ↦ no_index
  | some i ↦ at_index (get_elem? v.entries i)
]

-- the entry that belongs to a side, at the reading
pub own_entry : Ft817VfoSide → ℕ → RigMode → Active
own_entry a hz mode = shows (record { name = "A"; freq = record { hz = hz }; mode = some mode })
own_entry b hz mode = shows (record { name = "B"; freq = record { hz = hz }; mode = some mode })
own_entry unknown hz mode = no_index

shown :
    (hz : ℕ) (mode : RigMode) (side : Ft817VfoSide) (fa fb : Option Freq) (ma mb : Option RigMode)
    → let r = get_status hz mode (record {
      vfo_side = side;
      vfo_a_freq = fa;
      vfo_b_freq = fb;
      vfo_a_mode = ma;
      vfo_b_mode = mb;
    }) in
      active_entry r.0 ≡ own_entry r.1.vfo_side hz mode
unfolding get_status update_vfo_freq freq_at update_vfo_mode mode_at entries_of entry_of active_of
    active_at vfo_of own_entry infer_side
shown hz mode a fa none ma mb = refl
shown hz mode a fa (some fb) ma mb = refl
shown hz mode b none fb ma mb = refl
shown hz mode b (some fa) fb ma mb = refl
shown hz mode unknown fa none ma mb = refl
shown hz mode unknown none (some fb) ma mb = elim (Bool-cases (fb.hz == hz)) [
  | inl p ↦ rw p refl
  | inr p ↦ rw p refl
]
shown hz mode unknown (some fa) (some fb) ma mb = elim (Bool-cases (fb.hz == hz)) [
  | inl p ↦ rw p refl
  | inr p ↦ rw p refl
]

-- In every state of the driver, a status has a list of VFOs; where the driver is on a known side,
-- the index that the status reports lies in the list, and the entry there is the one of that side
-- with the frequency and the mode just read; where the side is still unknown the status reports
-- no index at all.
pub active_entry-get_status :
    (hz : ℕ) (mode : RigMode) (s : Ft817)
    → active_entry (get_status hz mode s).0 ≡ own_entry (get_status hz mode s).1.vfo_side hz mode
active_entry-get_status hz mode s =
    shown hz mode s.vfo_side s.vfo_a_freq s.vfo_b_freq s.vfo_a_mode s.vfo_b_mode

coded : (m : RigMode) → (elim (encode_mode m) [ none ↦ m | some code ↦ decode_mode code ]) ≡ m
unfolding encode_mode decode_mode find_code mode_codes
coded lsb = refl
coded usb = refl
coded cw = refl
coded cwr = refl
coded am = refl
coded wfm = refl
coded fm = refl
coded dig = refl
coded pkt = refl
coded RigMode.ais = refl
coded RigMode.vdes = refl
coded RigMode.sam = refl
coded (RigMode.other s) = refl

-- A mode that the rig supports is read back from its code.
pub decode_mode-encode_mode :
    (m : RigMode) (code : ℕ) → encode_mode m ≡ some code → decode_mode code ≡ m
decode_mode-encode_mode m code h =
    ap (λ o. elim o [ none ↦ m | some c ↦ decode_mode c ]) (sym h) ∙ coded m
