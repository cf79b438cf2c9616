-- ===== src/Protocol/Mode/RoundTrip.antt =====
-- About the name of a mode that was parsed.
use text.Mathlib.Text.{◌==◌}
use trx_rs.Common.{String, Bool, true, false, ◌||◌, if◌then◌else◌, ◌≡◌, refl, sym, ap, ◌∙◌}
use trx_rs.Rig.Types.{RigMode, lsb, usb, cw, cwr, am, sam, wfm, fm, ais, vdes, dig, pkt, other}
use trx_rs.Protocol.Mode.{mode_of, parse_mode, mode_to_string}

-- what `to_uppercase` does to its own results and to the names in capitals
pub record IsUppercase (up : String → String) : Type 0 where
  pub idempotent : (s : String) → up (up s) ≡ up s
  pub on_lsb : up "LSB" ≡ "LSB"
  pub on_usb : up "USB" ≡ "USB"
  pub on_cw : up "CW" ≡ "CW"
  pub on_cwr : up "CWR" ≡ "CWR"
  pub on_am : up "AM" ≡ "AM"
  pub on_sam : up "SAM" ≡ "SAM"
  pub on_fm : up "FM" ≡ "FM"
  pub on_wfm : up "WFM" ≡ "WFM"
  pub on_ais : up "AIS" ≡ "AIS"
  pub on_vdes : up "VDES" ≡ "VDES"
  pub on_dig : up "DIG" ≡ "DIG"
  pub on_pkt : up "PKT" ≡ "PKT"

-- the name of an unknown mode, and a given text for a known one
name_or : String → RigMode → String
name_or u (other s) = s
name_or u _ = u

chosen :
    (u : String) (b : Bool) (x y : RigMode)
    → name_or u x ≡ u
    → name_or u y ≡ u
    → name_or u (if b then x else y) ≡ u
chosen u true x y h k = h
chosen u false x y h k = k

name_or-mode_of : (u : String) → name_or u (mode_of u) ≡ u
unfolding mode_of name_or
name_or-mode_of u = chosen u (u == "LSB") _ _ refl (
    chosen u (u == "USB") _ _ refl (
      chosen u (u == "CW") _ _ refl (
        chosen u (u == "CWR") _ _ refl (
          chosen u (u == "AM") _ _ refl (
            chosen u (u == "SAM" || u == "AMC-QUAM" || u == "AMC_QUAM" || u == "AMC") _ _ refl (
              chosen u (u == "FM") _ _ refl (
                chosen u (u == "WFM") _ _ refl (
                  chosen u (u == "AIS") _ _ refl (
                    chosen u (u == "VDES") _ _ refl (
                      chosen u (u == "DIG" || u == "DIGI") _ _ refl
                        (chosen u (u == "PKT" || u == "PACKET") _ _ refl refl)))))))))))

stable :
    (up : String → String) (u : String) (m : RigMode)
    → IsUppercase up
    → up u ≡ u
    → mode_of u ≡ m
    → parse_mode up (mode_to_string m) ≡ m
unfolding parse_mode mode_to_string mode_of name_or
stable up u lsb v h e = rw v.on_lsb refl
stable up u usb v h e = rw v.on_usb refl
stable up u cw v h e = rw v.on_cw refl
stable up u cwr v h e = rw v.on_cwr refl
stable up u am v h e = rw v.on_am refl
stable up u sam v h e = rw v.on_sam refl
stable up u fm v h e = rw v.on_fm refl
stable up u wfm v h e = rw v.on_wfm refl
stable up u ais v h e = rw v.on_ais refl
stable up u vdes v h e = rw v.on_vdes refl
stable up u dig v h e = rw v.on_dig refl
stable up u pkt v h e = rw v.on_pkt refl
stable up u (other s) v h e =
    let same : u ≡ s = sym (name_or-mode_of u) ∙ ap (name_or u) e in
    ap (λ t. mode_of (up t)) (sym same) ∙ ap mode_of h ∙ e

-- The name of a mode that was parsed is parsed to the same mode.
pub parse_mode-mode_to_string :
    (up : String → String) (s : String)
    → IsUppercase up
    → parse_mode up (mode_to_string (parse_mode up s)) ≡ parse_mode up s
unfolding parse_mode
parse_mode-mode_to_string up s v = stable up (up s) (mode_of (up s)) v (v.idempotent s) refl
