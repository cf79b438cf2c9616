-- ===== src/Protocol/Mode.antt =====
-- Mode names (src/trx-protocol/src/codec.rs). `to_uppercase` of the standard library is a parameter.
pub mod RoundTrip
use text.Mathlib.Text.{◌==◌}
use trx_rs.Common.{String, ◌||◌, if◌then◌else◌}
use trx_rs.Rig.Types.{RigMode, lsb, usb, cw, cwr, am, sam, wfm, fm, ais, vdes, dig, pkt, other}

unfoldable pub mode_of : String → RigMode
mode_of s =
    if s == "LSB"
    then lsb
    else if s == "USB"
    then usb
    else if s == "CW"
    then cw
    else if s == "CWR"
    then cwr
    else if s == "AM"
    then am
    else if s == "SAM" || s == "AMC-QUAM" || s == "AMC_QUAM" || s == "AMC"
    then sam
    else if s == "FM"
    then fm
    else if s == "WFM"
    then wfm
    else if s == "AIS"
    then ais
    else if s == "VDES"
    then vdes
    else if s == "DIG" || s == "DIGI"
    then dig
    else if s == "PKT" || s == "PACKET"
    then pkt
    else other s

unfoldable pub parse_mode : (String → String) → String → RigMode
parse_mode to_uppercase s = mode_of (to_uppercase s)

unfoldable pub mode_to_string : RigMode → String
mode_to_string lsb = "LSB"
mode_to_string usb = "USB"
mode_to_string cw = "CW"
mode_to_string cwr = "CWR"
mode_to_string am = "AM"
mode_to_string sam = "SAM"
mode_to_string fm = "FM"
mode_to_string wfm = "WFM"
mode_to_string ais = "AIS"
mode_to_string vdes = "VDES"
mode_to_string dig = "DIG"
mode_to_string pkt = "PKT"
mode_to_string (other s) = s
