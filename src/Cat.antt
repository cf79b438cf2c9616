-- ===== src/Cat.antt =====
-- CAT control of the Yaesu rigs: src/trx-core/src/math/bcd.rs, and the modes and the VFO
-- bookkeeping of src/trx-server/trx-backend/trx-backend-ft817/src/lib.rs. What the serial port
-- answers is an argument; the frames that are written to it are values.
pub mod Bcd
pub mod Vfo
use Prim.Native.String as Str
use Prim.Native.String.{slice}
use trx_rs.Common.{
  ℕ, zero, suc, ◌+◌, ◌-◌, ◌*◌, ◌/◌, ◌%◌, ◌^◌, Bool, true, false, not, ◌&&◌, ◌||◌, Option, none,
  some, String, List, [], ◌∷◌, ◌++◌, ◌==◌, ltb, leb, if◌then◌else◌,
}
use trx_rs.Rig.Types.{RigMode, lsb, usb, cw, cwr, am, wfm, fm, dig, pkt, Freq, RigVfoEntry, RigVfo}

pub data CatResult {ℓ} (A : Type ℓ) : Type ℓ where
  err : String → CatResult A
  ok : A → CatResult A

-- `digits`, filled from the last place
digits_of : ℕ → ℕ → List ℕ → List ℕ
digits_of zero n digits = digits
digits_of (suc k) n digits = digits_of k (n / 10) (n % 10 ∷ digits)

-- two digits in a byte
pack : List ℕ → List ℕ
pack [] = []
pack (h ∷ []) = []
pack (h ∷ l ∷ digits) = (h * 2 ^ 4 + l) ∷ pack digits

unfoldable pub encode_freq_bcd : ℕ → CatResult (List ℕ)
unfolding digits_of pack
encode_freq_bcd freq_hz =
    if not (freq_hz % 10 == 0)
    then err "frequency must be a multiple of 10 Hz for CAT encoding"
    else if ltb 99999999 (freq_hz / 10)
    then err "frequency out of range for CAT BCD encoding"
    else ok (pack (digits_of 8 (freq_hz / 10) []))

decode_loop : ℕ → List ℕ → CatResult ℕ
decode_loop value [] = ok (value * 10)
decode_loop value (b ∷ bytes) =
    let high = b / 2 ^ 4 % 2 ^ 4 in
    let low = b % 2 ^ 4 in
    let rest = decode_loop ((value * 10 + high) * 10 + low) bytes in
    if leb 10 high || leb 10 low then err "invalid BCD digit in frequency" else rest

unfoldable pub decode_freq_bcd : List ℕ → CatResult ℕ
unfolding decode_loop
decode_freq_bcd bytes = decode_loop 0 bytes

pub data Ft817VfoSide : Type 0 where
  a b unknown : Ft817VfoSide

unfoldable pub other_side : Ft817VfoSide → Ft817VfoSide
other_side a = b
other_side b = a
other_side unknown = a

-- the fields of `Ft817` that it keeps of the VFOs
pub record Ft817 : Type 0 where
  pub vfo_side : Ft817VfoSide
  pub vfo_a_freq : Option Freq
  pub vfo_b_freq : Option Freq
  pub vfo_a_mode : Option RigMode
  pub vfo_b_mode : Option RigMode

abbrev pub new : Ft817
new = record {
  vfo_side = unknown;
  vfo_a_freq = none;
  vfo_b_freq = none;
  vfo_a_mode = none;
  vfo_b_mode = none;
}

-- which VFO an unknown side is taken for, by the frequency that is cached for B
infer_side : Freq → Ft817 → Option Freq → Ft817
infer_side freq s none = record s { vfo_side = a; vfo_a_freq = some freq }
infer_side freq s (some cached_b) =
    if cached_b.hz == freq.hz && elim s.vfo_a_freq [ none ↦ true | some f ↦ false ]
    then record s { vfo_side = a; vfo_a_freq = some freq }
    else if not (cached_b.hz == freq.hz)
    then record s { vfo_side = a; vfo_a_freq = some freq }
    else record s { vfo_b_freq = some freq }

freq_at : Ft817VfoSide → Freq → Ft817 → Ft817
freq_at a freq s = record s { vfo_a_freq = some freq }
freq_at b freq s = record s { vfo_b_freq = some freq }
freq_at unknown freq s = infer_side freq s s.vfo_b_freq

unfoldable pub update_vfo_freq : Freq → Ft817 → Ft817
unfolding freq_at infer_side
update_vfo_freq freq s = freq_at s.vfo_side freq s

mode_at : Ft817VfoSide → RigMode → Ft817 → Ft817
mode_at a mode s = record s { vfo_a_mode = some mode }
mode_at b mode s = record s { vfo_b_mode = some mode }
mode_at unknown mode s = record s { vfo_a_mode = some mode }

unfoldable pub update_vfo_mode : RigMode → Ft817 → Ft817
unfolding mode_at
update_vfo_mode mode s = mode_at s.vfo_side mode s

entry_of : String → Option Freq → Option RigMode → List RigVfoEntry → List RigVfoEntry
entry_of name none mode entries = entries
entry_of name (some freq) mode entries = record { name = name; freq = freq; mode = mode } ∷ entries

unfoldable pub entries_of : Ft817 → List RigVfoEntry
unfolding entry_of
entries_of s = entry_of "A" s.vfo_a_freq s.vfo_a_mode (entry_of "B" s.vfo_b_freq s.vfo_b_mode [])

active_at : Ft817VfoSide → Option Freq → Option Freq → Option ℕ
active_at a (some fa) fb = some 0
active_at b (some fa) fb = some 1
active_at b none (some fb) = some 0
active_at a none fb = none
active_at b none none = none
active_at unknown fa fb = none

unfoldable pub active_of : Ft817 → Option ℕ
unfolding active_at
active_of s = active_at s.vfo_side s.vfo_a_freq s.vfo_b_freq

vfo_of : List RigVfoEntry → Option ℕ → Option RigVfo
vfo_of [] active = none
vfo_of (e ∷ entries) active = some (record { entries = e ∷ entries; active = active })

-- `get_status` behind the reading of a frequency and a mode; an error of `read_status` changes
-- nothing
unfoldable pub get_status : ℕ → RigMode → Ft817 → Option RigVfo × Ft817
unfolding vfo_of
get_status hz mode s =
    let s' = update_vfo_mode mode (update_vfo_freq (record { hz = hz }) s) in
    (vfo_of (entries_of s') (active_of s'), s')

-- `set_freq`: the frame, and the state once the port has taken it
frame_of : Freq → Ft817 → CatResult (List ℕ) → CatResult (List ℕ × Ft817)
frame_of freq s (err e) = err e
frame_of freq s (ok bcd) = ok (bcd ++ 0x01 ∷ [], update_vfo_freq freq s)

unfoldable pub set_freq : Freq → Ft817 → CatResult (List ℕ × Ft817)
unfolding frame_of
set_freq freq s = frame_of freq s (encode_freq_bcd freq.hz)

-- behind a frame that was written
unfoldable pub toggle_vfo : Ft817 → Ft817
toggle_vfo s = record s { vfo_side = other_side s.vfo_side }

unfoldable pub encode_mode : RigMode → Option ℕ
encode_mode lsb = some 0x00
encode_mode usb = some 0x01
encode_mode cw = some 0x02
encode_mode cwr = some 0x03
encode_mode am = some 0x04
encode_mode wfm = some 0x06
encode_mode fm = some 0x08
encode_mode dig = some 0x0A
encode_mode pkt = some 0x0C
encode_mode RigMode.ais = none
encode_mode RigMode.vdes = none
encode_mode RigMode.sam = none
encode_mode (RigMode.other s) = none

hex_digit : ℕ → String
hex_digit n = slice "0123456789ABCDEF" n (n + 1)

mode_codes : List (ℕ × RigMode)
mode_codes =
    (0x00, lsb)
    ∷ (0x01, usb)
    ∷ (0x02, cw)
    ∷ (0x03, cwr)
    ∷ (0x04, am)
    ∷ (0x06, wfm)
    ∷ (0x08, fm)
    ∷ (0x0A, dig)
    ∷ (0x0C, pkt)
    ∷ []

find_code : ℕ → List (ℕ × RigMode) → RigMode
find_code code [] =
    RigMode.other (Str.◌++◌ "0x" (Str.◌++◌ (hex_digit (code / 16)) (hex_digit (code % 16))))
find_code code ((c, mode) ∷ codes) = if code == c then mode else find_code code codes

unfoldable pub decode_mode : ℕ → RigMode
unfolding find_code mode_codes hex_digit
decode_mode code = find_code code mode_codes
