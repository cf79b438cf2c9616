-- ===== src/Examples/Hdlc.antt =====
-- The theorems on the link layer at concrete inputs.
use trx_rs.Common.{ℕ, true, List, [], ◌∷◌, ◌++◌, ◌≡◌, refl, arith, map}
use trx_rs.Hdlc.{Deframer, idle, receive, AisFrame, bits_to_frame, aprs_finish}
use trx_rs.Hdlc.Stuffing.{nrzi}
use trx_rs.Hdlc.Bytes.{AreBytes}
use trx_rs.Hdlc.RoundTrip.{
  ArePayloads, sent, ais_frame, aprs_frame, receive-sent_ais, receive-sent_aprs,
}

abbrev two_payloads : List (List ℕ)
two_payloads = (0x7E ∷ 0xFF ∷ 0x00 ∷ []) ∷ (0xF8 ∷ []) ∷ []

abbrev ui_frame : List ℕ
ui_frame =
    0x82 ∷ 0xA0 ∷ 0xA4 ∷ 0xA6 ∷ 0x40 ∷ 0x40 ∷ 0x60 ∷ 0x9C ∷ 0x60 ∷ 0x86 ∷ 0x82 ∷ 0x98 ∷ 0x98 ∷ 0x61
    ∷ 0x03 ∷ []

abbrev busy : Deframer AisFrame
busy = record { prev_bit = 1; ones = 3; in_frame = true; frame_bits = 1 ∷ 0 ∷ []; frames = [] }

two_payloads-ArePayloads : ArePayloads 1 two_payloads
two_payloads-ArePayloads = (
  ((omega arith, (omega arith, (omega arith, tt))), omega arith),
  (((omega arith, tt), omega arith), tt),
)

ui_frame-AreBytes : AreBytes ui_frame
ui_frame-AreBytes = (
  omega arith,
  (
    omega arith,
    (
      omega arith,
      (
        omega arith,
        (
          omega arith,
          (
            omega arith,
            (
              omega arith,
              (
                omega arith,
                (
                  omega arith,
                  (
                    omega arith,
                    (omega arith, (omega arith, (omega arith, (omega arith, (omega arith, tt))))),
                  ),
                ),
              ),
            ),
          ),
        ),
      ),
    ),
  ),
)

receive-sent_ais_example :
    (receive bits_to_frame idle (nrzi 0 (sent two_payloads))).frames
    ≡ [] ++ map ais_frame two_payloads
receive-sent_ais_example =
    receive-sent_ais idle two_payloads (omega arith, (refl, omega arith)) two_payloads-ArePayloads

receive-sent_aprs_example :
    (receive aprs_finish idle (nrzi 0 (sent (ui_frame ∷ [])))).frames
    ≡ [] ++ map aprs_frame (ui_frame ∷ [])
receive-sent_aprs_example =
    receive-sent_aprs idle (ui_frame ∷ []) (omega arith, (refl, omega arith))
      ((ui_frame-AreBytes, omega arith), tt)
