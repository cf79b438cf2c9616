-- ===== src/Ftx/Message.antt =====
-- src/decoders/trx-ftx/src/common/message.rs: the 77 bits of an FT8/FT4 message. A message is ASCII
-- text, a list of codes; a payload is a list of ten bytes. Where `|` joins bit fields that are
-- disjoint it is written as a sum, a mask of low bits as a remainder, and a shift as a product or a
-- quotient.
pub mod Places
pub mod Callsign
pub mod Grid
pub mod FreeText
pub mod Standard
pub mod Nonstandard
pub mod Dispatch
use trx_rs.Common.{
  ℕ, zero, suc, ◌+◌, ◌-◌, ◌*◌, ◌/◌, ◌%◌, ◌^◌, Bool, true, false, not, ◌&&◌, ◌||◌, Option, none,
  some, List, [], ◌∷◌, ltb, leb, ◌==◌, get_or, if◌then◌else◌,
}

pub data FtxMessageType : Type 0 where
  free_text dxpedition eu_vhf arrl_fd telemetry contesting standard arrl_rtty nonstd_call wwrof
        unknown :
      FtxMessageType

pub data FtxMessageRc : Type 0 where
  ok error_callsign1 error_callsign2 error_suffix error_grid error_type : FtxMessageRc

pub data FtxFieldType : Type 0 where
  unknown no_field token token_with_arg call grid rst : FtxFieldType

abbrev pub byte_at : List ℕ → ℕ → ℕ
byte_at payload i = get_or payload i 0

unfoldable pub get_i3 : List ℕ → ℕ
get_i3 payload = byte_at payload 9 / 2 ^ 3 % 2 ^ 3

unfoldable pub get_n3 : List ℕ → ℕ
get_n3 payload = byte_at payload 8 % 2 * 2 ^ 2 + byte_at payload 9 / 2 ^ 6 % 2 ^ 2

type_of_n3 : ℕ → FtxMessageType
type_of_n3 n3 =
    if n3 == 0
    then free_text
    else if n3 == 1
    then dxpedition
    else if n3 == 2
    then eu_vhf
    else if n3 == 3 || n3 == 4
    then arrl_fd
    else if n3 == 5
    then telemetry
    else FtxMessageType.unknown

unfoldable pub get_type : List ℕ → FtxMessageType
unfolding type_of_n3
get_type payload =
    let i3 = get_i3 payload in
    if i3 == 0
    then type_of_n3 (get_n3 payload)
    else if i3 == 1 || i3 == 2
    then standard
    else if i3 == 3
    then arrl_rtty
    else if i3 == 4
    then nonstd_call
    else if i3 == 5
    then wwrof
    else FtxMessageType.unknown
