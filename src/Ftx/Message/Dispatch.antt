-- ===== src/Ftx/Message/Dispatch.antt =====
-- Whole messages (message.rs, `ftx_message_encode`, `ftx_message_decode` and `copy_token`): the text
-- is split into at most three tokens, and the kinds of message are tried in turn.
pub mod RoundTrip
use trx_rs.Common.{
  ℕ, zero, suc, ◌+◌, Bool, true, false, not, ◌&&◌, ◌||◌, Option, none, some, List, [], ◌∷◌, ◌++◌,
  ltb, ◌==◌, drop, length, if◌then◌else◌,
}
use trx_rs.Ftx.Decimal.{ℤ, pos, negsuc}
use trx_rs.Ftx.HashTable.{CallsignHashTable}
use trx_rs.Ftx.Message.{
  FtxMessageType, free_text, telemetry, standard, nonstd_call, FtxMessageRc, ok, error_callsign1,
  error_callsign2, error_grid, error_type, FtxFieldType, get_type,
}
use trx_rs.Ftx.Message.Places.{is_space, trim_start}
use trx_rs.Ftx.Message.Callsign.{starts_with, cq, cq_space, parse_cq_modifier}
use trx_rs.Ftx.Message.FreeText.{
  ftx_message_encode_free, ftx_message_decode_free, ftx_message_decode_telemetry_hex,
}
use trx_rs.Ftx.Message.Standard.{Encoded, Decoded, ftx_message_encode_std, ftx_message_decode_std}
use trx_rs.Ftx.Message.Nonstandard.{ftx_message_encode_nonstd, ftx_message_decode_nonstd}

-- the text up to the first space, and from there
split_space : List ℕ → List ℕ × List ℕ
split_space [] = ([], [])
split_space (c ∷ cs) =
    let rest = split_space cs in if is_space c then ([], c ∷ cs) else (c ∷ rest.0, rest.1)

-- the token and the remainder
unfoldable pub copy_token : List ℕ → List ℕ × List ℕ
unfolding split_space
copy_token input = let parts = split_space (trim_start input) in (parts.0, trim_start parts.1)

pub record Tokens : Type 0 where
  pub call_to : List ℕ
  pub call_de : List ℕ
  pub extra : List ℕ
  pub parse_pos : List ℕ

-- the first token of a message that starts with `CQ `
cq_token : List ℕ → Option ℕ → List ℕ × List ℕ
cq_token parse_pos none = (cq, parse_pos)
cq_token parse_pos (some v) = let next = copy_token parse_pos in (cq_space ++ next.0, next.1)

unfoldable pub tokens : List ℕ → Tokens
unfolding cq_token
tokens text =
    let first =
      if starts_with text cq_space
      then cq_token (drop 3 text) (parse_cq_modifier text)
      else copy_token text in
    let second = copy_token first.1 in
    let third = copy_token second.1 in
    record { call_to = first.0; call_de = second.0; extra = third.0; parse_pos = third.1 }

-- the result code, the payload and the table
abbrev pub Sent : Type 0
Sent = FtxMessageRc × (List ℕ × CallsignHashTable)

encode_rest : List ℕ → List ℕ → CallsignHashTable → Sent
encode_rest payload text ht =
    let free = ftx_message_encode_free payload text in (free.0, (free.1, ht))

-- a payload that was encoded is the result, any failure goes on
or_else : Encoded → (CallsignHashTable → Sent) → Sent
or_else (ok, (some payload, ht)) f = (ok, (payload, ht))
or_else (rc, (p, ht)) f = f ht

unfoldable pub ftx_message_encode : List ℕ → CallsignHashTable → List ℕ → Sent
unfolding or_else encode_rest
ftx_message_encode payload ht text =
    let t = tokens text in
    let free = encode_rest payload text in
    if ltb 11 (length t.call_to)
    then (error_callsign1, (payload, ht))
    else if ltb 11 (length t.call_de)
    then (error_callsign2, (payload, ht))
    else if ltb 19 (length t.extra)
    then (error_grid, (payload, ht))
    else if ltb 0 (length t.parse_pos)
    then free ht
    else or_else (ftx_message_encode_std ht t.call_to t.call_de t.extra)
        λ h. or_else (ftx_message_encode_nonstd h t.call_to t.call_de t.extra) free

-- the fields by the type of the message
unfoldable pub decode_fields :
    CallsignHashTable → List ℕ → FtxMessageType → Decoded × CallsignHashTable
decode_fields ht payload standard = ftx_message_decode_std ht payload
decode_fields ht payload nonstd_call = ftx_message_decode_nonstd ht payload
decode_fields ht payload free_text = (
  record {
    call_to = some (ftx_message_decode_free payload, FtxFieldType.unknown);
    call_de = none;
    extra = none;
    rc = ok;
  },
  ht,
)
decode_fields ht payload telemetry = (
  record {
    call_to = some (ftx_message_decode_telemetry_hex payload, FtxFieldType.unknown);
    call_de = none;
    extra = none;
    rc = ok;
  },
  ht,
)
decode_fields ht payload _ =
    (record { call_to = none; call_de = none; extra = none; rc = error_type }, ht)

type_of : Option (List ℕ × FtxFieldType) → FtxFieldType
type_of none = FtxFieldType.unknown
type_of (some f) = f.1

pub record FtxMessageOffsets : Type 0 where
  pub types : List FtxFieldType
  pub offsets : List ℤ

-- the message and the three offsets, of which -1 stands for a field that is not there
assemble :
    Option (List ℕ × FtxFieldType)
    → Option (List ℕ × FtxFieldType)
    → Option (List ℕ × FtxFieldType)
    → List ℕ × List ℤ
assemble none f2 f3 = ([], negsuc 0 ∷ negsuc 0 ∷ negsuc 0 ∷ [])
assemble (some f1) none f3 = (f1.0, pos 0 ∷ negsuc 0 ∷ negsuc 0 ∷ [])
assemble (some f1) (some f2) none =
    (f1.0 ++ b' ' ∷ f2.0, pos 0 ∷ pos (length f1.0 + 1) ∷ negsuc 0 ∷ [])
assemble (some f1) (some f2) (some ([], k)) =
    (f1.0 ++ b' ' ∷ f2.0, pos 0 ∷ pos (length f1.0 + 1) ∷ negsuc 0 ∷ [])
assemble (some f1) (some f2) (some (c ∷ cs, k)) =
    let message = f1.0 ++ b' ' ∷ f2.0 in
    (message ++ b' ' ∷ c ∷ cs, pos 0 ∷ pos (length f1.0 + 1) ∷ pos (length message + 1) ∷ [])

unfoldable pub ftx_message_decode :
    CallsignHashTable → List ℕ → (List ℕ × (FtxMessageOffsets × FtxMessageRc)) × CallsignHashTable
unfolding type_of assemble
ftx_message_decode ht payload =
    let fields = decode_fields ht payload (get_type payload) in
    let d = fields.0 in
    let text = assemble d.call_to d.call_de d.extra in
    (
      (
        text.0,
        (
          record {
            types = type_of d.call_to ∷ type_of d.call_de ∷ type_of d.extra ∷ [];
            offsets = text.1;
          },
          d.rc,
        ),
      ),
      fields.1,
    )
