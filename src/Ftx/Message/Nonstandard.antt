-- ===== src/Ftx/Message/Nonstandard.antt =====
-- Messages with a call that does not fit into 28 bits (message.rs, `ftx_message_encode_nonstd` and
-- `ftx_message_decode_nonstd`): one call in 58 bits, the other as a hash of 12 bits.
pub mod Layout
pub mod Brackets
pub mod RoundTrip
use trx_rs.Common.{
  ℕ, zero, suc, ◌+◌, ◌*◌, ◌/◌, ◌%◌, ◌^◌, Bool, true, false, not, ◌&&◌, ◌||◌, Option, none, some,
  List, [], ◌∷◌, ltb, ◌==◌, length, if◌then◌else◌,
}
use trx_rs.Ftx.HashTable.{CallsignHashTable, hash12_bits}
use trx_rs.Ftx.Message.{
  ok, error_callsign1, error_callsign2, FtxFieldType, no_field, token, call, byte_at,
}
use trx_rs.Ftx.Message.Callsign.{
  same_text, starts_with, ends_with, cq, cq_space, save_callsign, lookup_callsign, unknown_call,
  pack58, unpack58,
}
use trx_rs.Ftx.Message.Grid.{rrr, rr73, seventy_three}
use trx_rs.Ftx.Message.Standard.{Encoded, Decoded}

pub record NonstdFields : Type 0 where
  pub n12 : ℕ
  pub n58 : ℕ
  pub iflip : ℕ
  pub nrpt : ℕ
  pub icq : ℕ

unfoldable pub nonstd_payload : NonstdFields → List ℕ
nonstd_payload f =
    f.n12 / 2 ^ 4 % 2 ^ 8
    ∷ (f.n12 * 2 ^ 4 % 2 ^ 8 + f.n58 / 2 ^ 54 % 2 ^ 8)
    ∷ f.n58 / 2 ^ 46 % 2 ^ 8
    ∷ f.n58 / 2 ^ 38 % 2 ^ 8
    ∷ f.n58 / 2 ^ 30 % 2 ^ 8
    ∷ f.n58 / 2 ^ 22 % 2 ^ 8
    ∷ f.n58 / 2 ^ 14 % 2 ^ 8
    ∷ f.n58 / 2 ^ 6 % 2 ^ 8
    ∷ (f.n58 * 2 ^ 2 % 2 ^ 8 + f.iflip * 2 + f.nrpt / 2)
    ∷ (f.nrpt * 2 ^ 7 % 2 ^ 8 + f.icq * 2 ^ 6 + 4 * 2 ^ 3)
    ∷ []

unfoldable pub nonstd_fields : List ℕ → NonstdFields
nonstd_fields p = record {
  n12 = byte_at p 0 * 2 ^ 4 + byte_at p 1 / 2 ^ 4;
  n58 =
      byte_at p 1 % 2 ^ 4 * 2 ^ 54
      + byte_at p 2 * 2 ^ 46
      + byte_at p 3 * 2 ^ 38
      + byte_at p 4 * 2 ^ 30
      + byte_at p 5 * 2 ^ 22
      + byte_at p 6 * 2 ^ 14
      + byte_at p 7 * 2 ^ 6
      + byte_at p 8 / 2 ^ 2;
  iflip = byte_at p 8 / 2 % 2;
  nrpt = byte_at p 8 % 2 * 2 + byte_at p 9 / 2 ^ 7;
  icq = byte_at p 9 / 2 ^ 6 % 2;
}

abbrev pub is_bracketed : List ℕ → Bool
is_bracketed s = starts_with s (b'<' ∷ []) && ends_with s (b'>' ∷ [])

unfoldable pub report_code : List ℕ → ℕ
report_code extra =
    if same_text extra rrr
    then 1
    else if same_text extra rr73
    then 2
    else if same_text extra seventy_three
    then 3
    else 0

encode_nonstd_call : ℕ → ℕ → ℕ → ℕ → CallsignHashTable → Option (ℕ × CallsignHashTable) → Encoded
encode_nonstd_call n12 iflip nrpt icq ht none = (error_callsign2, (none, ht))
encode_nonstd_call n12 iflip nrpt icq ht (some (n58, ht2)) =
    let f : NonstdFields = record { n12 = n12; n58 = n58; iflip = iflip; nrpt = nrpt; icq = icq } in
    (ok, (some (nonstd_payload f), ht2))

-- without `CQ`: the hash of one call, then the text of the other
encode_nonstd_hash :
    ℕ → List ℕ → List ℕ → CallsignHashTable → Option ((ℕ × (ℕ × ℕ)) × CallsignHashTable) → Encoded
unfolding encode_nonstd_call
encode_nonstd_hash iflip call58 extra ht none = (error_callsign1, (none, ht))
encode_nonstd_hash iflip call58 extra ht (some saved) =
    encode_nonstd_call saved.0.1.0 iflip (report_code extra) 0 saved.1 (pack58 saved.1 call58)

unfoldable pub ftx_message_encode_nonstd : CallsignHashTable → List ℕ → List ℕ → List ℕ → Encoded
unfolding encode_nonstd_call encode_nonstd_hash
ftx_message_encode_nonstd ht call_to call_de extra =
    let icq = same_text call_to cq || starts_with call_to cq_space in
    if not icq && ltb (length call_to) 3
    then (error_callsign1, (none, ht))
    else if ltb (length call_de) 3
    then (error_callsign2, (none, ht))
    else if icq
    then encode_nonstd_call 0 0 0 1 ht (pack58 ht call_de)
    else if is_bracketed call_de
    then encode_nonstd_hash 1 call_to extra ht (save_callsign call_de ht)
    else encode_nonstd_hash 0 call_de extra ht (save_callsign call_to ht)

report_text : ℕ → List ℕ × FtxFieldType
report_text nrpt =
    if nrpt == 1
    then (rrr, token)
    else if nrpt == 2
    then (rr73, token)
    else if nrpt == 3
    then (seventy_three, token)
    else ([], no_field)

-- the call of 58 bits, and the table
decoded58 : CallsignHashTable → Option (List ℕ × CallsignHashTable) → List ℕ × CallsignHashTable
decoded58 ht none = (unknown_call, ht)
decoded58 ht (some r) = r

unfoldable pub ftx_message_decode_nonstd : CallsignHashTable → List ℕ → Decoded × CallsignHashTable
unfolding report_text decoded58
ftx_message_decode_nonstd ht payload =
    let f = nonstd_fields payload in
    let decoded = decoded58 ht (unpack58 f.n58 ht) in
    let call_3 = lookup_callsign hash12_bits f.n12 decoded.1 in
    let call_1 = if f.iflip == 0 then call_3 else decoded.0 in
    let call_2 = if f.iflip == 0 then decoded.0 else call_3 in
    (
      record {
        call_to = some (if f.icq == 0 then (call_1, call) else (cq, token));
        call_de = some (call_2, call);
        extra = some (if f.icq == 0 then report_text f.nrpt else ([], no_field));
        rc = ok;
      },
      decoded.1,
    )
