-- ===== src/Ftx/Message/Standard.antt =====
-- Standard messages (message.rs, `ftx_message_encode_std` and `ftx_message_decode_std`): two calls
-- of 28 bits and their suffix bits, the third field, and the type.
pub mod Layout
pub mod Calls
pub mod RoundTrip
use trx_rs.Common.{
  ℕ, zero, suc, ◌+◌, ◌-◌, ◌*◌, ◌/◌, ◌%◌, ◌^◌, Bool, true, false, not, ◌&&◌, ◌||◌, Option, none,
  some, List, [], ◌∷◌, ltb, leb, ◌==◌, if◌then◌else◌,
}
use trx_rs.Ftx.HashTable.{CallsignHashTable}
use trx_rs.Ftx.Message.{
  FtxMessageRc, ok, error_callsign1, error_callsign2, error_suffix, error_grid, FtxFieldType,
  byte_at,
}
use trx_rs.Ftx.Message.Callsign.{
  same_text, starts_with, ends_with, cq, cq_space, slash_p, slash_r, pack28, unpack28,
}
use trx_rs.Ftx.Message.Grid.{packgrid, unpackgrid}

-- the ten bytes
unfoldable pub std_payload : ℕ → ℕ → ℕ → ℕ → List ℕ
std_payload n29a n29b igrid4 i3 =
    n29a / 2 ^ 21 % 2 ^ 8
    ∷ n29a / 2 ^ 13 % 2 ^ 8
    ∷ n29a / 2 ^ 5 % 2 ^ 8
    ∷ (n29a * 2 ^ 3 % 2 ^ 8 + n29b / 2 ^ 26 % 2 ^ 8)
    ∷ n29b / 2 ^ 18 % 2 ^ 8
    ∷ n29b / 2 ^ 10 % 2 ^ 8
    ∷ n29b / 2 ^ 2 % 2 ^ 8
    ∷ (n29b * 2 ^ 6 % 2 ^ 8 + igrid4 / 2 ^ 10 % 2 ^ 8)
    ∷ igrid4 / 2 ^ 2 % 2 ^ 8
    ∷ (igrid4 * 2 ^ 6 % 2 ^ 8 + i3 * 2 ^ 3)
    ∷ []

-- the fields in the ten bytes
pub record StdFields : Type 0 where
  pub n29a : ℕ
  pub n29b : ℕ
  pub ir : ℕ
  pub igrid4 : ℕ
  pub i3 : ℕ

unfoldable pub std_fields : List ℕ → StdFields
std_fields p = record {
  n29a = byte_at p 0 * 2 ^ 21 + byte_at p 1 * 2 ^ 13 + byte_at p 2 * 2 ^ 5 + byte_at p 3 / 2 ^ 3;
  n29b =
      byte_at p 3 % 2 ^ 3 * 2 ^ 26
      + byte_at p 4 * 2 ^ 18
      + byte_at p 5 * 2 ^ 10
      + byte_at p 6 * 2 ^ 2
      + byte_at p 7 / 2 ^ 6;
  ir = byte_at p 7 / 2 ^ 5 % 2;
  igrid4 = byte_at p 7 % 2 ^ 5 * 2 ^ 10 + byte_at p 8 * 2 ^ 2 + byte_at p 9 / 2 ^ 6;
  i3 = byte_at p 9 / 2 ^ 3 % 2 ^ 3;
}

-- the result code, the payload that was written if any, and the table
abbrev pub Encoded : Type 0
Encoded = FtxMessageRc × (Option (List ℕ) × CallsignHashTable)

-- whether a `/` stands at the third character or later
slash_later : ℕ → List ℕ → Bool
slash_later i [] = false
slash_later i (c ∷ cs) = let rest = slash_later (i + 1) cs in if c == b'/' then leb 2 i else rest

is_suffixed : List ℕ → Bool
is_suffixed s = ends_with s slash_p || ends_with s slash_r

-- `n29a |= 1` for a suffix of the first call, and the type
marked : List ℕ → ℕ → ℕ
marked call_to n29a = if is_suffixed call_to then n29a / 2 * 2 + 1 else n29a

encode_fields : List ℕ → List ℕ → List ℕ → ℕ × ℕ → ℕ × ℕ → CallsignHashTable → Encoded
unfolding slash_later is_suffixed marked
encode_fields call_to call_de extra a b ht =
    let any_p = ends_with call_to slash_p || ends_with call_de slash_p in
    let any_r = ends_with call_to slash_r || ends_with call_de slash_r in
    let icq = same_text call_to cq || starts_with call_to cq_space in
    let payload =
      std_payload (marked call_to (a.0 * 2 + a.1)) (b.0 * 2 + b.1) (packgrid extra)
        (if any_p then 2 else 1) in
    if any_p && any_r
    then (error_suffix, (none, ht))
    else if slash_later 0 call_de && icq && not (is_suffixed call_de)
    then (error_callsign2, (none, ht))
    else (ok, (some payload, ht))

encode_second :
    List ℕ
    → List ℕ
    → List ℕ
    → ℕ × ℕ
    → CallsignHashTable
    → Option ((ℕ × ℕ) × CallsignHashTable)
    → Encoded
encode_second call_to call_de extra a ht none = (error_callsign2, (none, ht))
encode_second call_to call_de extra a ht (some b) = encode_fields call_to call_de extra a b.0 b.1

encode_first :
    List ℕ → List ℕ → List ℕ → CallsignHashTable → Option ((ℕ × ℕ) × CallsignHashTable) → Encoded
encode_first call_to call_de extra ht none = (error_callsign1, (none, ht))
encode_first call_to call_de extra ht (some a) =
    encode_second call_to call_de extra a.0 a.1 (pack28 call_de a.1)

unfoldable pub ftx_message_encode_std : CallsignHashTable → List ℕ → List ℕ → List ℕ → Encoded
unfolding encode_first encode_second encode_fields
ftx_message_encode_std ht call_to call_de extra =
    encode_first call_to call_de extra ht (pack28 call_to ht)

-- the three fields, each with its type, and the result code
pub record Decoded : Type 0 where
  pub call_to : Option (List ℕ × FtxFieldType)
  pub call_de : Option (List ℕ × FtxFieldType)
  pub extra : Option (List ℕ × FtxFieldType)
  pub rc : FtxMessageRc

decode_third :
    List ℕ × FtxFieldType
    → List ℕ × FtxFieldType
    → CallsignHashTable
    → Option (List ℕ × FtxFieldType)
    → Decoded × CallsignHashTable
decode_third to from ht none =
    (record { call_to = some to; call_de = some from; extra = none; rc = error_grid }, ht)
decode_third to from ht (some e) =
    (record { call_to = some to; call_de = some from; extra = some e; rc = ok }, ht)

decode_second :
    StdFields
    → List ℕ × FtxFieldType
    → CallsignHashTable
    → Option ((List ℕ × FtxFieldType) × CallsignHashTable)
    → Decoded × CallsignHashTable
decode_second f to ht none =
    (record { call_to = some to; call_de = none; extra = none; rc = error_callsign2 }, ht)
decode_second f to ht (some from) = decode_third to from.0 from.1 (unpackgrid f.igrid4 f.ir)

decode_first :
    StdFields
    → CallsignHashTable
    → Option ((List ℕ × FtxFieldType) × CallsignHashTable)
    → Decoded × CallsignHashTable
decode_first f ht none =
    (record { call_to = none; call_de = none; extra = none; rc = error_callsign1 }, ht)
decode_first f ht (some to) =
    decode_second f to.0 to.1 (unpack28 (f.n29b / 2) (f.n29b % 2) f.i3 to.1)

unfoldable pub ftx_message_decode_std : CallsignHashTable → List ℕ → Decoded × CallsignHashTable
unfolding decode_first decode_second decode_third
ftx_message_decode_std ht payload =
    let f = std_fields payload in decode_first f ht (unpack28 (f.n29a / 2) (f.n29a % 2) f.i3 ht)
