-- ===== src/Examples/Message.antt =====
-- FT8 messages at concrete inputs.
use trx_rs.Common.{ℕ, none, some, List, [], ◌∷◌, ◌≡◌, ◌≢◌, sym, ◌∙◌, refl, arith, length, replicate}
use mathlib.Core.Option.{none-ne-some}
use trx_rs.Ftx.Text.{nchar, full, alphanum_space_slash}
use trx_rs.Ftx.HashTable.{CallsignHashTable, new, add, compute_callsign_hash, hash12_bits}
use trx_rs.Ftx.Message.{ok, error_callsign1, call, free_text, nonstd_call, get_type, token}
use trx_rs.Ftx.Message.Places.{trim, pack_places, fill}
use trx_rs.Ftx.Message.Callsign.{pack_basecall, basecall_chars, lookup_callsign}
use trx_rs.Ftx.Message.Callsign.Long.{IsCall58}
use trx_rs.Ftx.Message.Grid.Sent.{locator, roger_73, spell, kind}
use trx_rs.Ftx.Message.Grid.{rr73}
use trx_rs.Ftx.Message.Standard.Calls.{IsStandard}
use trx_rs.Ftx.Message.Standard.RoundTrip.{std_of}
use trx_rs.Ftx.Message.Nonstandard.{ftx_message_encode_nonstd, ftx_message_decode_nonstd}
use trx_rs.Ftx.Message.Nonstandard.RoundTrip.{decode_nonstd-encode_nonstd}
use trx_rs.Ftx.Message.Nonstandard.Brackets.{encode_nonstd-is_bracketed}
use trx_rs.Ftx.Message.FreeText.{
  encode_chars, zero_bytes, ftx_message_encode_free, ftx_message_decode_free,
}
use trx_rs.Ftx.Message.FreeText.Number.{number, AreBytes, number-encode_chars}
use trx_rs.Ftx.Message.FreeText.RoundTrip.{decode_free-encode_free}
use trx_rs.Ftx.Message.Dispatch.{ftx_message_encode, ftx_message_decode}
use trx_rs.Ftx.Message.Dispatch.RoundTrip.{message_of, decode-encode}

abbrev k1abc : List ℕ
k1abc = b'K' ∷ b'1' ∷ b'A' ∷ b'B' ∷ b'C' ∷ []

abbrev w9xyz : List ℕ
w9xyz = b'W' ∷ b'9' ∷ b'X' ∷ b'Y' ∷ b'Z' ∷ []

abbrev pj4 : List ℕ
pj4 = b'P' ∷ b'J' ∷ b'4' ∷ b'/' ∷ b'K' ∷ b'1' ∷ b'A' ∷ b'B' ∷ b'C' ∷ []

k1abc_call : IsStandard k1abc
unfolding pack_basecall compute_callsign_hash nchar basecall_chars pack_places fill
k1abc_call = record {
  plain = ((refl, (refl, (refl, (refl, (refl, tt))))), (refl, refl));
  no_p = refl;
  no_r = refl;
  bits = 3_957_069;
  packed = refl;
  hash = 2_920_267;
  hashed = refl;
}

w9xyz_hash : compute_callsign_hash w9xyz ≡ some 3_982_604
unfolding compute_callsign_hash nchar
w9xyz_hash = refl

w9xyz_call : IsStandard w9xyz
unfolding pack_basecall compute_callsign_hash nchar basecall_chars pack_places fill
w9xyz_call = record {
  plain = ((refl, (refl, (refl, (refl, (refl, tt))))), (refl, refl));
  no_p = refl;
  no_r = refl;
  bits = 6_493_904;
  packed = refl;
  hash = 3_982_604;
  hashed = w9xyz_hash;
}

abbrev empty : List ℕ
empty = replicate 10 0

-- "K1ABC W9XYZ FN42"
decode-encode_example :
    (ftx_message_encode empty new (message_of k1abc w9xyz (locator 5 13 4 2)) ≡ (
      ok,
      (
        std_of k1abc w9xyz k1abc_call w9xyz_call (locator 5 13 4 2),
        add w9xyz w9xyz_call.hash (add k1abc k1abc_call.hash new),
      ),
    ))
    × (((ftx_message_decode new (std_of k1abc w9xyz k1abc_call w9xyz_call (locator 5 13 4 2))).0.0
          ≡ message_of k1abc w9xyz (locator 5 13 4 2))
        × ((ftx_message_decode new
              (std_of k1abc w9xyz k1abc_call w9xyz_call (locator 5 13 4 2))).0.1.1
            ≡ ok))
unfolding spell
decode-encode_example =
    decode-encode empty new new k1abc w9xyz k1abc_call w9xyz_call (locator 5 13 4 2)
      (omega arith, (omega arith, (omega arith, (omega arith, refl))))

known :
    (c : ℕ) {j : ℕ} → nchar c alphanum_space_slash ≡ some j → nchar c alphanum_space_slash ≢ none
known c e n = none-ne-some _ (sym n ∙ e)

-- "PJ4/K1ABC"
pj4_call : IsCall58 pj4
unfolding compute_callsign_hash nchar
pj4_call = record {
  known = (
    known b'P' refl,
    (
      known b'J' refl,
      (
        known b'4' refl,
        (
          known b'/' refl,
          (
            known b'K' refl,
            (known b'1' refl, (known b'A' refl, (known b'B' refl, (known b'C' refl, tt)))),
          ),
        ),
      ),
    ),
  );
  no_spaces = (refl, (refl, (refl, (refl, (refl, (refl, (refl, (refl, (refl, tt)))))))));
  long = omega arith;
  short = omega arith;
  hash = 1_420_834;
  hashed = refl;
}

decode_nonstd-encode_nonstd_example :
    (p : List ℕ) × ((ftx_message_encode_nonstd new w9xyz pj4 rr73
        ≡ (ok, (some p, add pj4 pj4_call.hash (add w9xyz 3_982_604 new))))
      × ((get_type p ≡ nonstd_call)
          × ((other : CallsignHashTable)
              → ftx_message_decode_nonstd other p ≡ (
                record {
                  call_to =
                      some (lookup_callsign hash12_bits 3889 (add pj4 pj4_call.hash other), call);
                  call_de = some (pj4, call);
                  extra = some (rr73, token);
                  rc = ok;
                },
                add pj4 pj4_call.hash other,
              ))))
unfolding spell kind
decode_nonstd-encode_nonstd_example =
    decode_nonstd-encode_nonstd new w9xyz pj4 3_982_604 pj4_call roger_73 refl (omega arith)
      w9xyz_hash refl

abbrev bracketed : List ℕ
bracketed = b'<' ∷ b'K' ∷ b'1' ∷ b'A' ∷ b'B' ∷ b'C' ∷ b'>' ∷ []

encode_nonstd-is_bracketed_example :
    ftx_message_encode_nonstd new pj4 bracketed rr73 ≡ (error_callsign1, (none, new))
encode_nonstd-is_bracketed_example =
    encode_nonstd-is_bracketed new pj4 bracketed rr73 refl (omega arith) (omega arith) refl

-- "TNX 73"
abbrev tnx : List ℕ
tnx = b'T' ∷ b'N' ∷ b'X' ∷ b' ' ∷ b'7' ∷ b'3' ∷ []

known_full : (c : ℕ) {j : ℕ} → nchar c full ≡ some j → nchar c full ≢ none
known_full c e n = none-ne-some _ (sym n ∙ e)

decode_free-encode_free_example :
    ((ftx_message_encode_free empty tnx).0 ≡ ok)
    × ((get_type (ftx_message_encode_free empty tnx).1 ≡ free_text)
        × (ftx_message_decode_free (ftx_message_encode_free empty tnx).1 ≡ trim tnx))
unfolding nchar
decode_free-encode_free_example = decode_free-encode_free empty tnx (omega arith) (
  known_full b'T' refl,
  (
    known_full b'N' refl,
    (
      known_full b'X' refl,
      (known_full b' ' refl, (known_full b'7' refl, (known_full b'3' refl, tt))),
    ),
  ),
)

abbrev go : List ℕ
go = b'G' ∷ b'O' ∷ []

number-encode_chars_example :
    (b71 : List ℕ) × ((encode_chars zero_bytes go ≡ some b71)
      × (AreBytes b71 × ((length b71 ≡ 9) × (number b71 ≡ 739))))
unfolding number pack_places nchar
number-encode_chars_example =
    number-encode_chars go zero_bytes 2 739 refl (ground arith) refl (omega arith)
