-- ===== src/Ftx/Message/Nonstandard/RoundTrip.antt =====
-- About a nonstandard message as a whole.
use trx_rs.Common.{
  ℕ, ◌+◌, ◌*◌, ◌/◌, ◌%◌, ◌^◌, ◌<◌, ◌≤◌, Bool, true, false, ◌||◌, some, List, [], ◌∷◌, ltb, length,
  ◌≡◌, refl, arith,
}
use trx_rs.Ftx.Text.{nchar}
use trx_rs.Ftx.HashTable.{CallsignHashTable, hash12_bits, add, compute_callsign_hash}
use trx_rs.Ftx.HashTable.Hash.{compute_callsign_hash-lt}
use trx_rs.Ftx.Message.{ok, nonstd_call, get_type, get_i3, call}
use trx_rs.Ftx.Message.Callsign.{
  same_text, starts_with, cq, cq_space, save_callsign, lookup_callsign,
}
use trx_rs.Ftx.Message.Callsign.Long.{AreKnown, IsCall58, known-ne, unpack58-pack58}
use trx_rs.Ftx.Message.Grid.Sent.{
  Extra, nothing, roger, roger_73, best_regards, locator, report, roger_report, spell, kind,
}
use trx_rs.Ftx.Message.Nonstandard.{
  NonstdFields, nonstd_payload, report_code, report_text, ftx_message_encode_nonstd,
  ftx_message_decode_nonstd,
}
use trx_rs.Ftx.Message.Nonstandard.Layout.{IsNarrow, nonstd_fields-nonstd_payload}

-- the third fields that such a message can carry
abbrev pub is_short : Extra → Bool
is_short (locator a b c d) = false
is_short (report dd) = false
is_short (roger_report dd) = false
is_short e = true

report_text-report_code :
    (e : Extra) → is_short e ≡ true → report_text (report_code (spell e)) ≡ (spell e, kind e)
unfolding report_text report_code spell kind
report_text-report_code nothing h = refl
report_text-report_code roger h = refl
report_text-report_code roger_73 h = refl
report_text-report_code best_regards h = refl
report_text-report_code (locator a b c d) h = absurd (ground (arith, h))
report_text-report_code (report dd) h = absurd (ground (arith, h))
report_text-report_code (roger_report dd) h = absurd (ground (arith, h))

report_code-lt : (s : List ℕ) → report_code s < 4
unfolding report_code
report_code-lt s = ground arith

fields_of : ℕ → ℕ → Extra → NonstdFields
fields_of t n e = record {
  n12 = t / 2 ^ 10;
  n58 = n;
  iflip = 0;
  nrpt = report_code (spell e);
  icq = 0;
}

narrow : (t n : ℕ) (e : Extra) → t < 2 ^ 22 → n < 2 ^ 58 → IsNarrow (fields_of t n e)
unfolding fields_of
narrow t n e ht hn = record {
  hash = omega arith;
  text = hn;
  flip = omega arith;
  code = report_code-lt (spell e);
  cq_bit = omega arith;
}

get_type-nonstd :
    (f : NonstdFields) → f.icq < 2 → f.nrpt < 4 → get_type (nonstd_payload f) ≡ nonstd_call
unfolding get_type get_i3 nonstd_payload
get_type-nonstd f h l =
    let i3 : (f.nrpt * 2 ^ 7 % 2 ^ 8 + f.icq * 2 ^ 6 + 4 * 2 ^ 3) / 2 ^ 3 % 2 ^ 3 ≡ 4 =
      omega arith in
    rw i3 refl

starts_bracket : (s : List ℕ) → AreKnown s → starts_with s (b'<' ∷ []) ≡ false
unfolding nchar
starts_bracket [] v = refl
starts_bracket (c ∷ s) v = rw (known-ne c b'<' v.0 refl) refl

-- A message to a call that has a hash, from a call of three to eleven characters without a space,
-- with an empty third field or a sign-off, encodes without an error to a payload of the
-- nonstandard type; decoding with any table gives the second call and the third field as they
-- were, and the first call as the table knows its hash of 12 bits.
pub decode_nonstd-encode_nonstd :
    (ht : CallsignHashTable) (to from : List ℕ) (t : ℕ) (b : IsCall58 from) (e : Extra)
    → (same_text to cq || starts_with to cq_space) ≡ false
    → 3 ≤ length to
    → compute_callsign_hash to ≡ some t
    → is_short e ≡ true
    → (p : List ℕ) × ((ftx_message_encode_nonstd ht to from (spell e)
          ≡ (ok, (some p, add from b.hash (add to t ht))))
        × ((get_type p ≡ nonstd_call)
            × ((other : CallsignHashTable)
                → ftx_message_decode_nonstd other p ≡ (
                  record {
                    call_to =
                        some
                          (lookup_callsign hash12_bits (t / 2 ^ 10) (add from b.hash other), call);
                    call_de = some (from, call);
                    extra = some (spell e, kind e);
                    rc = ok;
                  },
                  add from b.hash other,
                ))))
unfolding ftx_message_encode_nonstd ftx_message_decode_nonstd save_callsign fields_of
decode_nonstd-encode_nonstd ht to from t b e no_cq l h short =
    let coded = unpack58-pack58 from b in
    let n = coded.0 in
    let f = fields_of t n e in
    let v = narrow t n e (compute_callsign_hash-lt to h) coded.1.0 in
    let saved : save_callsign to ht ≡ some ((t, (t / 2 ^ 10, t / 2 ^ 12)), add to t ht) =
      rw (h, save_callsign) refl in
    let long_to : ltb (length to) 3 ≡ false = ground arith in
    let long_from : ltb (length from) 3 ≡ false = ground (arith, b.long) in
    let fields = nonstd_fields-nonstd_payload f v in
    (
      nonstd_payload f,
      (
        rw
            (
              no_cq,
              long_to,
              long_from,
              starts_bracket from b.known,
              saved,
              coded.1.1.0 (add to t ht),
            )
            refl,
        (
          get_type-nonstd f v.cq_bit v.code,
          λ other. rw (fields, coded.1.1.1 other, report_text-report_code e short) refl,
        ),
      ),
    )
