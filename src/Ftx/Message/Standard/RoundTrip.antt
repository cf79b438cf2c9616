-- ===== src/Ftx/Message/Standard/RoundTrip.antt =====
-- About a standard message as a whole.
use trx_rs.Common.{
  ℕ, ◌+◌, ◌*◌, ◌/◌, ◌%◌, ◌^◌, Bool, true, false, ◌&&◌, some, List, ◌≡◌, refl, arith,
}
use trx_rs.Ftx.HashTable.{CallsignHashTable, add}
use trx_rs.Ftx.Message.{ok, call, standard, get_type, get_i3}
use trx_rs.Ftx.Message.Callsign.{max22, ntokens}
use trx_rs.Ftx.Message.Grid.{packgrid}
use trx_rs.Ftx.Message.Grid.Sent.{Extra, spell, kind, IsSendable, unpackgrid-packgrid, packgrid-lt}
use trx_rs.Ftx.Message.Standard.{
  std_payload, slash_later, is_suffixed, marked, ftx_message_encode_std, ftx_message_decode_std,
}
use trx_rs.Ftx.Message.Standard.Layout.{std_fields-std_payload}
use trx_rs.Ftx.Message.Standard.Calls.{
  IsStandard, no_cq, no_tokens, bits-lt, pack28-IsStandard, unpack28-IsStandard,
}

-- the payload of two standard calls
abbrev pub std_of : (to from : List ℕ) → IsStandard to → IsStandard from → Extra → List ℕ
std_of to from a b e =
    std_payload ((ntokens + max22 + a.bits) * 2) ((ntokens + max22 + b.bits) * 2)
      (packgrid (spell e)) 1

never : (x : Bool) → (x && false && true) ≡ false
never true = refl
never false = refl

encode_std :
    (ht : CallsignHashTable) (to from : List ℕ) (a : IsStandard to) (b : IsStandard from)
    (e : Extra)
    → ftx_message_encode_std ht to from (spell e)
      ≡ (ok, (some (std_of to from a b e), add from b.hash (add to a.hash ht)))
unfolding ftx_message_encode_std marked is_suffixed
encode_std ht to from a b e =
    let n : (ntokens + max22 + a.bits) * 2 + 0 ≡ (ntokens + max22 + a.bits) * 2 = omega arith in
    let m : (ntokens + max22 + b.bits) * 2 + 0 ≡ (ntokens + max22 + b.bits) * 2 = omega arith in
    rw
      (
        pack28-IsStandard to ht a,
        pack28-IsStandard from (add to a.hash ht) b,
        a.no_p,
        a.no_r,
        b.no_p,
        b.no_r,
        (no_tokens to a).1.1,
        no_cq to a.plain.0,
        n,
        m,
        never (slash_later 0 from),
      )
      refl

-- Two standard calls and a third field that can be sent encode to a payload of the standard type,
-- and decode from it with any table.
pub decode_std-encode_std :
    (ht : CallsignHashTable) (to from : List ℕ) (a : IsStandard to) (b : IsStandard from)
    (e : Extra)
    → IsSendable e
    → (ftx_message_encode_std ht to from (spell e)
        ≡ (ok, (some (std_of to from a b e), add from b.hash (add to a.hash ht))))
      × ((get_type (std_of to from a b e) ≡ standard)
          × ((other : CallsignHashTable)
              → ftx_message_decode_std other (std_of to from a b e) ≡ (
                record {
                  call_to = some (to, call);
                  call_de = some (from, call);
                  extra = some (spell e, kind e);
                  rc = ok;
                },
                add from b.hash (add to a.hash other),
              )))
unfolding ftx_message_decode_std get_type get_i3 std_payload
decode_std-encode_std ht to from a b e v =
    let na = ntokens + max22 + a.bits in
    let nb = ntokens + max22 + b.bits in
    let fields =
      std_fields-std_payload (na * 2) (nb * 2) (packgrid (spell e)) 1 (omega (arith, bits-lt to a))
        (omega (arith, bits-lt from b)) (packgrid-lt e v) (omega arith) in
    let sa : na * 2 / 2 ≡ na = omega arith in
    let ra : na * 2 % 2 ≡ 0 = omega arith in
    let sb : nb * 2 / 2 ≡ nb = omega arith in
    let rb : nb * 2 % 2 ≡ 0 = omega arith in
    let i3 : (packgrid (spell e) * 2 ^ 6 % 2 ^ 8 + 1 * 2 ^ 3) / 2 ^ 3 % 2 ^ 3 ≡ 1 = omega arith in
    (
      encode_std ht to from a b e,
      (
        rw i3 refl,
        λ other.
            rw
              (
                fields,
                sa,
                ra,
                unpack28-IsStandard to other a 1,
                sb,
                rb,
                unpack28-IsStandard from (add to a.hash other) b 1,
                unpackgrid-packgrid e v,
              )
              refl,
      ),
    )
