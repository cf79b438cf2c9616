-- ===== src/Ftx/Message/Nonstandard/Brackets.antt =====
-- About the second call of a nonstandard message in angle brackets.
use trx_rs.Common.{
  ℕ, ◌≤◌, true, false, ◌||◌, none, List, [], ◌∷◌, ltb, length, ◌≡◌, refl, ap, ◌∙◌, arith,
}
use trx_rs.Ftx.Text.{nchar}
use trx_rs.Ftx.HashTable.{CallsignHashTable, compute_callsign_hash}
use trx_rs.Ftx.Message.{error_callsign1}
use trx_rs.Ftx.Message.Callsign.{same_text, starts_with, cq, cq_space, save_callsign}
use trx_rs.Ftx.Message.Nonstandard.{is_bracketed, ftx_message_encode_nonstd}

-- no character table has a bracket
hash-bracket : (s : List ℕ) → compute_callsign_hash (b'<' ∷ s) ≡ none
unfolding compute_callsign_hash nchar
hash-bracket s = refl

hash-is_bracketed : (s : List ℕ) → is_bracketed s ≡ true → compute_callsign_hash s ≡ none
hash-is_bracketed [] h = absurd (ground (arith, h))
hash-is_bracketed (c ∷ s) h =
    let e : c ≡ b'<' = ground (arith, h) in
    ap (λ d. compute_callsign_hash (d ∷ s)) e ∙ hash-bracket s

-- A nonstandard message that is not a CQ and whose second call stands in angle brackets is
-- refused with the error of the first call, whatever the first call of at least three characters
-- is, and the table does not change.
pub encode_nonstd-is_bracketed :
    (ht : CallsignHashTable) (to from extra : List ℕ)
    → (same_text to cq || starts_with to cq_space) ≡ false
    → 3 ≤ length to
    → 3 ≤ length from
    → is_bracketed from ≡ true
    → ftx_message_encode_nonstd ht to from extra ≡ (error_callsign1, (none, ht))
unfolding ftx_message_encode_nonstd save_callsign
encode_nonstd-is_bracketed ht to from extra no_cq l m h =
    let failed : save_callsign from ht ≡ none = rw (hash-is_bracketed from h, save_callsign) refl in
    let long_to : ltb (length to) 3 ≡ false = ground arith in
    let long_from : ltb (length from) 3 ≡ false = ground arith in
    rw (no_cq, long_to, long_from, h, failed) refl
