-- ===== src/Ftx/Message/Dispatch/RoundTrip.antt =====
-- About a message of two standard calls, from its text and back.
use mathlib.Core.List.{append-nil, append_assoc}
use trx_rs.Common.{
  ℕ, ◌≤◌, true, false, some, List, [], ◌∷◌, ◌++◌, ltb, length, ◌≡◌, refl, sym, ap, ◌∙◌, arith,
}
use trx_rs.Ftx.HashTable.{CallsignHashTable, add}
use trx_rs.Ftx.Message.{ok, call, FtxFieldType}
use trx_rs.Ftx.Message.Places.{is_space, trim_start}
use trx_rs.Ftx.Message.Places.RoundTrip.{NoSpaces}
use trx_rs.Ftx.Message.Callsign.{starts_with, cq_space}
use trx_rs.Ftx.Message.Grid.Sent.{Extra, spell, kind, IsSendable}
use trx_rs.Ftx.Message.Grid.Spelling.{spell-IsToken}
use trx_rs.Ftx.Message.Standard.Calls.{IsStandard, three_to_seven}
use trx_rs.Ftx.Message.Standard.RoundTrip.{std_of, decode_std-encode_std}
use trx_rs.Ftx.Message.Dispatch.{
  split_space, copy_token, tokens, ftx_message_encode, decode_fields, assemble, ftx_message_decode,
}

-- the third field behind a space, unless it is empty
abbrev behind : List ℕ → List ℕ
behind [] = []
behind (c ∷ cs) = b' ' ∷ c ∷ cs

abbrev pub message_of : List ℕ → List ℕ → Extra → List ℕ
message_of to from e = to ++ b' ' ∷ (from ++ behind (spell e))

-- text that is empty or starts with a space
abbrev EndsHere : List ℕ → Type 0
EndsHere [] = Unit
EndsHere (c ∷ cs) = is_space c ≡ true

split_space-append : (s r : List ℕ) → NoSpaces s → EndsHere r → split_space (s ++ r) ≡ (s, r)
unfolding split_space
split_space-append [] [] v h = refl
split_space-append [] (c ∷ r) v h = rw h refl
split_space-append (c ∷ s) r v h = rw (v.0, split_space-append s r v.1 h) refl

trim_start-NoSpaces : (s r : List ℕ) → NoSpaces s → 1 ≤ length s → trim_start (s ++ r) ≡ s ++ r
unfolding trim_start
trim_start-NoSpaces [] r v h = absurd (omega arith)
trim_start-NoSpaces (c ∷ s) r v h = rw v.0 refl

copy_token-append :
    (s r : List ℕ)
    → NoSpaces s
    → 1 ≤ length s
    → EndsHere r
    → copy_token (s ++ r) ≡ (s, trim_start r)
unfolding copy_token
copy_token-append s r v l h = rw (trim_start-NoSpaces s r v l, split_space-append s r v h) refl

copy_token-NoSpaces : (s : List ℕ) → NoSpaces s → copy_token s ≡ (s, [])
unfolding copy_token trim_start split_space
copy_token-NoSpaces [] v = refl
copy_token-NoSpaces (c ∷ s) v =
    ap copy_token (sym (append-nil (c ∷ s))) ∙ copy_token-append (c ∷ s) [] v (omega arith) tt

-- a call in front is not `CQ `
no_cq_start : (s r : List ℕ) → NoSpaces s → 3 ≤ length s → starts_with (s ++ r) cq_space ≡ false
no_cq_start [] r v h = absurd (omega arith)
no_cq_start (c ∷ []) r v h = absurd (omega arith)
no_cq_start (c ∷ d ∷ []) r v h = absurd (omega arith)
no_cq_start (c ∷ d ∷ e ∷ s) r v h = ground (arith, v.1.1.0)

behind-EndsHere : (s : List ℕ) → EndsHere (behind s)
behind-EndsHere [] = tt
behind-EndsHere (c ∷ s) = refl

copy_token-behind : (s : List ℕ) → NoSpaces s → copy_token (trim_start (behind s)) ≡ (s, [])
unfolding trim_start
copy_token-behind [] v = copy_token-NoSpaces [] v
copy_token-behind (c ∷ s) v = rw v.0 (copy_token-NoSpaces (c ∷ s) v)

tokens-message_of :
    (to from : List ℕ) (e : Extra)
    → NoSpaces to
    → 3 ≤ length to
    → NoSpaces from
    → 3 ≤ length from
    → NoSpaces (spell e)
    → tokens (message_of to from e)
      ≡ record { call_to = to; call_de = from; extra = spell e; parse_pos = [] }
unfolding tokens trim_start
tokens-message_of to from e v l w m x =
    let rest = from ++ behind (spell e) in
    let first = copy_token-append to (b' ' ∷ rest) v (omega arith) refl in
    let second =
      ap copy_token (trim_start-NoSpaces from (behind (spell e)) w (omega arith))
      ∙ copy_token-append from (behind (spell e)) w (omega arith) (behind-EndsHere (spell e)) in
    rw (no_cq_start to (b' ' ∷ rest) v l, first, second, copy_token-behind (spell e) x) refl

assemble-message_of :
    (to from : List ℕ × FtxFieldType) (s : List ℕ) (k : FtxFieldType)
    → (assemble (some to) (some from) (some (s, k))).0 ≡ to.0 ++ b' ' ∷ (from.0 ++ behind s)
unfolding assemble
assemble-message_of to from [] k = ap (λ r. to.0 ++ b' ' ∷ r) (sym (append-nil from.0))
assemble-message_of to from (c ∷ cs) k = append_assoc to.0 (b' ' ∷ from.0) (b' ' ∷ c ∷ cs)

-- The text of two standard calls without a suffix and a third field that is empty, a locator, a
-- report or a sign-off encodes to a payload which, decoded with any table of callsigns, gives the
-- text back with the result code Ok; encoding keeps both calls in the table.
pub decode-encode :
    (payload : List ℕ) (ht other : CallsignHashTable) (to from : List ℕ) (a : IsStandard to)
    (b : IsStandard from) (e : Extra)
    → IsSendable e
    → (ftx_message_encode payload ht (message_of to from e)
        ≡ (ok, (std_of to from a b e, add from b.hash (add to a.hash ht))))
      × (((ftx_message_decode other (std_of to from a b e)).0.0 ≡ message_of to from e)
          × ((ftx_message_decode other (std_of to from a b e)).0.1.1 ≡ ok))
unfolding ftx_message_encode ftx_message_decode decode_fields
decode-encode payload ht other to from a b e v =
    let back = decode_std-encode_std ht to from a b e v in
    let l = three_to_seven to a in
    let m = three_to_seven from b in
    let x = spell-IsToken e v in
    let split = tokens-message_of to from e a.plain.0 l.0 b.plain.0 m.0 x.0 in
    let short_to : ltb 11 (length to) ≡ false = ground (arith, l.1) in
    let short_de : ltb 11 (length from) ≡ false = ground (arith, m.1) in
    let short_extra : ltb 19 (length (spell e)) ≡ false = ground (arith, x.1) in
    (
      rw (split, short_to, short_de, short_extra, back.0) refl,
      rw (back.1.0, back.1.1 other)
          (assemble-message_of (to, call) (from, call) (spell e) (kind e), refl),
    )
