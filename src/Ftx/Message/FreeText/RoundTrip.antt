-- ===== src/Ftx/Message/FreeText/RoundTrip.antt =====
-- About free text as a whole.
use mathlib.Core.List.{append-nil}
use mathlib.Core.Option.{none-ne-some}
use trx_rs.Common.{
  ℕ, zero, suc, ◌+◌, ◌*◌, ◌%◌, ◌^◌, ◌<◌, ◌≤◌, false, none, some, List, [], ◌∷◌, ◌++◌, take, drop,
  length, ltb, ◌≡◌, ◌≢◌, refl, sym, ap, ◌∙◌, arith, inl, inr, Option-cases,
}
use trx_rs.Ftx.Text.{full, nchar}
use trx_rs.Ftx.Message.{free_text, ok, get_type, get_i3, get_n3}
use trx_rs.Ftx.Message.Places.{pack_places, unpack_places, trim, fill}
use trx_rs.Ftx.Message.Places.RoundTrip.{
  AreWide, reverse_onto, unpack_places-pack_places, length-fill, trim-fill_any,
}
use trx_rs.Ftx.Message.Places.Bounds.{pack_places-lt}
use trx_rs.Ftx.Message.FreeText.{
  ftx_message_encode_telemetry, ftx_message_decode_telemetry, encode_chars, zero_bytes,
  ftx_message_encode_free, decode_chars, ftx_message_decode_free, shift_left,
}
use trx_rs.Ftx.Message.FreeText.Number.{
  number, AreBytes, places_of, number-encode_chars, decode_chars-number,
}
use trx_rs.Ftx.Message.FreeText.Shift.{length-shift_left, take_append, decode-encode_telemetry}

-- every character is one of the 42
abbrev pub IsFull : List ℕ → Type 0
IsFull [] = Unit
IsFull (c ∷ cs) = (nchar c full ≢ none) × IsFull cs

fill-IsFull : (k : ℕ) (cs : List ℕ) → IsFull cs → IsFull (fill k cs)
unfolding fill nchar
fill-IsFull zero cs v = tt
fill-IsFull (suc k) [] v = ((λ e. none-ne-some 0 (sym e)), fill-IsFull k [] tt)
fill-IsFull (suc k) (c ∷ cs) v = (v.0, fill-IsFull k cs v.1)

-- places of that table pack every such text
packs :
    (cs : List ℕ) (n : ℕ)
    → IsFull cs
    → (m : ℕ) × (pack_places n (places_of (length cs)) cs ≡ some m)
unfolding pack_places
packs [] n v = (n, refl)
packs (c ∷ cs) n v = elim (Option-cases (nchar c full)) [
  | inl e ↦ absurd (v.0 e)
  | inr (j, e) ↦ let rest = packs cs (n * 42 + j) v.1 in (rest.0, rw (e, pack_places) rest.1)
]

-- the payload of nine bytes of text
sent :
    (payload b71 : List ℕ)
    → length b71 ≡ 9
    → take 9 (ftx_message_encode_telemetry payload b71) ++ 0 ∷ [] ≡ shift_left b71 ++ 0 ∷ []
unfolding ftx_message_encode_telemetry
sent payload b71 l =
    let nine : length (shift_left b71) ≡ 9 = length-shift_left b71 ∙ l in
    ap (λ xs. xs ++ 0 ∷ [])
      (ap (λ k. take k (shift_left b71 ++ drop 9 payload)) (sym nine)
        ∙ take_append (shift_left b71) (drop 9 payload))

get_type-sent : (b71 : List ℕ) → length b71 ≡ 9 → get_type (shift_left b71 ++ 0 ∷ []) ≡ free_text
unfolding get_type get_i3 get_n3 shift_left
get_type-sent (b0 ∷ b1 ∷ b2 ∷ b3 ∷ b4 ∷ b5 ∷ b6 ∷ b7 ∷ b8 ∷ []) l =
    let even : (b8 * 2 % 2 ^ 8 + 0) % 2 ≡ 0 = omega arith in rw even refl
get_type-sent _ l = absurd (omega arith)

encode_free :
    (payload text b71 : List ℕ)
    → length text ≤ 13
    → encode_chars zero_bytes (fill 13 text) ≡ some b71
    → length b71 ≡ 9
    → ftx_message_encode_free payload text ≡ (ok, shift_left b71 ++ 0 ∷ [])
unfolding ftx_message_encode_free
encode_free payload text b71 h e l =
    let short : ltb 13 (length text) ≡ false = ground arith in
    rw (short, e) (ap (λ p. (ok, p)) (sent payload b71 l))

decode_sent :
    (cs b71 : List ℕ) (m : ℕ)
    → length cs ≡ 13
    → pack_places 0 (places_of 13) cs ≡ some m
    → AreBytes b71
    → length b71 ≡ 9
    → number b71 ≡ m
    → m < 2 ^ 71
    → ftx_message_decode_free (shift_left b71 ++ 0 ∷ []) ≡ trim cs
unfolding ftx_message_decode_free ftx_message_encode_telemetry reverse_onto unpack_places
decode_sent cs b71 m l packed v nine is_m low =
    let back : ftx_message_decode_telemetry (shift_left b71 ++ 0 ∷ []) ≡ b71 =
      decode-encode_telemetry (zero_bytes ++ 0 ∷ []) b71 nine v (omega arith) in
    let wide : AreWide (places_of 13) = ground arith in
    ap trim (
      ap (λ b. decode_chars 13 b []) back
      ∙ decode_chars-number 13 b71 [] v
      ∙ ap (λ n. unpack_places (places_of 13) n []) is_m
      ∙ unpack_places-pack_places 0 (places_of 13) [] cs [] m wide l packed
      ∙ append-nil cs)

-- A text of at most 13 characters of the full table encodes as free text without an error, the
-- payload has the type of free text, and decoding gives the text without the spaces around it.
pub decode_free-encode_free :
    (payload text : List ℕ)
    → length text ≤ 13
    → IsFull text
    → ((ftx_message_encode_free payload text).0 ≡ ok)
      × ((get_type (ftx_message_encode_free payload text).1 ≡ free_text)
          × (ftx_message_decode_free (ftx_message_encode_free payload text).1 ≡ trim text))
unfolding number
decode_free-encode_free payload text h v =
    let cs = fill 13 text in
    let l : length cs ≡ 13 = length-fill 13 text in
    let packed = packs cs 0 (fill-IsFull 13 text v) in
    let m = packed.0 in
    let thirteen : pack_places 0 (places_of 13) cs ≡ some m = rw l at packed.1 in
    let wide : AreWide (places_of 13) = ground arith in
    let small = pack_places-lt 0 m (places_of 13) cs wide thirteen in
    let bytes : AreBytes zero_bytes = ground arith in
    let b = number-encode_chars cs zero_bytes 13 m l bytes thirteen (omega (arith, small)) in
    let b71 = b.0 in
    let e = encode_free payload text b71 h b.1.0 b.1.1.1.0 in
    let back = decode_sent cs b71 m l thirteen b.1.1.0 b.1.1.1.0 b.1.1.1.1 (omega (arith, small)) in
    simp e (refl, (get_type-sent b71 b.1.1.1.0, back ∙ trim-fill_any 13 text h))
