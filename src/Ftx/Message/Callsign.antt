-- ===== src/Ftx/Message/Callsign.antt =====
-- Callsigns in 28 bits (message.rs, `pack28` and `unpack28`) and in 58 bits (`pack58` and
-- `unpack58`), with the table of hashes that both keep.
pub mod Standard
pub mod Long
use trx_rs.Common.{
  ℕ, zero, suc, ◌+◌, ◌-◌, ◌*◌, ◌/◌, ◌%◌, ◌^◌, Bool, true, false, not, ◌&&◌, ◌||◌, Option, none,
  some, List, [], ◌∷◌, ◌++◌, ltb, leb, ◌==◌, get_or, take, drop, replicate, length, if◌then◌else◌,
}
use trx_rs.Ftx.Text.{
  CharTable, alphanum_space_slash, alphanum_space, letters_space, alphanum, numeric, charn, nchar,
  is_digit, is_uppercase,
}
use trx_rs.Ftx.Decimal.{ℤ, pos, int_to_dd}
use trx_rs.Ftx.HashTable.{
  CallsignHashTable, HashType, hash22_bits, hash12_bits, add, lookup, Found, hit,
  compute_callsign_hash,
}
use trx_rs.Ftx.Message.{FtxFieldType, token, token_with_arg, call}
use trx_rs.Ftx.Message.Places.{Place, pack_places, unpack_places, is_space, trim_start, trim, fill}

abbrev pub max22 : ℕ
max22 = 4_194_304

abbrev pub ntokens : ℕ
ntokens = 2_063_592

-- texts by their codes, and Boolean equality of texts
abbrev pub same_text : List ℕ → List ℕ → Bool
same_text [] [] = true
same_text [] (t ∷ ts) = false
same_text (s ∷ ss) [] = false
same_text (s ∷ ss) (t ∷ ts) = s == t && same_text ss ts

abbrev pub starts_with : List ℕ → List ℕ → Bool
starts_with s [] = true
starts_with [] (t ∷ ts) = false
starts_with (c ∷ s) (t ∷ ts) = c == t && starts_with s ts

abbrev pub ends_with : List ℕ → List ℕ → Bool
ends_with s t = leb (length t) (length s) && same_text (drop (length s - length t) s) t

abbrev pub de : List ℕ
de = b'D' ∷ b'E' ∷ []

abbrev pub qrz : List ℕ
qrz = b'Q' ∷ b'R' ∷ b'Z' ∷ []

abbrev pub cq : List ℕ
cq = b'C' ∷ b'Q' ∷ []

abbrev pub cq_space : List ℕ
cq_space = b'C' ∷ b'Q' ∷ b' ' ∷ []

abbrev pub slash_p : List ℕ
slash_p = b'/' ∷ b'P' ∷ []

abbrev pub slash_r : List ℕ
slash_r = b'/' ∷ b'R' ∷ []

-- `<...>`
abbrev pub unknown_call : List ℕ
unknown_call = b'<' ∷ b'.' ∷ b'.' ∷ b'.' ∷ b'>' ∷ []

-- the text without the character at its front, and at its end
trim_front : ℕ → List ℕ → List ℕ
trim_front c [] = []
trim_front c (s ∷ ss) = let rest = trim_front c ss in if s == c then rest else s ∷ ss

trim_back : ℕ → List ℕ → List ℕ
trim_back c [] = []
trim_back c (s ∷ ss) =
    let rest = trim_back c ss in
    elim rest [ [] ↦ if s == c then [] else s ∷ [] | r ∷ rs ↦ s ∷ r ∷ rs ]

abbrev add_brackets : List ℕ → List ℕ
add_brackets callsign = b'<' ∷ callsign ++ b'>' ∷ []

unfoldable pub save_callsign :
    List ℕ → CallsignHashTable → Option ((ℕ × (ℕ × ℕ)) × CallsignHashTable)
save_callsign callsign ht = elim (compute_callsign_hash callsign) [
  | none ↦ none
  | some n22 ↦ some ((n22, (n22 / 2 ^ 10, n22 / 2 ^ 12)), add callsign n22 ht)
]

unfoldable pub lookup_callsign : HashType → ℕ → CallsignHashTable → List ℕ
lookup_callsign k hash ht = elim (lookup k hash ht) [
  | hit found ↦ add_brackets found
  | Found.miss ↦ unknown_call
  | Found.stuck ↦ unknown_call
]

-- the loop of `parse_cq_modifier` over at most five characters: digits, letters and their value
scan_modifier : ℕ → ℕ → ℕ → List ℕ → Option (ℕ × (ℕ × ℕ))
scan_modifier nnum nlet m [] = some (nnum, (nlet, m))
scan_modifier nnum nlet m (c ∷ cs) =
    let rest_digit = scan_modifier (nnum + 1) nlet m cs in
    let rest_letter = scan_modifier nnum (nlet + 1) (27 * m + (c - b'A' + 1)) cs in
    if c == b' ' || c == 0
    then some (nnum, (nlet, m))
    else if is_digit c
    then rest_digit
    else if is_uppercase c
    then rest_letter
    else none

-- the number at the start of a text
leading_number : ℕ → List ℕ → ℕ
leading_number n [] = n
leading_number n (c ∷ cs) =
    let rest = leading_number (10 * n + (c - b'0')) cs in if is_digit c then rest else n

modifier_of : List ℕ → Option (ℕ × (ℕ × ℕ)) → Option ℕ
modifier_of digits none = none
modifier_of digits (some (nnum, (nlet, m))) =
    if nnum == 3 && nlet == 0
    then some (leading_number 0 digits)
    else if nnum == 0 && ltb 0 nlet && leb nlet 4
    then some (1000 + m)
    else none

unfoldable pub parse_cq_modifier : List ℕ → Option ℕ
unfolding scan_modifier modifier_of leading_number
parse_cq_modifier s =
    if ltb (length s) 4
    then none
    else modifier_of (drop 3 s) (scan_modifier 0 0 0 (take 5 (drop 3 s)))

abbrev pub swaziland : List ℕ
swaziland = b'3' ∷ b'D' ∷ b'A' ∷ b'0' ∷ []

abbrev pub guinea : List ℕ
guinea = b'3' ∷ b'X' ∷ []

-- the six characters that `pack_basecall` encodes
unfoldable pub basecall_chars : List ℕ → Option (List ℕ)
basecall_chars callsign =
    let len = length callsign in
    if leb len 2
    then none
    else if starts_with callsign swaziland && ltb 4 len && leb len 7
    then some (b'3' ∷ b'D' ∷ b'0' ∷ fill 3 (drop 4 callsign))
    else if starts_with callsign guinea && is_uppercase (get_or callsign 2 0) && leb len 7
    then some (b'Q' ∷ fill 5 (drop 2 callsign))
    else if is_digit (get_or callsign 2 0) && leb len 6
    then some (fill 6 callsign)
    else if is_digit (get_or callsign 1 0) && leb len 5
    then some (b' ' ∷ fill 5 callsign)
    else none

abbrev pub call_places : List Place
call_places =
    (alphanum_space, 37)
    ∷ (alphanum, 36)
    ∷ (numeric, 10)
    ∷ (letters_space, 27)
    ∷ (letters_space, 27)
    ∷ (letters_space, 27)
    ∷ []

abbrev pub call_places_back : List Place
call_places_back =
    (letters_space, 27)
    ∷ (letters_space, 27)
    ∷ (letters_space, 27)
    ∷ (numeric, 10)
    ∷ (alphanum, 36)
    ∷ (alphanum_space, 37)
    ∷ []

unfoldable pub pack_basecall : List ℕ → Option ℕ
pack_basecall callsign = elim (basecall_chars callsign) [
  | none ↦ none
  | some c6 ↦ pack_places 0 call_places c6
]

-- the text that the six characters of a standard call stand for
unfoldable pub expand_call : List ℕ → List ℕ
expand_call raw =
    if starts_with raw (b'3' ∷ b'D' ∷ b'0' ∷ []) && not (is_space (get_or raw 3 0))
    then swaziland ++ trim (drop 3 raw)
    else if starts_with raw (b'Q' ∷ []) && is_uppercase (get_or raw 1 0)
    then guinea ++ trim (drop 1 raw)
    else trim raw

has_suffix : List ℕ → Bool
has_suffix callsign = ends_with callsign slash_p || ends_with callsign slash_r

-- what remains of `pack28` behind the tokens, by what the base call packs to
saved :
    (ℕ → ℕ × ℕ) → Option ((ℕ × (ℕ × ℕ)) × CallsignHashTable) → Option ((ℕ × ℕ) × CallsignHashTable)
saved f none = none
saved f (some r) = some (f r.0.0, r.1)

pack_base : List ℕ → ℕ → CallsignHashTable → Option ℕ → Option ((ℕ × ℕ) × CallsignHashTable)
pack_base callsign ip ht (some n28) =
    saved (λ n22. (ntokens + max22 + n28, ip)) (save_callsign callsign ht)
pack_base callsign ip ht none =
    if leb 3 (length callsign) && leb (length callsign) 11
    then saved (λ n22. (ntokens + n22, 0)) (save_callsign callsign ht)
    else none

with_modifier : CallsignHashTable → Option ℕ → Option ((ℕ × ℕ) × CallsignHashTable)
with_modifier ht none = none
with_modifier ht (some v) = some ((3 + v, 0), ht)

-- the 28 bits and the bit of the suffix
unfoldable pub pack28 : List ℕ → CallsignHashTable → Option ((ℕ × ℕ) × CallsignHashTable)
unfolding has_suffix saved pack_base with_modifier
pack28 callsign ht =
    let len = length callsign in
    if same_text callsign de
    then some ((0, 0), ht)
    else if same_text callsign qrz
    then some ((1, 0), ht)
    else if same_text callsign cq
    then some ((2, 0), ht)
    else if starts_with callsign cq_space && ltb len 8
    then with_modifier ht (parse_cq_modifier callsign)
    else if has_suffix callsign
    then pack_base callsign 1 ht (pack_basecall (take (len - 2) callsign))
    else pack_base callsign 0 ht (pack_basecall callsign)

-- the call with the suffix that `ip` and `i3` stand for
suffixed : List ℕ → ℕ → ℕ → Option (List ℕ)
suffixed result ip i3 =
    if ip == 0
    then some result
    else if i3 == 1
    then some (result ++ slash_r)
    else if i3 == 2
    then some (result ++ slash_p)
    else none

-- an error of `save_callsign` is dropped
kept : CallsignHashTable → Option ((ℕ × (ℕ × ℕ)) × CallsignHashTable) → CallsignHashTable
kept ht none = ht
kept ht (some r) = r.1

unfoldable pub keep_call : List ℕ → CallsignHashTable → CallsignHashTable
unfolding kept
keep_call callsign ht = kept ht (save_callsign callsign ht)

finish_call :
    CallsignHashTable → Option (List ℕ) → Option ((List ℕ × FtxFieldType) × CallsignHashTable)
finish_call ht none = none
finish_call ht (some result) = some ((result, call), keep_call result ht)

unpack_standard :
    ℕ → ℕ → ℕ → CallsignHashTable → Option ((List ℕ × FtxFieldType) × CallsignHashTable)
unfolding suffixed keep_call finish_call
unpack_standard n ip i3 ht =
    let result = expand_call (unpack_places call_places_back n []) in
    if ltb (length result) 3 then none else finish_call ht (suffixed result ip i3)

unpack_token : ℕ → Option (List ℕ × FtxFieldType)
unpack_token n28 =
    let aaaa =
      unpack_places
        ((letters_space, 27) ∷ (letters_space, 27) ∷ (letters_space, 27) ∷ (letters_space, 27) ∷ [])
        (n28 - 1003) [] in
    if n28 == 0
    then some (de, token)
    else if n28 == 1
    then some (qrz, token)
    else if n28 == 2
    then some (cq, token)
    else if leb n28 1002
    then some (cq_space ++ int_to_dd (pos (n28 - 3)) 3 false, token_with_arg)
    else if leb n28 532443
    then some (cq_space ++ trim_start aaaa, token_with_arg)
    else none

with_table :
    CallsignHashTable
    → Option (List ℕ × FtxFieldType)
    → Option ((List ℕ × FtxFieldType) × CallsignHashTable)
with_table ht none = none
with_table ht (some r) = some (r, ht)

unfoldable pub unpack28 :
    ℕ → ℕ → ℕ → CallsignHashTable → Option ((List ℕ × FtxFieldType) × CallsignHashTable)
unfolding unpack_token with_table unpack_standard
unpack28 n28 ip i3 ht =
    let n28_adj = n28 - ntokens in
    if ltb n28 ntokens
    then with_table ht (unpack_token n28)
    else if ltb n28_adj max22
    then some ((lookup_callsign hash22_bits n28_adj ht, call), ht)
    else unpack_standard (n28_adj - max22) ip i3 ht

trim_brackets : List ℕ → List ℕ
trim_brackets s = trim_back b'>' (trim_front b'<' s)

-- the loop of `pack58`: the characters before a `<`, eleven at most, and their number
pack58_loop : ℕ → List ℕ → Option (ℕ × List ℕ)
pack58_loop result [] = some (result, [])
pack58_loop result (c ∷ cs) = elim (nchar c alphanum_space_slash) [
  | none ↦ if c == b'<' then some (result, []) else none
  | some j ↦ elim (pack58_loop (result * 38 + j) cs) [ none ↦ none | some r ↦ some (r.0, c ∷ r.1) ]
]

finish58 : CallsignHashTable → Option (ℕ × List ℕ) → Option (ℕ × CallsignHashTable)
finish58 ht none = none
finish58 ht (some (n58, c11)) = elim (save_callsign c11 ht) [
  | none ↦ none
  | some r ↦ some (n58, r.1)
]

unfoldable pub pack58 : CallsignHashTable → List ℕ → Option (ℕ × CallsignHashTable)
unfolding trim_brackets trim_front trim_back pack58_loop finish58
pack58 ht callsign = finish58 ht (pack58_loop 0 (take 11 (trim_brackets callsign)))

abbrev pub places58 : List Place
places58 = replicate 11 (alphanum_space_slash, 38)

unfoldable pub unpack58 : ℕ → CallsignHashTable → Option (List ℕ × CallsignHashTable)
unfolding keep_call
unpack58 n58 ht =
    let callsign = trim (unpack_places places58 n58 []) in
    if leb 3 (length callsign) then some (callsign, keep_call callsign ht) else none
