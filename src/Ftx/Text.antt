-- ===== src/Ftx/Text.antt =====
-- src/decoders/trx-ftx/src/common/text.rs. A `char` is its code point. The index that `charn`
-- takes is never negative, so it is a natural number, and each `c -= k` stands behind a test.
pub mod Tables
pub mod Format
use trx_rs.Common.{
  ℕ, zero, suc, ◌+◌, ◌-◌, ◌*◌, ◌/◌, ◌%◌, ◌^◌, Bool, true, false, not, ◌&&◌, ◌||◌, Option, none,
  some, List, [], ◌∷◌, ltb, leb, ◌==◌, get_or, if◌then◌else◌,
}

pub data CharTable : Type 0 where
  full alphanum_space_slash alphanum_space letters_space alphanum numeric : CharTable

-- the comparisons of `table` with one variant
abbrev pub has_space : CharTable → Bool
has_space alphanum = false
has_space numeric = false
has_space _ = true

abbrev pub has_digits : CharTable → Bool
has_digits letters_space = false
has_digits _ = true

abbrev pub has_letters : CharTable → Bool
has_letters numeric = false
has_letters _ = true

charn_symbol : CharTable → ℕ → ℕ
charn_symbol full c =
    if ltb c 5 then get_or (b'+' ∷ b'-' ∷ b'.' ∷ b'/' ∷ b'?' ∷ []) c b'_' else b'_'
charn_symbol alphanum_space_slash c = if c == 0 then b'/' else b'_'
charn_symbol _ c = b'_'

charn_letter : CharTable → ℕ → ℕ
charn_letter t c =
    if has_letters t
    then if ltb c 26 then b'A' + c else charn_symbol t (c - 26)
    else charn_symbol t c

charn_digit : CharTable → ℕ → ℕ
charn_digit t c =
    if has_digits t
    then if ltb c 10 then b'0' + c else charn_letter t (c - 10)
    else charn_letter t c

unfoldable pub charn : ℕ → CharTable → ℕ
unfolding charn_symbol charn_letter charn_digit
charn c t = if has_space t then if c == 0 then b' ' else charn_digit t (c - 1) else charn_digit t c

abbrev pub is_digit : ℕ → Bool
is_digit c = leb b'0' c && leb c b'9'

abbrev pub is_uppercase : ℕ → Bool
is_uppercase c = leb b'A' c && leb c b'Z'

abbrev pub is_lowercase : ℕ → Bool
is_lowercase c = leb b'a' c && leb c b'z'

nchar_symbol : CharTable → ℕ → ℕ → Option ℕ
nchar_symbol full n c =
    if c == b'+'
    then some n
    else if c == b'-'
    then some (n + 1)
    else if c == b'.'
    then some (n + 2)
    else if c == b'/'
    then some (n + 3)
    else if c == b'?'
    then some (n + 4)
    else none
nchar_symbol alphanum_space_slash n c = if c == b'/' then some n else none
nchar_symbol _ n c = none

nchar_letter : CharTable → ℕ → ℕ → Option ℕ
nchar_letter t n c =
    if has_letters t
    then if is_uppercase c then some (n + (c - b'A')) else nchar_symbol t (n + 26) c
    else nchar_symbol t n c

nchar_digit : CharTable → ℕ → ℕ → Option ℕ
nchar_digit t n c =
    if has_digits t
    then if is_digit c then some (n + (c - b'0')) else nchar_letter t (n + 10) c
    else nchar_letter t n c

unfoldable pub nchar : ℕ → CharTable → Option ℕ
unfolding nchar_symbol nchar_letter nchar_digit
nchar c t =
    if has_space t then if c == b' ' then some 0 else nchar_digit t 1 c else nchar_digit t 0 c

unfoldable pub to_upper : ℕ → ℕ
to_upper c = if is_lowercase c then c - b'a' + b'A' else c

-- `fmtmsg`; `spaced` says that `last_out` is a space
fmtmsg_loop : Bool → List ℕ → List ℕ
fmtmsg_loop spaced [] = []
fmtmsg_loop spaced (c ∷ cs) =
    let skip = c == b' ' && spaced in
    let rest = fmtmsg_loop (if skip then spaced else to_upper c == b' ') cs in
    if skip then rest else to_upper c ∷ rest

unfoldable pub fmtmsg : List ℕ → List ℕ
unfolding fmtmsg_loop to_upper
fmtmsg s = fmtmsg_loop false s
