-- ===== src/Protocol/Text.antt =====
-- Texts of the standard library as the program uses them: a `str` is the list of the code points of
-- its characters, its length counts the bytes of their UTF-8 encoding, and a slice that does not
-- start and end at a character panics.
pub mod Ascii
pub mod Equal
pub mod Split
use trx_rs.Common.{
  ℕ, ◌+◌, ◌-◌, Bool, true, false, ◌&&◌, ◌||◌, Option, none, some, List, [], ◌∷◌, ltb, leb, ◌==◌,
  if◌then◌else◌, ◌≡◌,
}

abbrev pub utf8_len : ℕ → ℕ
utf8_len c = if ltb c 0x80 then 1 else if ltb c 0x800 then 2 else if ltb c 0x10000 then 3 else 4

abbrev pub byte_len : List ℕ → ℕ
byte_len [] = 0
byte_len (c ∷ cs) = utf8_len c + byte_len cs

-- `char::is_whitespace`
abbrev pub is_whitespace : ℕ → Bool
is_whitespace c =
    leb 9 c && leb c 13
    || c == 0x20
    || c == 0x85
    || c == 0xA0
    || c == 0x1680
    || leb 0x2000 c && leb c 0x200A
    || c == 0x2028
    || c == 0x2029
    || c == 0x202F
    || c == 0x205F
    || c == 0x3000

unfoldable pub trim_start : List ℕ → List ℕ
trim_start [] = []
trim_start (c ∷ cs) = let rest = trim_start cs in if is_whitespace c then rest else c ∷ cs

-- a character in front of what is left of a text
in_front : ℕ → List ℕ → List ℕ
in_front c [] = if is_whitespace c then [] else c ∷ []
in_front c (d ∷ ds) = c ∷ d ∷ ds

unfoldable pub trim_end : List ℕ → List ℕ
unfolding in_front
trim_end [] = []
trim_end (c ∷ cs) = in_front c (trim_end cs)

abbrev pub trim : List ℕ → List ℕ
trim s = trim_end (trim_start s)

before : ℕ → Option (List ℕ × List ℕ) → Option (List ℕ × List ℕ)
before c none = none
before c (some (s, t)) = some (c ∷ s, t)

-- `(&s[..n], &s[n..])`, or the panic
unfoldable pub split_at : ℕ → List ℕ → Option (List ℕ × List ℕ)
unfolding before
split_at n [] = if n == 0 then some ([], []) else none
split_at n (c ∷ cs) =
    let rest = split_at (n - utf8_len c) cs in
    if n == 0 then some ([], c ∷ cs) else if leb (utf8_len c) n then before c rest else none

-- `to_ascii_lowercase`
abbrev pub to_ascii_lowercase : List ℕ → List ℕ
to_ascii_lowercase [] = []
to_ascii_lowercase (c ∷ cs) =
    (if leb b'A' c && leb c b'Z' then c + 32 else c) ∷ to_ascii_lowercase cs

abbrev pub same_text : List ℕ → List ℕ → Bool
same_text [] [] = true
same_text [] (d ∷ t) = false
same_text (c ∷ s) [] = false
same_text (c ∷ s) (d ∷ t) = c == d && same_text s t

abbrev pub contains : List (List ℕ) → List ℕ → Bool
contains [] s = false
contains (t ∷ ts) s = same_text t s || contains ts s

-- every character is one byte
abbrev pub IsAscii : List ℕ → Type 0
IsAscii [] = Unit
IsAscii (c ∷ cs) = (ltb c 0x80 ≡ true) × IsAscii cs
