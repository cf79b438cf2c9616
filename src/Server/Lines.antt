-- ===== src/Server/Lines.antt =====
-- listener.rs, `read_limited_line`. The reader is the list of the chunks that `fill_buf` returns; an
-- empty chunk, like the end of the list, is the end of the stream. Errors of the socket and of the
-- decoding of UTF-8 stop the caller and are left out.
pub mod Chunks
use trx_rs.Common.{
  ℕ, ◌+◌, Bool, true, false, Option, none, some, List, [], ◌∷◌, ◌++◌, ltb, ◌==◌, length,
  if◌then◌else◌,
}

-- what was read, with what is left
pub data Line {ℓ} (A : Type ℓ) : Type ℓ where
  eof too_long : Line A
  line : List ℕ → A → Line A

after_byte : ℕ → Option (List ℕ × List ℕ) → Option (List ℕ × List ℕ)
after_byte b none = none
after_byte b (some (pre, post)) = some (b ∷ pre, post)

-- `position`: the bytes up to the first newline, and the bytes behind it
unfoldable pub split_newline : List ℕ → Option (List ℕ × List ℕ)
unfolding after_byte
split_newline [] = none
split_newline (b ∷ bs) =
    let rest = split_newline bs in if b == b'\n' then some (b ∷ [], bs) else after_byte b rest

-- a chunk that is consumed in part
unread : List ℕ → List (List ℕ) → List (List ℕ)
unread [] chunks = chunks
unread (b ∷ bs) chunks = (b ∷ bs) ∷ chunks

at_end : List ℕ → Line (List (List ℕ))
at_end [] = eof
at_end (b ∷ bs) = line (b ∷ bs) []

-- one round of the loop: what it returns, or `rest` for the next round
round :
    ℕ
    → List ℕ
    → List ℕ
    → List (List ℕ)
    → Line (List (List ℕ))
    → Option (List ℕ × List ℕ)
    → Line (List (List ℕ))
round max_bytes text available chunks rest (some (pre, post)) =
    if ltb max_bytes (length text + length pre)
    then too_long
    else line (text ++ pre) (unread post chunks)
round max_bytes text available chunks rest none =
    if ltb max_bytes (length text + length available) then too_long else rest

unfoldable pub read_from : ℕ → List ℕ → List (List ℕ) → Line (List (List ℕ))
unfolding at_end unread round
read_from max_bytes text [] = at_end text
read_from max_bytes text ([] ∷ chunks) = at_end text
read_from max_bytes text ((b ∷ bs) ∷ chunks) =
    let available = b ∷ bs in
    let rest = read_from max_bytes (text ++ available) chunks in
    round max_bytes text available chunks rest (split_newline available)

unfoldable pub read_limited_line : ℕ → List (List ℕ) → Line (List (List ℕ))
read_limited_line max_bytes chunks = read_from max_bytes [] chunks
