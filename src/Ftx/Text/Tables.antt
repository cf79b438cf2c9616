-- ===== src/Ftx/Text/Tables.antt =====
-- `charn` and `nchar` on each table (text.rs).
use trx_rs.Common.{ℕ, ◌<◌, some, ◌≡◌, arith}
use trx_rs.Ftx.Text.{
  CharTable, full, alphanum_space_slash, alphanum_space, letters_space, alphanum, numeric, charn,
  nchar,
}

-- the number of entries of a table
abbrev pub size : CharTable → ℕ
size full = 42
size alphanum_space_slash = 38
size alphanum_space = 37
size letters_space = 27
size alphanum = 36
size numeric = 10

-- On every table `nchar` gives back each index below the size of the table from the character
-- that `charn` gives for it.
pub nchar-charn : (t : CharTable) (c : ℕ) → c < size t → nchar (charn c t) t ≡ some c
unfolding nchar charn
nchar-charn full c h = ground arith
nchar-charn t c h = ground arith

-- The index that `nchar` gives a character lies in the table and `charn` gives the character
-- back.
pub charn-nchar :
    (t : CharTable) (ch : ℕ) {n : ℕ} → nchar ch t ≡ some n → (charn n t ≡ ch) × (n < size t)
unfolding nchar charn
charn-nchar full ch h = (ground arith, ground arith)
charn-nchar t ch h = (ground arith, ground arith)
