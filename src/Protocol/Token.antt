-- ===== src/Protocol/Token.antt =====
-- src/trx-protocol/src/auth.rs. The set of tokens is a list.
pub mod Bearer
pub mod Stripped
use trx_rs.Common.{
  ℕ, String, Bool, true, false, ◌||◌, Option, none, some, List, [], ◌∷◌, leb, if◌then◌else◌,
}
use trx_rs.Protocol.Text.{byte_len, trim, split_at, to_ascii_lowercase, same_text, contains}

abbrev pub prefix : List ℕ
prefix = b'b' ∷ b'e' ∷ b'a' ∷ b'r' ∷ b'e' ∷ b'r' ∷ b' ' ∷ []

after_prefix : List ℕ → Option (List ℕ × List ℕ) → Option (List ℕ)
after_prefix trimmed none = none
after_prefix trimmed (some (head, tail)) =
    some (if same_text (to_ascii_lowercase head) prefix then tail else trimmed)

-- the text without the prefix, or the panic of the slice
unfoldable pub strip_bearer : List ℕ → Option (List ℕ)
unfolding after_prefix
strip_bearer value =
    let trimmed = trim value in
    if leb 7 (byte_len trimmed) then after_prefix trimmed (split_at 7 trimmed) else some trimmed

pub data Validation : Type 0 where
  accepted missing invalid panicked : Validation

check_candidate : List (List ℕ) → Option (List ℕ) → Validation
check_candidate tokens none = panicked
check_candidate tokens (some candidate) = if contains tokens candidate then accepted else invalid

check_token : List (List ℕ) → Option (List ℕ) → Validation
unfolding check_candidate
check_token tokens none = missing
check_token tokens (some token) = check_candidate tokens (strip_bearer token)

-- `SimpleTokenValidator::validate`
unfoldable pub validate : List (List ℕ) → Option (List ℕ) → Validation
unfolding check_token check_candidate
validate [] token = accepted
validate (t ∷ ts) token = check_token (t ∷ ts) token
