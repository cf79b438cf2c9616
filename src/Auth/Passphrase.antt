-- ===== src/Auth/Passphrase.antt =====
-- `AuthConfig` and its passphrases, texts as their bytes.
pub mod Compare
use trx_rs.Common.{
  ℕ, String, Bool, true, false, not, Option, none, some, List, [], ◌∷◌, bit_or, bit_xor, ◌==◌,
  length, if◌then◌else◌,
}

pub data AuthRole : Type 0 where
  rx control : AuthRole

unfoldable pub as_str : AuthRole → String
as_str rx = "rx"
as_str control = "control"

pub data SameSite : Type 0 where
  strict lax unset : SameSite

pub record AuthConfig : Type 0 where
  pub enabled : Bool
  pub rx_passphrase : Option (List ℕ)
  pub control_passphrase : Option (List ℕ)
  pub tx_access_control_enabled : Bool
  pub session_ttl : ℕ
  pub cookie_secure : Bool
  pub cookie_same_site : SameSite

differences : ℕ → List ℕ → List ℕ → ℕ
differences result [] ys = result
differences result (x ∷ xs) [] = result
differences result (x ∷ xs) (y ∷ ys) = differences (bit_or result (bit_xor x y)) xs ys

unfoldable pub constant_time_eq : List ℕ → List ℕ → Bool
unfolding differences
constant_time_eq a b = if not (length a == length b) then false else differences 0 a b == 0

-- the test of one of the two passphrases
matches : List ℕ → Option (List ℕ) → Bool
matches passphrase none = false
matches passphrase (some pass) = constant_time_eq passphrase pass

unfoldable pub check_passphrase : AuthConfig → List ℕ → Option AuthRole
unfolding matches
check_passphrase config passphrase =
    if matches passphrase config.control_passphrase
    then some control
    else if matches passphrase config.rx_passphrase
    then some rx
    else none
