-- ===== src/Auth/Limiter.antt =====
-- `LoginRateLimiter`.
pub mod Window
use trx_rs.Common.{
  ℕ, ◌+◌, ◌-◌, String, Bool, true, false, Option, none, some, ltb, leb, if◌then◌else◌,
}
use trx_rs.Auth.Dict.{empty, insert, remove}

-- the count of attempts (u32) and the start of the window of an address
pub record LoginRateLimiter : Type 0 where
  pub attempts : String → Option (ℕ × ℕ)
  pub max_attempts : ℕ
  pub window : ℕ

abbrev pub new : ℕ → ℕ → LoginRateLimiter
new max_attempts window = record { attempts = empty; max_attempts = max_attempts; window = window }

-- the answer, and what stands for the address then; `duration_since` is 0 for a later start
abbrev pub check_entry : ℕ → ℕ → ℕ → Option (ℕ × ℕ) → Bool × (ℕ × ℕ)
check_entry max_attempts window now none = (true, (1, now))
check_entry max_attempts window now (some (count, window_start)) =
    if ltb window (now - window_start)
    then (true, (1, now))
    else if leb max_attempts count
    then (false, (count, window_start))
    else (true, (count + 1, window_start))

unfoldable pub check : String → ℕ → LoginRateLimiter → Bool × LoginRateLimiter
check ip now l =
    let answer = check_entry l.max_attempts l.window now (l.attempts ip) in
    (answer.0, record l { attempts = insert ip answer.1 l.attempts })

unfoldable pub reset : String → LoginRateLimiter → LoginRateLimiter
reset ip l = record l { attempts = remove ip l.attempts }
