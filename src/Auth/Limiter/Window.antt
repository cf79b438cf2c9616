-- ===== src/Auth/Limiter/Window.antt =====
-- One check of the limiter, for its address and for the others.
use text.Mathlib.Text.{◌==◌}
use text.Mathlib.TextPositions.{eq_refl}
use trx_rs.Common.{ℕ, ◌+◌, ◌≤◌, String, true, false, some, leb, if◌then◌else◌, ◌≡◌, refl, arith}
use trx_rs.Auth.Limiter.{LoginRateLimiter, check_entry, check, reset}

pub check-here :
    (ip : String) (now : ℕ) (l : LoginRateLimiter)
    → (check ip now l).1.attempts ip
      ≡ some (check_entry l.max_attempts l.window now (l.attempts ip)).1
unfolding check
check-here ip now l = rw (eq_refl ip) refl

pub check-apart :
    (who ip : String) (now : ℕ) (l : LoginRateLimiter)
    → (who == ip) ≡ false
    → (check who now l).1.attempts ip ≡ l.attempts ip
unfolding check
check-apart who ip now l apart = rw apart refl

-- within the window, the next attempt is allowed below the maximum
pub entry_in_window :
    (who ip : String) (now : ℕ) (l : LoginRateLimiter) (count start : ℕ)
    → who ≡ ip
    → l.attempts ip ≡ some (count, start)
    → now ≤ start + l.window
    → check_entry l.max_attempts l.window now (l.attempts who)
      ≡ (if leb l.max_attempts count then (false, (count, start)) else (true, (count + 1, start)))
entry_in_window who ip now l count start w e h = rw (w, e) (ground arith)

pub check-at :
    (who ip : String) (now : ℕ) (l : LoginRateLimiter)
    → who ≡ ip
    → (check who now l).1.attempts ip
      ≡ some (check_entry l.max_attempts l.window now (l.attempts who)).1
check-at who ip now l w = rw w (check-here ip now l)

pub check-answer :
    (who : String) (now : ℕ) (l : LoginRateLimiter)
    → (check who now l).0 ≡ (check_entry l.max_attempts l.window now (l.attempts who)).0
unfolding check
check-answer who now l = refl

pub reset-apart :
    (who ip : String) (l : LoginRateLimiter)
    → (who == ip) ≡ false
    → (reset who l).attempts ip ≡ l.attempts ip
unfolding reset
reset-apart who ip l apart = rw apart refl

-- the limits never change
abbrev pub SameLimits : LoginRateLimiter → LoginRateLimiter → Type 0
SameLimits l l' = (l.max_attempts ≡ l'.max_attempts) × (l.window ≡ l'.window)

pub check-SameLimits :
    (ip : String) (now : ℕ) (l : LoginRateLimiter) → SameLimits (check ip now l).1 l
unfolding check
check-SameLimits ip now l = (refl, refl)

pub reset-SameLimits : (ip : String) (l : LoginRateLimiter) → SameLimits (reset ip l) l
unfolding reset
reset-SameLimits ip l = (refl, refl)
