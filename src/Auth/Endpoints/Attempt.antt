-- ===== src/Auth/Endpoints/Attempt.antt =====
-- One login attempt and the limiter (`login` of
-- src/trx-client/trx-frontend/trx-frontend-http/src/auth.rs).
use text.Mathlib.Text.{◌==◌}
use trx_rs.Common.{
  ℕ, ◌+◌, ◌≤◌, String, Bool, true, false, Option, none, some, List, leb, if◌then◌else◌, ◌≡◌, refl,
  ap, ◌∙◌, inl, inr, Bool-cases,
}
use trx_rs.Auth.Passphrase.{AuthRole, check_passphrase}
use trx_rs.Auth.Limiter.{check}
use trx_rs.Auth.Limiter.Window.{
  check-apart, entry_in_window, check-at, check-answer, reset-apart, SameLimits, check-SameLimits,
  reset-SameLimits,
}
use trx_rs.Auth.Endpoints.{
  AuthState, LoginResult, not_found, too_many_requests, logged_in, login_as, login,
}

-- what `login` is given, the identifier drawn for a session included
pub record Attempt : Type 0 where
  pub peer_ip : String
  pub passphrase : List ℕ
  pub instant : ℕ
  pub now : ℕ
  pub session_id : String

unfoldable pub try_login : Attempt → AuthState → LoginResult × AuthState
try_login a s = login a.peer_ip a.passphrase a.instant a.now a.session_id s

-- the passphrase has been looked at
abbrev pub is_heard : LoginResult → Bool
is_heard not_found = false
is_heard too_many_requests = false
is_heard LoginResult.unauthorized = true
is_heard (logged_in c r) = true

-- one attempt: the answer, the configuration, and the limits
abbrev pub Tried : Bool → AuthState → LoginResult × AuthState → Type 0
Tried room s r =
    (is_heard r.0 ≡ room) × (r.1.config ≡ s.config) × SameLimits r.1.rate_limiter s.rate_limiter

login_as-Tried :
    (ip : String) (now : ℕ) (sid : String) (s : AuthState) (o : Option AuthRole)
    → Tried true s (login_as ip now sid s o)
unfolding login_as
login_as-Tried ip now sid s none = (refl, refl, (refl, refl))
login_as-Tried ip now sid s (some role) =
    let same = reset-SameLimits ip s.rate_limiter in (refl, refl, same)

pub try_login-Tried :
    (a : Attempt) (s : AuthState)
    → s.config.enabled ≡ true
    → Tried (check a.peer_ip a.instant s.rate_limiter).0 s (try_login a s)
unfolding try_login login
try_login-Tried a s on =
    let limited = check a.peer_ip a.instant s.rate_limiter in
    let s' : AuthState = record s { rate_limiter = limited.1 } in
    let same = check-SameLimits a.peer_ip a.instant s.rate_limiter in
    elim (Bool-cases limited.0) [
      | inl room ↦
          let t =
            login_as-Tried a.peer_ip a.now a.session_id s'
              (check_passphrase s.config a.passphrase) in
          simp (on, room) (t.0, t.1, (t.2.0 ∙ same.0, t.2.1 ∙ same.1))
      | inr full ↦ simp (on, full) (refl, refl, same)
    ]

login_as-apart :
    (who ip : String) (now : ℕ) (sid : String) (s : AuthState) (o : Option AuthRole)
    → (who == ip) ≡ false
    → (login_as who now sid s o).1.rate_limiter.attempts ip ≡ s.rate_limiter.attempts ip
unfolding login_as
login_as-apart who ip now sid s none apart = refl
login_as-apart who ip now sid s (some role) apart = reset-apart who ip s.rate_limiter apart

pub try_login-apart :
    (a : Attempt) (ip : String) (s : AuthState)
    → s.config.enabled ≡ true
    → (a.peer_ip == ip) ≡ false
    → (try_login a s).1.rate_limiter.attempts ip ≡ s.rate_limiter.attempts ip
unfolding try_login login
try_login-apart a ip s on apart =
    let limited = check a.peer_ip a.instant s.rate_limiter in
    let s' : AuthState = record s { rate_limiter = limited.1 } in
    let kept = check-apart a.peer_ip ip a.instant s.rate_limiter apart in
    elim (Bool-cases limited.0) [
      | inl room ↦
          simp (on, room)
            (login_as-apart a.peer_ip ip a.now a.session_id s'
                (check_passphrase s.config a.passphrase) apart
              ∙ kept)
      | inr full ↦ simp (on, full) kept
    ]

pub try_login-fails :
    (a : Attempt) (s : AuthState)
    → s.config.enabled ≡ true
    → check_passphrase s.config a.passphrase ≡ none
    → (try_login a s).1.rate_limiter ≡ (check a.peer_ip a.instant s.rate_limiter).1
unfolding try_login login login_as
try_login-fails a s on bad = elim (Bool-cases (check a.peer_ip a.instant s.rate_limiter).0) [
  | inl room ↦ simp (on, room, bad) refl
  | inr full ↦ simp (on, full) refl
]

-- after a failure in the window, the entry counts one more, up to the maximum
pub failed_entry :
    (a : Attempt) (ip : String) (s : AuthState) (count start : ℕ)
    → s.config.enabled ≡ true
    → check_passphrase s.config a.passphrase ≡ none
    → a.peer_ip ≡ ip
    → s.rate_limiter.attempts ip ≡ some (count, start)
    → a.instant ≤ start + s.rate_limiter.window
    → let full = leb s.rate_limiter.max_attempts count in
      (is_heard (try_login a s).0 ≡ (if full then false else true))
      × ((try_login a s).1.rate_limiter.attempts ip
          ≡ some ((if full then count else count + 1), start))
failed_entry a ip s count start on bad here e early =
    let l = s.rate_limiter in
    let entry = entry_in_window a.peer_ip ip a.instant l count start here e early in
    let answer =
      (try_login-Tried a s on).0 ∙ check-answer a.peer_ip a.instant l ∙ ap (λ x. x.0) entry in
    let next =
      ap (λ m. m.attempts ip) (try_login-fails a s on bad)
      ∙ check-at a.peer_ip ip a.instant l here
      ∙ ap (λ x. some x.1) entry in
    elim (Bool-cases (leb l.max_attempts count)) [
      | inl full ↦ rw full (rw full at answer, rw full at next)
      | inr room ↦ rw room (rw room at answer, rw room at next)
    ]
