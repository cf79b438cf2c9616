-- ===== src/Auth/Endpoints/Attempts.antt =====
-- How many of the login attempts of one address come past the limiter (`login` of
-- src/trx-client/trx-frontend/trx-frontend-http/src/auth.rs).
use mathlib.Core.Path.{subst}
use text.Mathlib.Text.{◌==◌}
use text.Mathlib.TextEquality.{eq_iff}
use trx_rs.Common.{
  ℕ, ◌+◌, ◌-◌, ◌≤◌, min, ◌&&◌, String, Bool, true, false, Option, none, some, List, [], ◌∷◌, leb,
  if◌then◌else◌, ◌≡◌, ◌⊎◌, refl, sym, ap, ◌∙◌, inl, inr, arith, Bool-cases,
}
use trx_rs.Auth.Passphrase.{AuthRole, AuthConfig, check_passphrase}
use trx_rs.Auth.Limiter.{LoginRateLimiter, check_entry}
use trx_rs.Auth.Limiter.Window.{check-at, check-answer}
use trx_rs.Auth.Endpoints.{AuthState}
use trx_rs.Auth.Endpoints.Attempt.{
  Attempt, try_login, is_heard, try_login-Tried, try_login-apart, try_login-fails, failed_entry,
}

-- the attempts of an address among attempts of many, and how many of them are heard
unfoldable pub tries : String → List Attempt → ℕ
tries ip [] = 0
tries ip (a ∷ more) = let n = tries ip more in if a.peer_ip == ip then n + 1 else n

unfoldable pub heard : String → List Attempt → AuthState → ℕ
heard ip [] s = 0
heard ip (a ∷ more) s =
    let n = heard ip more (try_login a s).1 in
    if a.peer_ip == ip && is_heard (try_login a s).0 then n + 1 else n

abbrev pub AllBefore : ℕ → List Attempt → Type 0
AllBefore bound [] = Unit
AllBefore bound (a ∷ rest) = (a.instant ≤ bound) × AllBefore bound rest

-- every attempt is of another address or has a passphrase that gives no role
abbrev pub NoneSucceeds : String → AuthConfig → List Attempt → Type 0
NoneSucceeds ip config [] = Unit
NoneSucceeds ip config (a ∷ rest) =
    (((a.peer_ip == ip) ≡ false) ⊎ (check_passphrase config a.passphrase ≡ none))
    × NoneSucceeds ip config rest

failing : (q : Bool) (o : Option AuthRole) → q ≡ true → ((q ≡ false) ⊎ (o ≡ none)) → o ≡ none
failing q o h (inl p) = ground (arith, h, p)
failing q o h (inr p) = p

-- the first check of an address
opened :
    (who ip : String) (now : ℕ) (l : LoginRateLimiter)
    → who ≡ ip
    → l.attempts ip ≡ none
    → check_entry l.max_attempts l.window now (l.attempts who) ≡ (true, (1, now))
opened who ip now l here e = rw (here, e) refl

heard_in_window :
    (ip : String) (attempts : List Attempt) (s : AuthState) (count start : ℕ)
    → s.config.enabled ≡ true
    → s.rate_limiter.attempts ip ≡ some (count, start)
    → AllBefore (start + s.rate_limiter.window) attempts
    → NoneSucceeds ip s.config attempts
    → heard ip attempts s ≡ min (tries ip attempts) (s.rate_limiter.max_attempts - count)
unfolding heard tries
heard_in_window ip [] s count start on e v f = omega arith
heard_in_window ip (a ∷ attempts) s count start on e v f =
    let s' = (try_login a s).1 in
    let t = try_login-Tried a s on in
    let on' = ap (λ c. c.enabled) t.1 ∙ on in
    let v' : AllBefore (start + s'.rate_limiter.window) attempts =
      subst (λ w. AllBefore (start + w) attempts) (sym t.2.1) v.1 in
    let f' : NoneSucceeds ip s'.config attempts =
      subst (λ c. NoneSucceeds ip c attempts) (sym t.1) f.1 in
    let next : (n : ℕ)
        → s'.rate_limiter.attempts ip ≡ some (n, start)
        → heard ip attempts s' ≡ min (tries ip attempts) (s'.rate_limiter.max_attempts - n) =
      λ n e'. heard_in_window ip attempts s' n start on' e' v' f' in
    elim (Bool-cases (a.peer_ip == ip)) [
      | inl same ↦
          let bad = failing (a.peer_ip == ip) _ same f.0 in
          let here : a.peer_ip ≡ ip = (eq_iff a.peer_ip ip).0 same in
          let entry = failed_entry a ip s count start on bad here e v.0 in
          elim (Bool-cases (leb s.rate_limiter.max_attempts count)) [
            | inl full ↦
                let law = rw full at entry in
                ground (arith, same, full, law.0, next count law.1, t.2.0)
            | inr room ↦
                let law = rw room at entry in
                ground (arith, same, room, law.0, next (count + 1) law.1, t.2.0)
          ]
      | inr apart ↦ ground (arith, apart, next count (try_login-apart a ip s on apart ∙ e), t.2.0)
    ]

-- With authentication enabled, for an address that has no entry in the limiter, among any logins
-- of any addresses at times up to the end of the window that the first login of the address
-- opens, and where no login of that address has a passphrase that gives a role, exactly the first
-- login of the address and up to max_attempts - 1 later ones get as far as the passphrase; the
-- logins of others may succeed.
pub heard_exactly :
    (ip : String) (first : Attempt) (attempts : List Attempt) (s : AuthState)
    → s.config.enabled ≡ true
    → first.peer_ip ≡ ip
    → s.rate_limiter.attempts ip ≡ none
    → NoneSucceeds ip s.config (first ∷ attempts)
    → AllBefore (first.instant + s.rate_limiter.window) attempts
    → heard ip (first ∷ attempts) s ≡ 1 + min (tries ip attempts) (s.rate_limiter.max_attempts - 1)
unfolding heard
heard_exactly ip first attempts s on here e f v =
    let s' = (try_login first s).1 in
    let l = s.rate_limiter in
    let t = try_login-Tried first s on in
    let same : (first.peer_ip == ip) ≡ true = (eq_iff first.peer_ip ip).1 here in
    let bad = failing (first.peer_ip == ip) _ same f.0 in
    let entry = opened first.peer_ip ip first.instant l here e in
    let answer = t.0 ∙ check-answer first.peer_ip first.instant l ∙ ap (λ x. x.0) entry in
    let stored =
      ap (λ m. m.attempts ip) (try_login-fails first s on bad)
      ∙ check-at first.peer_ip ip first.instant l here
      ∙ ap (λ x. some x.1) entry in
    let later =
      heard_in_window ip attempts s' 1 first.instant (ap (λ c. c.enabled) t.1 ∙ on) stored
        (subst (λ w. AllBefore (first.instant + w) attempts) (sym t.2.1) v)
        (subst (λ c. NoneSucceeds ip c attempts) (sym t.1) f.1) in
    ground (arith, same, answer, later, t.2.0)
