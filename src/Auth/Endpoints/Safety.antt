-- ===== src/Auth/Endpoints/Safety.antt =====
-- About sequences of requests and the routes that control the rig.
use text.Mathlib.Text.{◌==◌}
use trx_rs.Common.{
  ℕ, String, Bool, true, false, not, ◌&&◌, Option, none, some, List, [], ◌∷◌, ltb, if◌then◌else◌,
  ◌≡◌, refl, ap, sym, ◌∙◌, inl, inr, arith, Bool-cases, Option-cases,
}
use trx_rs.Auth.Passphrase.{AuthRole, rx, control, AuthConfig, check_passphrase}
use trx_rs.Auth.Passphrase.Compare.{check_passphrase_iff}
use trx_rs.Auth.Session.{SessionRecord, SessionStore, create, get, remove_session}
use trx_rs.Auth.Routes.{RouteAccess, from_path, allows}
use trx_rs.Auth.Limiter.{check}
use trx_rs.Auth.Endpoints.Requests.{
  Request, post_login, post_logout, get_session, other, perform, run, NoneKnows,
}
use trx_rs.Auth.Endpoints.{
  AuthState, served, login_as, login, remove_cookie, logout, role_of, cookie_role, get_session_role,
  session_status, call, is_public, is_read, is_none, answer, not_found, too_many_requests,
  new_state,
}

abbrev IsWeak : Option SessionRecord → Type 0
IsWeak none = Unit
IsWeak (some r) = r.role ≡ rx

-- no session has control
abbrev AllWeak : SessionStore → Type 0
AllWeak store = (sid : String) → IsWeak (store sid)

get-AllWeak :
    (sid : String) (now : ℕ) (store : SessionStore) → AllWeak store → AllWeak (get sid now store).1
unfolding get
get-AllWeak sid now store weak k = elim (Option-cases (store sid)) [
  | inl p ↦ rw p (weak k)
  | inr (r, p) ↦
      let role : IsWeak (some r) = rw p at (weak sid) in
      elim (Bool-cases (ltb r.expires_at now)) [
        | inl late ↦ elim (Bool-cases (sid == k)) [
          | inl same ↦ rw (p, late, same) tt
          | inr apart ↦ rw (p, late, apart) (weak k)
        ]
        | inr alive ↦ elim (Bool-cases (sid == k)) [
          | inl same ↦ rw (p, alive, same) role
          | inr apart ↦ rw (p, alive, apart) (weak k)
        ]
      ]
]

create-AllWeak :
    (sid : String) (ttl now : ℕ) (store : SessionStore)
    → AllWeak store
    → AllWeak (create sid rx ttl now store)
unfolding create
create-AllWeak sid ttl now store weak k = elim (Bool-cases (sid == k)) [
  | inl same ↦ rw same refl
  | inr apart ↦ rw apart (weak k)
]

remove_session-AllWeak :
    (sid : String) (store : SessionStore) → AllWeak store → AllWeak (remove_session sid store)
unfolding remove_session
remove_session-AllWeak sid store weak k = elim (Bool-cases (sid == k)) [
  | inl same ↦ rw same tt
  | inr apart ↦ rw apart (weak k)
]

cookie_role-AllWeak :
    (cookie : Option String) (now : ℕ) (store : SessionStore)
    → AllWeak store
    → AllWeak (cookie_role cookie now store).1
unfolding cookie_role
cookie_role-AllWeak none now store weak = weak
cookie_role-AllWeak (some sid) now store weak = get-AllWeak sid now store weak

remove_cookie-AllWeak :
    (cookie : Option String) (store : SessionStore)
    → AllWeak store
    → AllWeak (remove_cookie cookie store)
unfolding remove_cookie
remove_cookie-AllWeak none store weak = weak
remove_cookie-AllWeak (some sid) store weak = remove_session-AllWeak sid store weak

-- the configuration stays, and no session has control
abbrev IsGuarded : AuthConfig → AuthState → Type 0
IsGuarded c s = (s.config ≡ c) × AllWeak s.store

if-IsGuarded {ℓ} :
    {A : Type ℓ} (c : AuthConfig) (b : Bool) (x y : A × AuthState)
    → IsGuarded c x.1
    → IsGuarded c y.1
    → IsGuarded c (if b then x else y).1
if-IsGuarded c true x y v w = v
if-IsGuarded c false x y v w = w

login_as-IsGuarded :
    (c : AuthConfig) (ip : String) (now : ℕ) (sid : String) (s : AuthState) (role : Option AuthRole)
    → ¬ (role ≡ some control)
    → IsGuarded c s
    → IsGuarded c (login_as ip now sid s role).1
unfolding login_as
login_as-IsGuarded c ip now sid s none h g = g
login_as-IsGuarded c ip now sid s (some rx) h g =
    (g.0, create-AllWeak sid s.config.session_ttl now s.store g.1)
login_as-IsGuarded c ip now sid s (some control) h g = absurd (h refl)

login-IsGuarded :
    (c : AuthConfig) (ip : String) (p : List ℕ) (instant now : ℕ) (sid : String) (s : AuthState)
    → ¬ (c.control_passphrase ≡ some p)
    → IsGuarded c s
    → IsGuarded c (login ip p instant now sid s).1
unfolding login
login-IsGuarded c ip p instant now sid s h g =
    let s' = record s { rate_limiter = (check ip instant s.rate_limiter).1 } in
    let role-weak : ¬ (check_passphrase s.config p ≡ some control) =
      λ e. h (ap (λ c. c.control_passphrase) (sym g.0) ∙ (check_passphrase_iff s.config p).0.0 e) in
    if-IsGuarded c (not s.config.enabled) (not_found, s) _ g
      (if-IsGuarded c (not (check ip instant s.rate_limiter).0) (too_many_requests, s') _ g
        (login_as-IsGuarded c ip now sid s' (check_passphrase s.config p) role-weak g))

call-IsGuarded :
    (c : AuthConfig) (path : String) (cookie : Option String) (now : ℕ) (s : AuthState)
    → IsGuarded c s
    → IsGuarded c (call path cookie now s).1
unfolding call answer get_session_role
call-IsGuarded c path cookie now s g =
    let after : IsGuarded c (get_session_role cookie now s).1 =
      (g.0, cookie_role-AllWeak cookie now s.store g.1) in
    if-IsGuarded c (is_public (from_path path)) _ _ g (
      if-IsGuarded c (not s.config.enabled) _ _ g (
        if-IsGuarded c (is_read (from_path path) && is_none s.config.rx_passphrase) _ _ after (
          if-IsGuarded c (not (allows (from_path path) (cookie_role cookie now s.store).0)) _ _
            (if-IsGuarded c (not (is_none (cookie_role cookie now s.store).0)) _ _ after
              (if-IsGuarded c (is_none s.config.rx_passphrase) _ _ after after))
            after)))

perform-IsGuarded :
    (c : AuthConfig) (r : Request) (rs : List Request) (s : AuthState)
    → NoneKnows c.control_passphrase (r ∷ rs)
    → IsGuarded c s
    → IsGuarded c (perform r s)
unfolding perform logout session_status get_session_role
perform-IsGuarded c (post_login ip p instant now sid) rs s h g =
    login-IsGuarded c ip p instant now sid s h.0 g
perform-IsGuarded c (post_logout cookie) rs s h g =
    if-IsGuarded c (not s.config.enabled) (false, s) _ g
      (g.0, remove_cookie-AllWeak cookie s.store g.1)
perform-IsGuarded c (get_session cookie now) rs s h g =
    if-IsGuarded c (not s.config.enabled) _ _ g (g.0, cookie_role-AllWeak cookie now s.store g.1)
perform-IsGuarded c (other path cookie now) rs s h g = call-IsGuarded c path cookie now s g

rest-NoneKnows :
    (pass : Option (List ℕ)) (r : Request) (rs : List Request)
    → NoneKnows pass (r ∷ rs)
    → NoneKnows pass rs
rest-NoneKnows pass (post_login ip p instant now sid) rs h = h.1
rest-NoneKnows pass (post_logout cookie) rs h = h
rest-NoneKnows pass (get_session cookie now) rs h = h
rest-NoneKnows pass (other path cookie now) rs h = h

run-IsGuarded :
    (c : AuthConfig) (rs : List Request) (s : AuthState)
    → NoneKnows c.control_passphrase rs
    → IsGuarded c s
    → IsGuarded c (run rs s)
unfolding run
run-IsGuarded c [] s h g = g
run-IsGuarded c (r ∷ rs) s h g =
    run-IsGuarded c rs (perform r s) (rest-NoneKnows c.control_passphrase r rs h)
      (perform-IsGuarded c r rs s h g)

weak_role :
    (cookie : Option String) (now : ℕ) (store : SessionStore)
    → AllWeak store
    → allows RouteAccess.control (cookie_role cookie now store).0 ≡ false
unfolding cookie_role get role_of allows
weak_role none now store weak = refl
weak_role (some sid) now store weak = elim (Option-cases (store sid)) [
  | inl p ↦ rw p refl
  | inr (r, p) ↦
      let role : IsWeak (some r) = rw p at (weak sid) in
      elim (Bool-cases (ltb r.expires_at now)) [
        | inl late ↦ rw (p, late) refl
        | inr alive ↦ rw (p, alive, role) refl
      ]
]

-- a weak store never lets a request through to a route for control
denied :
    (path : String) (cookie : Option String) (now : ℕ) (s : AuthState)
    → s.config.enabled ≡ true
    → from_path path ≡ RouteAccess.control
    → AllWeak s.store
    → ¬ ((call path cookie now s).0 ≡ served)
unfolding call answer get_session_role is_public is_read
denied path cookie now s on route weak =
    let no = weak_role cookie now s.store weak in
    let no' : allows (from_path path) (cookie_role cookie now s.store).0 ≡ false = rw route no in
    ground (arith, on, route, no')

-- With authentication enabled and from a fresh state, whatever requests have been served, if none
-- of them was a login with the control passphrase then a request for a route that needs control
-- is not served.
pub call-run :
    (c : AuthConfig) (rs : List Request) (path : String) (cookie : Option String) (now : ℕ)
    → c.enabled ≡ true
    → NoneKnows c.control_passphrase rs
    → from_path path ≡ RouteAccess.control
    → ¬ ((call path cookie now (run rs (new_state c))).0 ≡ served)
call-run c rs path cookie now on h route =
    let g = run-IsGuarded c rs (new_state c) h (refl, λ sid. tt) in
    denied path cookie now (run rs (new_state c)) (ap (λ c. c.enabled) g.0 ∙ on) route g.1
