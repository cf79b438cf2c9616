-- ===== src/Auth/Endpoints/Login.antt =====
-- About the middleware after `login` and after `logout`.
use trx_rs.Common.{
  ℕ, ◌+◌, String, Bool, true, false, Option, none, some, List, ltb, if◌then◌else◌, ◌≡◌, refl, ap,
  ◌∙◌, arith,
}
use mathlib.Core.Option.{map}
use trx_rs.Auth.Passphrase.{AuthRole, rx, control, check_passphrase}
use trx_rs.Auth.Session.{SessionRecord, create, remove_session, get}
use trx_rs.Auth.Session.Lifetime.{role_at, role_at-create, role_at-remove_session}
use trx_rs.Auth.Routes.{RouteAccess, from_path, allows}
use trx_rs.Auth.Limiter.{check}
use trx_rs.Auth.Endpoints.{
  AuthState, Verdict, served, forbidden, login_as, login, remove_cookie, logout, role_of,
  cookie_role, get_session_role, call, is_public, is_read, is_none, answer,
}

-- what the manual promises: by the route, the role of the session and whether reading is free
pub verdict : RouteAccess → Option AuthRole → Bool → Verdict
verdict RouteAccess.public role open_read = served
verdict RouteAccess.read (some role) open_read = served
verdict RouteAccess.read none true = served
verdict RouteAccess.read none false = Verdict.unauthorized
verdict RouteAccess.control (some control) open_read = served
verdict RouteAccess.control (some rx) open_read = forbidden
verdict RouteAccess.control none true = forbidden
verdict RouteAccess.control none false = Verdict.unauthorized

-- the verdict of the middleware, at the access and the role
decide :
    (access : RouteAccess) (role : Option AuthRole) (open_read on : Bool) (s t : AuthState)
    → on ≡ true
    → (answer access on open_read s (role, t)).0 ≡ verdict access role open_read
unfolding answer is_public is_read allows verdict
decide RouteAccess.public role open_read on s t e = refl
decide RouteAccess.read (some role) open_read on s t e = ground (arith, e)
decide RouteAccess.read none open_read on s t e = ground (arith, e)
decide RouteAccess.control (some control) open_read on s t e = ground (arith, e)
decide RouteAccess.control (some rx) open_read on s t e = ground (arith, e)
decide RouteAccess.control none open_read on s t e = ground (arith, e)

role-map : (o : Option SessionRecord) → role_of o ≡ map (λ r. r.role) o
unfolding role_of
role-map none = refl
role-map (some r) = refl

call_lem :
    (path sid : String) (now : ℕ) (s : AuthState)
    → s.config.enabled ≡ true
    → (call path (some sid) now s).0
      ≡ verdict (from_path path) (role_at sid now s.store) (is_none s.config.rx_passphrase)
unfolding call get_session_role cookie_role role_at
call_lem path sid now s on =
    decide (from_path path) _ (is_none s.config.rx_passphrase) s.config.enabled s _ on
    ∙ ap (λ role. verdict (from_path path) role (is_none s.config.rx_passphrase))
        (role-map (get sid now s.store).0)

-- a login that is let in, with a passphrase that gives a role
login_lem :
    (ip : String) (p : List ℕ) (instant now : ℕ) (sid : String) (s : AuthState) (role : AuthRole)
    → s.config.enabled ≡ true
    → (check ip instant s.rate_limiter).0 ≡ true
    → check_passphrase s.config p ≡ some role
    → ((login ip p instant now sid s).1.store ≡ create sid role s.config.session_ttl now s.store)
      × ((login ip p instant now sid s).1.config ≡ s.config)
unfolding login login_as
login_lem ip p instant now sid s role on room known = simp (on, room, known) (refl, refl)

logout_lem :
    (sid : String) (s : AuthState)
    → s.config.enabled ≡ true
    → ((logout (some sid) s).1.store ≡ remove_session sid s.store)
      × ((logout (some sid) s).1.config ≡ s.config)
unfolding logout remove_cookie
logout_lem sid s on = simp on (refl, refl)

role_verdict :
    (path sid : String) (later : ℕ) (s t : AuthState) (role : Option AuthRole)
    → t.config ≡ s.config
    → s.config.enabled ≡ true
    → role_at sid later t.store ≡ role
    → (call path (some sid) later t).0
      ≡ verdict (from_path path) role (is_none s.config.rx_passphrase)
role_verdict path sid later s t role c on e =
    call_lem path sid later t (ap (λ c. c.enabled) c ∙ on)
    ∙ ap (λ r. verdict (from_path path) r (is_none t.config.rx_passphrase)) e
    ∙ ap (λ c. verdict (from_path path) role (is_none c.rx_passphrase)) c

-- With authentication enabled, after a login that the limiter lets in, with a passphrase that
-- gives a role, a request with the new cookie gets, while the session has not expired, what
-- `verdict` says for that role and the route, and later what it says without a role.
pub call-login :
    (ip : String) (p : List ℕ) (instant now : ℕ) (sid : String) (s : AuthState) (role : AuthRole)
    (path : String) (later : ℕ)
    → s.config.enabled ≡ true
    → (check ip instant s.rate_limiter).0 ≡ true
    → check_passphrase s.config p ≡ some role
    → (call path (some sid) later (login ip p instant now sid s).1).0
      ≡ verdict
          (from_path path)
          (if ltb (now + s.config.session_ttl) later then none else some role)
          (is_none s.config.rx_passphrase)
call-login ip p instant now sid s role path later on room known =
    let t = (login ip p instant now sid s).1 in
    let done = login_lem ip p instant now sid s role on room known in
    role_verdict path sid later s t _ done.1 on (
      ap (role_at sid later) done.0
      ∙ role_at-create sid role s.config.session_ttl now later s.store)

-- With authentication enabled, a request right after a logout with the same cookie gets what
-- `verdict` says without a role.
pub call-logout :
    (sid : String) (s : AuthState) (path : String) (later : ℕ)
    → s.config.enabled ≡ true
    → (call path (some sid) later (logout (some sid) s).1).0
      ≡ verdict (from_path path) none (is_none s.config.rx_passphrase)
call-logout sid s path later on =
    let t = (logout (some sid) s).1 in
    let done = logout_lem sid s on in
    role_verdict path sid later s t none done.1 on
      (ap (role_at sid later) done.0 ∙ role_at-remove_session sid later s.store)
