-- ===== src/Auth/Endpoints.antt =====
-- `AuthState`, the endpoints for login, logout and the session, and the middleware. A response is
-- its status with what the code puts in it; the service behind the middleware is not modelled, and
-- `served` says that the request is passed on to it.
pub mod Requests
pub mod Safety
pub mod Login
pub mod Attempt
pub mod Attempts
use trx_rs.Common.{ℕ, String, Bool, true, false, not, ◌&&◌, Option, none, some, List, if◌then◌else◌}
use trx_rs.Auth.Passphrase.{AuthRole, SameSite, AuthConfig, as_str, check_passphrase}
use trx_rs.Auth.Session.{SessionRecord, SessionStore, new_store, create, get, remove_session}
use trx_rs.Auth.Limiter.{LoginRateLimiter, new, check, reset}
use trx_rs.Auth.Routes.{RouteAccess, public, read, from_path, allows}

pub record AuthState : Type 0 where
  pub config : AuthConfig
  pub store : SessionStore
  pub rate_limiter : LoginRateLimiter

-- ten attempts in a minute, in seconds
abbrev pub new_state : AuthConfig → AuthState
new_state config = record { config = config; store = new_store; rate_limiter = new 10 60 }

pub record Cookie : Type 0 where
  pub value : String
  pub secure : Bool
  pub same_site : SameSite
  pub max_age : ℕ

pub data LoginResult : Type 0 where
  not_found too_many_requests unauthorized : LoginResult
  logged_in : Cookie → AuthRole → LoginResult

-- `login` behind the test of the passphrase
login_as : String → ℕ → String → AuthState → Option AuthRole → LoginResult × AuthState
login_as peer_ip now session_id s none = (unauthorized, s)
login_as peer_ip now session_id s (some role) = (
  logged_in
      (record {
        value = session_id;
        secure = s.config.cookie_secure;
        same_site = s.config.cookie_same_site;
        max_age = s.config.session_ttl;
      })
      role,
  record s {
    rate_limiter = reset peer_ip s.rate_limiter;
    store = create session_id role s.config.session_ttl now s.store;
  },
)

-- The two clocks of `login` are `instant`, for the limiter, and `now`, for the session.
unfoldable pub login : String → List ℕ → ℕ → ℕ → String → AuthState → LoginResult × AuthState
unfolding login_as
login peer_ip passphrase instant now session_id s =
    let limited = check peer_ip instant s.rate_limiter in
    let s' = record s { rate_limiter = limited.1 } in
    if not s.config.enabled
    then (not_found, s)
    else if not limited.0
    then (too_many_requests, s')
    else login_as peer_ip now session_id s' (check_passphrase s.config passphrase)

remove_cookie : Option String → SessionStore → SessionStore
remove_cookie none store = store
remove_cookie (some session_id) store = remove_session session_id store

-- whether the session was cleared, false for a page that is not found
unfoldable pub logout : Option String → AuthState → Bool × AuthState
unfolding remove_cookie
logout cookie s =
    if not s.config.enabled
    then (false, s)
    else (true, record s { store = remove_cookie cookie s.store })

role_of : Option SessionRecord → Option AuthRole
role_of none = none
role_of (some r) = some r.role

-- the role, and the store that `get` leaves
cookie_role : Option String → ℕ → SessionStore → Option AuthRole × SessionStore
cookie_role none now store = (none, store)
cookie_role (some session_id) now store =
    let found = get session_id now store in (role_of found.0, found.1)

unfoldable pub get_session_role : Option String → ℕ → AuthState → Option AuthRole × AuthState
unfolding cookie_role role_of
get_session_role cookie now s =
    let found = cookie_role cookie now s.store in (found.0, record s { store = found.1 })

pub record SessionStatus : Type 0 where
  pub authenticated : Bool
  pub role : Option String

status_of : AuthConfig → Option AuthRole → SessionStatus
status_of config (some role) = record { authenticated = true; role = some (as_str role) }
status_of config none = record {
  authenticated = false;
  role = elim config.rx_passphrase [ none ↦ some "rx" | some p ↦ none ];
}

unfoldable pub session_status : Option String → ℕ → AuthState → SessionStatus × AuthState
unfolding status_of
session_status cookie now s =
    let found = get_session_role cookie now s in
    if not s.config.enabled
    then (record { authenticated = true; role = some "control" }, s)
    else (status_of s.config found.0, found.1)

pub data Verdict : Type 0 where
  served forbidden unauthorized : Verdict

abbrev pub is_none {ℓ} : {A : Type ℓ} → Option A → Bool
is_none none = true
is_none (some a) = false

is_public : RouteAccess → Bool
is_public public = true
is_public read = false
is_public RouteAccess.control = false

is_read : RouteAccess → Bool
is_read public = false
is_read read = true
is_read RouteAccess.control = false

-- the middleware's branches, by the route, the configuration and what `get_session_role` gives
answer : RouteAccess → Bool → Bool → AuthState → Option AuthRole × AuthState → Verdict × AuthState
unfolding is_public is_read
answer access enabled allow_unrestricted_read s found =
    if is_public access
    then (served, s)
    else if not enabled
    then (served, s)
    else if is_read access && allow_unrestricted_read
    then (served, found.1)
    else if not (allows access found.0)
    then if not (is_none found.0)
      then (forbidden, found.1)
      else if allow_unrestricted_read
      then (forbidden, found.1)
      else (Verdict.unauthorized, found.1)
    else (served, found.1)

-- the middleware where the application has an `AuthState`; without one it serves everything
unfoldable pub call : String → Option String → ℕ → AuthState → Verdict × AuthState
unfolding answer
call path cookie now s =
    answer (from_path path) s.config.enabled (is_none s.config.rx_passphrase) s
      (get_session_role cookie now s)
