-- ===== src/Examples/Auth.antt =====
-- The theorems on the authentication at concrete inputs.
use trx_rs.Common.{
  ℕ, ◌+◌, ◌-◌, min, true, Option, none, some, List, [], ◌∷◌, ltb, if◌then◌else◌, ◌≡◌, refl, arith,
  inl, inr,
}
use trx_rs.Auth.Passphrase.{rx, control, lax, AuthConfig, constant_time_eq, check_passphrase}
use trx_rs.Auth.Passphrase.Compare.{check_passphrase_iff}
use trx_rs.Auth.Session.{SessionStore, new_store, create}
use trx_rs.Auth.Session.Lifetime.{role_at, role_at-create}
use trx_rs.Auth.Limiter.{check}
use trx_rs.Auth.Endpoints.Attempt.{Attempt}
use trx_rs.Auth.Endpoints.Attempts.{NoneSucceeds, tries, heard, heard_exactly}
use trx_rs.Auth.Routes.{RouteAccess, from_path}
use trx_rs.Auth.Endpoints.{AuthState, new_state, served, login, call, is_none}
use trx_rs.Auth.Endpoints.Requests.{Request, post_login, post_logout, other, run}
use trx_rs.Auth.Endpoints.Safety.{call-run}
use trx_rs.Auth.Endpoints.Login.{verdict, call-login}

abbrev listen : List ℕ
listen = b'r' ∷ b'x' ∷ []

abbrev operate : List ℕ
operate = b't' ∷ b'x' ∷ []

abbrev config : AuthConfig
config = record {
  enabled = true;
  rx_passphrase = some listen;
  control_passphrase = some operate;
  tx_access_control_enabled = true;
  session_ttl = 3600;
  cookie_secure = true;
  cookie_same_site = lax;
}

abbrev store : SessionStore
store = create "a" rx 60 100 new_store

abbrev requests : List Request
requests =
    post_login "10.0.0.1" listen 5 1000 "a"
    ∷ other "/status" (some "a") 1001
    ∷ post_logout none
    ∷ []

-- the passphrases differ
listen-operate : ¬ (◌≡◌ {A = Option (List ℕ)} (some operate) (some listen))
listen-operate = ground arith

role_at-create_example : role_at "a" 160 (create "a" rx 60 100 new_store) ≡ some rx
role_at-create_example = role_at-create "a" rx 60 100 160 new_store

abbrev wrong : List ℕ
wrong = b'n' ∷ b'o' ∷ []

-- one attempt at a second, from "a" with a wrong passphrase or from "b" with the right one
abbrev failed_at : ℕ → Attempt
failed_at t = record {
  peer_ip = "a";
  passphrase = wrong;
  instant = t;
  now = 1_000 + t;
  session_id = "s";
}

abbrev entered_at : ℕ → Attempt
entered_at t = record {
  peer_ip = "b";
  passphrase = operate;
  instant = t;
  now = 1_000 + t;
  session_id = "t";
}

abbrev attempts : List Attempt
attempts = entered_at 1 ∷ failed_at 2 ∷ failed_at 3 ∷ []

wrong_passphrase : check_passphrase config wrong ≡ none
unfolding check_passphrase constant_time_eq
wrong_passphrase = refl

none_succeeds : NoneSucceeds "a" config (failed_at 0 ∷ attempts)
none_succeeds =
    (inr wrong_passphrase, (inl refl, (inr wrong_passphrase, (inr wrong_passphrase, tt))))

heard_exactly_example :
    heard "a" (failed_at 0 ∷ attempts) (new_state config) ≡ 1 + min (tries "a" attempts) (10 - 1)
heard_exactly_example =
    heard_exactly "a" (failed_at 0) attempts (new_state config) refl refl refl none_succeeds
      (omega arith, (omega arith, (omega arith, tt)))

set_freq-control : from_path "/set_freq" ≡ RouteAccess.control
unfolding from_path
set_freq-control = refl

call-run_example :
    ¬ ((call "/set_freq" (some "a") 1002 (run requests (new_state config))).0 ≡ served)
call-run_example =
    call-run config requests "/set_freq" (some "a") 1002 refl (listen-operate, tt) set_freq-control

let_in : (check "10.0.0.1" 5 (new_state config).rate_limiter).0 ≡ true
unfolding check
let_in = refl

operate-control : check_passphrase config operate ≡ some control
operate-control = (check_passphrase_iff config operate).0.1 refl

call-login_example :
    (call "/set_freq" (some "a") 2000 (login "10.0.0.1" operate 5 1000 "a" (new_state config)).1).0
    ≡ verdict
        (from_path "/set_freq")
        (if ltb (1000 + 3600) 2000 then none else some control)
        (is_none config.rx_passphrase)
call-login_example =
    call-login "10.0.0.1" operate 5 1000 "a" (new_state config) control "/set_freq" 2000 refl let_in
      operate-control

abbrev with_session : AuthState
with_session = record (new_state config) { store = store }
