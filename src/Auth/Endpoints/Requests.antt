-- ===== src/Auth/Endpoints/Requests.antt =====
-- The requests of many clients in the order in which they are served.
use trx_rs.Common.{ℕ, String, Option, some, List, [], ◌∷◌, ◌≡◌}
use trx_rs.Auth.Endpoints.{AuthState, login, logout, session_status, call}

-- the requests that reach the server, with the clocks at each
pub data Request : Type 0 where
  post_login : String → List ℕ → ℕ → ℕ → String → Request
  post_logout : Option String → Request
  get_session : Option String → ℕ → Request
  other : String → Option String → ℕ → Request

unfoldable pub perform : Request → AuthState → AuthState
perform (post_login ip p instant now sid) s = (login ip p instant now sid s).1
perform (post_logout cookie) s = (logout cookie s).1
perform (get_session cookie now) s = (session_status cookie now s).1
perform (other path cookie now) s = (call path cookie now s).1

unfoldable pub run : List Request → AuthState → AuthState
run [] s = s
run (r ∷ rs) s = run rs (perform r s)

-- no request logs in with the control passphrase
abbrev pub NoneKnows : Option (List ℕ) → List Request → Type 0
NoneKnows pass [] = Unit
NoneKnows pass (post_login ip p instant now sid ∷ rs) = ¬ (pass ≡ some p) × NoneKnows pass rs
NoneKnows pass (post_logout cookie ∷ rs) = NoneKnows pass rs
NoneKnows pass (get_session cookie now ∷ rs) = NoneKnows pass rs
NoneKnows pass (other path cookie now ∷ rs) = NoneKnows pass rs
