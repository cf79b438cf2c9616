-- ===== src/Auth/Session.antt =====
-- `SessionRecord` and `SessionStore`. Times count from the epoch; the source's clocks and lifetimes
-- are of a fixed width, and `create` would panic where the sum of the two leaves it.
pub mod Lifetime
use trx_rs.Common.{ℕ, ◌+◌, String, Bool, true, false, not, Option, none, some, ltb, if◌then◌else◌}
use trx_rs.Auth.Dict.{empty, insert, remove, retain}
use trx_rs.Auth.Passphrase.{AuthRole}

pub record SessionRecord : Type 0 where
  pub role : AuthRole
  pub issued_at : ℕ
  pub expires_at : ℕ
  pub last_seen : ℕ

abbrev pub SessionStore : Type 0
SessionStore = String → Option SessionRecord

abbrev pub is_expired : ℕ → SessionRecord → Bool
is_expired now r = ltb r.expires_at now

abbrev pub update_last_seen : ℕ → SessionRecord → SessionRecord
update_last_seen now r = record r { last_seen = now }

abbrev pub new_store : SessionStore
new_store = empty

unfoldable pub create : String → AuthRole → ℕ → ℕ → SessionStore → SessionStore
create session_id role ttl now store =
    insert session_id
      (record { role = role; issued_at = now; expires_at = now + ttl; last_seen = now }) store

-- `get`, at the record that the store has
abbrev pub get_record :
    String → ℕ → SessionStore → Option SessionRecord → Option SessionRecord × SessionStore
get_record session_id now store none = (none, store)
get_record session_id now store (some r) =
    if not (is_expired now r)
    then (some (update_last_seen now r), insert session_id (update_last_seen now r) store)
    else (none, remove session_id store)

unfoldable pub get : String → ℕ → SessionStore → Option SessionRecord × SessionStore
get session_id now store = get_record session_id now store (store session_id)

unfoldable pub remove_session : String → SessionStore → SessionStore
remove_session session_id store = remove session_id store

unfoldable pub cleanup_expired : ℕ → SessionStore → SessionStore
cleanup_expired now store = retain (λ r. ltb now r.expires_at) store
