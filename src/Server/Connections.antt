-- ===== src/Server/Connections.antt =====
-- listener.rs, `ConnectionTracker`: the connections of an address, at most ten. An address is a
-- number, and the map a function.
pub mod Sessions
use trx_rs.Common.{
  ℕ, ◌+◌, ◌-◌, Bool, true, false, Option, none, some, ltb, leb, ◌==◌, if◌then◌else◌,
}

abbrev pub max_connections_per_ip : ℕ
max_connections_per_ip = 10

pub record ConnectionTracker : Type 0 where
  pub counts : ℕ → Option ℕ

unfoldable pub new : ConnectionTracker
new = record { counts = λ ip. none }

-- the map with another value at one address
abbrev pub with_count : ℕ → Option ℕ → ConnectionTracker → ConnectionTracker
with_count ip c t = record { counts = λ other. if ip == other then c else t.counts other }

-- `or_insert(0)`
abbrev pub count_or_zero : Option ℕ → ℕ
count_or_zero none = 0
count_or_zero (some c) = c

-- whether there was room, and the tracker
unfoldable pub try_acquire : ℕ → ConnectionTracker → Bool × ConnectionTracker
try_acquire ip t =
    let count = count_or_zero (t.counts ip) in
    if leb max_connections_per_ip count
    then (false, with_count ip (some count) t)
    else (true, with_count ip (some (count + 1)) t)

released : ℕ → ConnectionTracker → Option ℕ → ConnectionTracker
released ip t none = t
released ip t (some count) =
    if count - 1 == 0 then with_count ip none t else with_count ip (some (count - 1)) t

unfoldable pub release : ℕ → ConnectionTracker → ConnectionTracker
unfolding released
release ip t = released ip t (t.counts ip)
