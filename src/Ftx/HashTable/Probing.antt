-- ===== src/Ftx/HashTable/Probing.antt =====
-- The probing loops of callsign_hash.rs.
use trx_rs.Common.{ℕ, zero, suc, ◌+◌, ◌%◌, ◌^◌, ◌<◌, ◌≡◌, ◌≢◌, arith}
use trx_rs.Ftx.HashTable.{
  table_size, Slots, Place, find_place, Found, lookup_loop, home, lookup, CallsignHashTable,
  HashType, shift, mask_bits,
}

-- the slot after k steps
abbrev step : ℕ → ℕ → ℕ
step start k = (start + k) % table_size

pub find_place-ne-stuck :
    (fuel : ℕ) (es : Slots) (h start k : ℕ) (idx : ℕ)
    → start < table_size
    → idx ≡ step start k
    → k + suc fuel ≡ table_size
    → find_place (suc fuel) es h start idx ≢ Place.stuck
unfolding find_place
find_place-ne-stuck zero es h start k idx lt e room = ground arith
find_place-ne-stuck (suc fuel) es h start k idx lt e room =
    ground (arith, find_place-ne-stuck fuel es h start (k + 1) ((idx + 1) % table_size))

lookup_loop-ne-stuck :
    (fuel : ℕ) (es : Slots) (sh target start k : ℕ) (idx : ℕ)
    → start < table_size
    → idx ≡ step start k
    → k + suc fuel ≡ table_size
    → lookup_loop (suc fuel) es sh target start idx ≢ Found.stuck
unfolding lookup_loop
lookup_loop-ne-stuck zero es sh target start k idx lt e room = ground arith
lookup_loop-ne-stuck (suc fuel) es sh target start k idx lt e room =
    ground (arith, lookup_loop-ne-stuck fuel es sh target start (k + 1) ((idx + 1) % table_size))

-- The probing loops of `add` and `lookup` end within 256 rounds, in every table and for every
-- hash.
pub probing_ends :
    (t : CallsignHashTable) (k : HashType) (hash : ℕ)
    → (find_place table_size t.entries hash (home hash) (home hash) ≢ Place.stuck)
      × (lookup k hash t ≢ Found.stuck)
unfolding lookup
probing_ends t k hash = (
  find_place-ne-stuck 255 t.entries hash (home hash) 0 (home hash) (omega arith) (omega arith)
      (omega arith),
  lookup_loop-ne-stuck 255 t.entries (shift k) (hash % 2 ^ mask_bits k) (home hash) 0 (home hash)
      (omega arith) (omega arith) (omega arith),
)
