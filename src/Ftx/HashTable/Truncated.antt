-- ===== src/Ftx/HashTable/Truncated.antt =====
-- Lookups by a truncated hash (callsign_hash.rs).
use trx_rs.Common.{
  ℕ, zero, suc, ◌/◌, ◌%◌, ◌^◌, Option, none, some, List, ◌≡◌, ◌≢◌, refl, sym, ◌∙◌, arith, get_or,
  set, replicate,
}
use trx_rs.Ftx.HashTable.{
  table_size, hash22_of, HashType, shift, mask_bits, CallsignEntry, Slots, insert, find_place, home,
  new, add, miss, lookup_loop, lookup,
}
use trx_rs.Ftx.HashTable.Lookup.{get_or-set_ne}

get_or-replicate :
    (n i : ℕ) → get_or (replicate n (let s : Option CallsignEntry = none in s)) i none ≡ none
get_or-replicate zero i = refl
get_or-replicate (suc n) zero = refl
get_or-replicate (suc n) (suc i) = get_or-replicate n i

first_free :
    (fuel : ℕ) (es : Slots) (h start : ℕ)
    → get_or es start none ≡ none
    → find_place (suc fuel) es h start start ≡ insert start
unfolding find_place
first_free fuel es h start e = ground arith

first_miss :
    (fuel : ℕ) (es : Slots) (sh target start : ℕ)
    → get_or es start none ≡ none
    → lookup_loop (suc fuel) es sh target start start ≡ miss
unfolding lookup_loop
first_miss fuel es sh target start e = ground arith

-- In a new table with one callsign, a lookup by a truncated hash misses it whenever the home slot
-- of the truncated hash is not the home slot of the full one.
pub lookup-truncated :
    (k : HashType) (callsign : List ℕ) (hash : ℕ)
    → home (hash22_of hash / 2 ^ shift k) ≢ home (hash22_of hash)
    → lookup k (hash22_of hash / 2 ^ shift k) (add callsign hash new) ≡ miss
unfolding lookup add new
lookup-truncated k callsign hash ne =
    let h = hash22_of hash in
    let es = replicate table_size (let s : Option CallsignEntry = none in s) in
    rw (first_free 255 es h (home h) (get_or-replicate table_size (home h))) (
      first_miss 255 (set es (home h) (some (record { hash = h; callsign = callsign }))) (shift k)
        (h / 2 ^ shift k % 2 ^ mask_bits k) (home (h / 2 ^ shift k))
        (get_or-set_ne es (home h) (home (h / 2 ^ shift k)) _ (λ q. ne (sym q))
          ∙ get_or-replicate table_size (home (h / 2 ^ shift k))))
