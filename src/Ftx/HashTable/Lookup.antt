-- ===== src/Ftx/HashTable/Lookup.antt =====
-- What `lookup` finds after `add` (callsign_hash.rs).
use trx_rs.Common.{
  ℕ, zero, suc, ◌+◌, ◌%◌, ◌^◌, ◌<◌, Option, none, some, List, [], ◌∷◌, ◌≡◌, ◌≢◌, refl, arith,
  get_or, set, length,
}
use trx_rs.Ftx.HashTable.{
  table_size, hash22_of, hash22_bits, CallsignEntry, CallsignHashTable, Slots, Place, update,
  insert, evict, find_place, write, home, add, hit, lookup_loop, lookup,
}
use trx_rs.Ftx.HashTable.Probing.{find_place-ne-stuck}

pub get_or-set_self :
    (es : Slots) (i : ℕ) (v : Option CallsignEntry) → i < length es → get_or (set es i v) i none ≡ v
get_or-set_self [] i v h = absurd (omega arith)
get_or-set_self (e ∷ es) zero v h = refl
get_or-set_self (e ∷ es) (suc i) v h = get_or-set_self es i v (omega arith)

pub get_or-set_ne :
    (es : Slots) (i j : ℕ) (v : Option CallsignEntry)
    → i ≢ j
    → get_or (set es i v) j none ≡ get_or es j none
get_or-set_ne [] i j v h = refl
get_or-set_ne (e ∷ es) zero zero v h = absurd (h refl)
get_or-set_ne (e ∷ es) zero (suc j) v h = refl
get_or-set_ne (e ∷ es) (suc i) zero v h = refl
get_or-set_ne (e ∷ es) (suc i) (suc j) v h = get_or-set_ne es i j v (λ p. h (omega arith))

-- where the loop stops, if it does not evict
abbrev At : Place → ℕ → Type 0
At (update i) j = i ≡ j
At (insert i) j = i ≡ j
At (evict i) j = ⊥
At Place.stuck j = ⊥

-- the new entry is found from where the loop for it began
find_new :
    (fuel : ℕ) (es : Slots) (e : CallsignEntry) (h start idx i : ℕ)
    → length es ≡ table_size
    → idx < table_size
    → hash22_of e.hash ≡ h
    → At (find_place fuel es h start idx) i
    → lookup_loop fuel (set es i (some e)) 0 h start idx ≡ hit e.callsign
unfolding find_place lookup_loop
find_new zero es e h start idx i len lt eh at = absurd at
find_new (suc fuel) es e h start idx i len lt eh at = ground (
  arith,
  get_or-set_self es idx (some e),
  get_or-set_ne es i idx (some e),
  find_new fuel es e h start ((idx + 1) % table_size) i,
)

evict_is_start :
    (fuel : ℕ) (es : Slots) (h start idx i : ℕ)
    → find_place fuel es h start idx ≡ evict i
    → i ≡ start
unfolding find_place
evict_is_start zero es h start idx i e = cc
evict_is_start (suc fuel) es h start idx i e =
    ground (arith, evict_is_start fuel es h start ((idx + 1) % table_size) i)

-- the first slot that the loop of `lookup` reads holds the target
first_slot :
    (fuel : ℕ) (es : Slots) (e : CallsignEntry) (h start : ℕ)
    → get_or es start none ≡ some e
    → hash22_of e.hash ≡ h
    → lookup_loop (suc fuel) es 0 h start start ≡ hit e.callsign
unfolding lookup_loop
first_slot fuel es e h start s m = ground arith

module _ (t : CallsignHashTable) (full_length : length t.entries ≡ table_size) where
  found_after :
      (e : CallsignEntry) (h : ℕ) (r : Place)
      → hash22_of e.hash ≡ h
      → find_place table_size t.entries h (home h) (home h) ≡ r
      → lookup_loop table_size (write t e r).entries 0 h (home h) (home h) ≡ hit e.callsign
  unfolding write
  found_after e h (update i) m p =
      find_new table_size t.entries e h (home h) (home h) i full_length (omega arith) m (rw p refl)
  found_after e h (insert i) m p =
      find_new table_size t.entries e h (home h) (home h) i full_length (omega arith) m (rw p refl)
  found_after e h (evict i) m p =
      let there : i ≡ home h = evict_is_start table_size t.entries h (home h) (home h) i p in
      first_slot 255 (set t.entries i (some e)) e h (home h)
        (rw there (get_or-set_self t.entries (home h) (some e) (omega arith))) m
  found_after e h Place.stuck m p = absurd (
      find_place-ne-stuck 255 t.entries h (home h) 0 (home h) (omega arith) (omega arith)
        (omega arith) p)

  -- In every table of 256 slots, whatever was added or removed before and even when the table is
  -- full, a callsign that has just been added is found under its 22-bit hash.
  pub lookup-add :
      (callsign : List ℕ) (hash : ℕ)
      → lookup hash22_bits (hash22_of hash) (add callsign hash t) ≡ hit callsign
  unfolding add lookup
  lookup-add callsign hash =
      let h = hash22_of hash in
      let twice : h % 2 ^ 22 ≡ h = omega arith in
      rw twice (
        found_after (record { hash = h; callsign = callsign }) h
          (find_place table_size t.entries h (home h) (home h)) twice refl)
