-- ===== src/Ftx/HashTable/Others.antt =====
-- `add` and the other callsigns of the table (callsign_hash.rs).
use trx_rs.Common.{
  ℕ, zero, suc, ◌+◌, ◌%◌, ◌^◌, ◌<◌, Option, none, some, List, ◌≡◌, ◌≢◌, ◌⊎◌, ◌∙◌, refl, inl, inr,
  arith, get_or, set, length,
}
use trx_rs.Ftx.HashTable.{
  table_size, hash22_of, hash22_bits, CallsignEntry, CallsignHashTable, Slots, Place, update,
  insert, evict, find_place, write, home, add, hit, lookup_loop, lookup,
}
use trx_rs.Ftx.HashTable.Lookup.{get_or-set_self, get_or-set_ne}
use trx_rs.Ftx.HashTable.Size.{WellFormed, no_evict}

abbrev slot_hash : Option CallsignEntry → Option ℕ
slot_hash none = none
slot_hash (some e) = some (hash22_of e.hash)

-- an updated slot held the hash, and an inserted one nothing
abbrev Before : Slots → ℕ → Place → Type 0
Before es h (update i) = (i < table_size) × (slot_hash (get_or es i none) ≡ some h)
Before es h (insert i) = (i < table_size) × (slot_hash (get_or es i none) ≡ none)
Before es h _ = Unit

find_place-Before :
    (fuel : ℕ) (es : Slots) (h start idx : ℕ)
    → idx < table_size
    → Before es h (find_place fuel es h start idx)
unfolding find_place
find_place-Before zero es h start idx lt = tt
find_place-Before (suc fuel) es h start idx lt =
    ground (arith, find_place-Before fuel es h start ((idx + 1) % table_size))

-- a slot that is written held the hash of the new entry or nothing
module _ (es : Slots) (e : CallsignEntry) (i j : ℕ) (other : j ≢ hash22_of e.hash) where
  still_found :
      (fuel start idx : ℕ) (c : List ℕ)
      → i < length es
      → (slot_hash (get_or es i none) ≡ some (hash22_of e.hash))
        ⊎ (slot_hash (get_or es i none) ≡ none)
      → lookup_loop fuel es 0 j start idx ≡ hit c
      → lookup_loop fuel (set es i (some e)) 0 j start idx ≡ hit c
  unfolding lookup_loop
  still_found zero start idx c lt was found = cc
  still_found (suc fuel) start idx c lt was found = ground (
    arith,
    get_or-set_self es idx (some e),
    get_or-set_ne es i idx (some e),
    still_found fuel start ((idx + 1) % table_size) c,
  )

module _ (t : CallsignHashTable) (w : WellFormed t) (room : t.size < table_size) where
  still_in :
      (e : CallsignEntry) (h j : ℕ) (r : Place) (c : List ℕ)
      → hash22_of e.hash ≡ h
      → find_place table_size t.entries h (home h) (home h) ≡ r
      → Before t.entries h r
      → j ≢ h
      → lookup_loop table_size t.entries 0 j (home j) (home j) ≡ hit c
      → lookup_loop table_size (write t e r).entries 0 j (home j) (home j) ≡ hit c
  unfolding write
  still_in e h j (update i) c m p b ne f =
      still_found t.entries e i j (λ q. ne (q ∙ m)) table_size (home j) (home j) c
        (omega (arith, w.slots)) (inl (rw m b.1)) f
  still_in e h j (insert i) c m p b ne f =
      still_found t.entries e i j (λ q. ne (q ∙ m)) table_size (home j) (home j) c
        (omega (arith, w.slots)) (inr b.1) f
  still_in e h j (evict i) c m p b ne f = absurd (no_evict t h i w room p)
  still_in e h j Place.stuck c m p b ne f = f

  -- While the table has a free slot, adding a callsign under one hash loses no callsign that
  -- could be found under another 22-bit hash.
  pub lookup-add_other :
      (callsign c : List ℕ) (hash j : ℕ)
      → j < 2 ^ 22
      → j ≢ hash22_of hash
      → lookup hash22_bits j t ≡ hit c
      → lookup hash22_bits j (add callsign hash t) ≡ hit c
  unfolding add lookup
  lookup-add_other callsign c hash j lt ne found =
      let h = hash22_of hash in
      let same : j % 2 ^ 22 ≡ j = omega arith in
      let before : lookup_loop table_size t.entries 0 j (home j) (home j) ≡ hit c =
        rw same at found in
      rw same (
        still_in (record { hash = h; callsign = callsign }) h j
          (find_place table_size t.entries h (home h) (home h)) c (omega arith) refl
          (find_place-Before table_size t.entries h (home h) (home h) (omega arith)) ne before)
