-- ===== src/Ftx/HashTable.antt =====
-- src/decoders/trx-ftx/src/common/callsign_hash.rs: an open-addressing table of callsigns under
-- their 22-bit hashes. A hash word is a u32 with the hash in bits 0 to 21 and an age in bits 24 to
-- 31; the masks are remainders and the shifts divisions. The probing loops run on fuel, one unit
-- for each of the 256 slots.
pub mod Probing
pub mod Lookup
pub mod Size
pub mod Hash
pub mod Truncated
pub mod Others
use trx_rs.Common.{
  ℕ, zero, suc, ◌+◌, ◌-◌, ◌*◌, ◌/◌, ◌%◌, ◌^◌, Bool, true, false, Option, none, some, List, [], ◌∷◌,
  ltb, ◌==◌, get_or, set, take, length, replicate, is_some, if◌then◌else◌,
}
use trx_rs.Ftx.Text.{alphanum_space_slash, nchar}

-- CALLSIGN_HASHTABLE_SIZE
abbrev pub table_size : ℕ
table_size = 256

-- `h & HASH22_MASK`
abbrev pub hash22_of : ℕ → ℕ
hash22_of h = h % 2 ^ 22

pub data HashType : Type 0 where
  hash22_bits hash12_bits hash10_bits : HashType

-- the shift, and the number of ones in the mask
abbrev pub shift : HashType → ℕ
shift hash22_bits = 0
shift hash12_bits = 10
shift hash10_bits = 12

abbrev pub mask_bits : HashType → ℕ
mask_bits hash22_bits = 22
mask_bits hash12_bits = 12
mask_bits hash10_bits = 10

pub record CallsignEntry : Type 0 where
  pub hash : ℕ
  pub callsign : List ℕ

abbrev pub Slots : Type 0
Slots = List (Option CallsignEntry)

pub record CallsignHashTable : Type 0 where
  pub entries : Slots
  pub size : ℕ

unfoldable pub new : CallsignHashTable
new = record { entries = replicate table_size none; size = 0 }

clear_slots : Slots → Slots
clear_slots [] = []
clear_slots (_ ∷ es) = none ∷ clear_slots es

unfoldable pub clear : CallsignHashTable → CallsignHashTable
unfolding clear_slots
clear t = record { entries = clear_slots t.entries; size = 0 }

-- Where the loop of `add` stops, and why. `stuck` is the fuel that ran out.
pub data Place : Type 0 where
  update insert evict : ℕ → Place
  stuck : Place

unfoldable pub find_place : ℕ → Slots → ℕ → ℕ → ℕ → Place
find_place zero es h start idx = stuck
find_place (suc fuel) es h start idx = elim (get_or es idx none) [
  | none ↦ insert idx
  | some e ↦
      let idx' = (idx + 1) % table_size in
      let rest = find_place fuel es h start idx' in
      if hash22_of e.hash == h then update idx else if idx' == start then evict idx' else rest
]

write : CallsignHashTable → CallsignEntry → Place → CallsignHashTable
write t e (update i) = record t { entries = set t.entries i (some e) }
write t e (insert i) = record { entries = set t.entries i (some e); size = t.size + 1 }
write t e (evict i) = record t { entries = set t.entries i (some e) }
write t e stuck = t

-- the `start_idx` of both loops
abbrev pub home : ℕ → ℕ
home h = h % table_size

unfoldable pub add : List ℕ → ℕ → CallsignHashTable → CallsignHashTable
unfolding write
add callsign hash t =
    let h = hash22_of hash in
    write t (record { hash = h; callsign = callsign })
      (find_place table_size t.entries h (home h) (home h))

pub data Found : Type 0 where
  hit : List ℕ → Found
  miss : Found
  stuck : Found

unfoldable pub lookup_loop : ℕ → Slots → ℕ → ℕ → ℕ → ℕ → Found
lookup_loop zero es sh target start idx = Found.stuck
lookup_loop (suc fuel) es sh target start idx = elim (get_or es idx none) [
  | none ↦ miss
  | some e ↦
      let idx' = (idx + 1) % table_size in
      let rest = lookup_loop fuel es sh target start idx' in
      if hash22_of e.hash / 2 ^ sh == target
      then hit e.callsign
      else if idx' == start
      then miss
      else rest
]

unfoldable pub lookup : HashType → ℕ → CallsignHashTable → Found
lookup k hash t =
    lookup_loop table_size t.entries (shift k) (hash % 2 ^ mask_bits k) (home hash) (home hash)

-- One slot of `cleanup`. The new age is at most `max_age`, a u8, so the bits that it is put in are
-- those that the mask has cleared.
age_slot : ℕ → Option CallsignEntry → Option CallsignEntry
age_slot max_age none = none
age_slot max_age (some e) =
    let age = e.hash / 2 ^ 24 % 2 ^ 8 + 1 in
    if ltb max_age age then none else some (record e { hash = e.hash % 2 ^ 24 + age * 2 ^ 24 })

age_slots : ℕ → Slots → Slots
unfolding age_slot
age_slots max_age [] = []
age_slots max_age (s ∷ es) = age_slot max_age s ∷ age_slots max_age es

unfoldable pub occupied : Slots → ℕ
occupied [] = 0
occupied (s ∷ es) = (if is_some s then 1 else 0) + occupied es

unfoldable pub cleanup : ℕ → CallsignHashTable → CallsignHashTable
unfolding age_slots occupied
cleanup max_age t =
    let es = age_slots max_age t.entries in record { entries = es; size = occupied es }

-- `compute_callsign_hash`: eleven base-38 digits in a u64, then a multiplicative hash
hash_chars : ℕ → ℕ → List ℕ → Option (ℕ × ℕ)
hash_chars n i [] = some (n, i)
hash_chars n i (c ∷ cs) = elim (nchar c alphanum_space_slash) [
  | none ↦ none
  | some j ↦ hash_chars ((38 * n + j) % 2 ^ 64) (i + 1) cs
]

pad_hash : ℕ → ℕ → ℕ
pad_hash zero n = n
pad_hash (suc k) n = pad_hash k (38 * n % 2 ^ 64)

finish_hash : ℕ × ℕ → ℕ
unfolding pad_hash
finish_hash (n, i) = 47_055_833_459 * pad_hash (11 - i) n % 2 ^ 64 / 2 ^ 42 % 2 ^ 22

abbrev finish : Option (ℕ × ℕ) → Option ℕ
finish none = none
finish (some r) = some (finish_hash r)

unfoldable pub compute_callsign_hash : List ℕ → Option ℕ
unfolding hash_chars finish_hash
compute_callsign_hash callsign = finish (hash_chars 0 0 (take 11 callsign))
