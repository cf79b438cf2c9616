-- ===== src/Ftx/HashTable/Size.antt =====
-- The counter of occupied slots, and a table with a free slot (callsign_hash.rs).
use trx_rs.Common.{
  ℕ, zero, suc, ◌+◌, ◌-◌, ◌%◌, ◌<◌, ◌≤◌, true, false, Option, none, some, List, [], ◌∷◌, ◌≡◌, ◌≢◌,
  ◌⊎◌, refl, sym, ap, ◌∙◌, inl, inr, arith, ◌==◌, get_or, set, length, length-set, length-replicate,
  replicate, is_some, Bool-cases, if◌then◌else◌,
}
use trx_rs.Ftx.HashTable.{
  table_size, hash22_of, CallsignEntry, CallsignHashTable, Slots, Place, update, insert, evict,
  find_place, write, home, new, clear, clear_slots, add, age_slots, cleanup, occupied,
}

pub record WellFormed (t : CallsignHashTable) : Type 0 where
  pub slots : length t.entries ≡ table_size
  pub counted : t.size ≡ occupied t.entries

occupied-set :
    (es : Slots) (i : ℕ) (e : CallsignEntry)
    → i < length es
    → occupied (set es i (some e)) + (if is_some (get_or es i none) then 1 else 0) ≡ occupied es + 1
unfolding occupied
occupied-set [] i e h = absurd (omega arith)
occupied-set (s ∷ es) zero e h = ground arith
occupied-set (s ∷ es) (suc i) e h = omega (arith, occupied-set es i e (omega arith))

-- the slot that the loop stops at
abbrev Stops : Slots → Place → Type 0
Stops es (update i) = (i < table_size) × (is_some (get_or es i none) ≡ true)
Stops es (insert i) = (i < table_size) × (is_some (get_or es i none) ≡ false)
Stops es (evict i) = (i < table_size) × (is_some (get_or es i none) ≡ true)
Stops es Place.stuck = Unit

pub find_place-Stops :
    (fuel : ℕ) (es : Slots) (h start idx : ℕ)
    → idx < table_size
    → (idx ≡ start) ⊎ (is_some (get_or es start none) ≡ true)
    → Stops es (find_place fuel es h start idx)
unfolding find_place
find_place-Stops zero es h start idx lt seen = tt
find_place-Stops (suc fuel) es h start idx lt seen =
    ground (arith, find_place-Stops fuel es h start ((idx + 1) % table_size))

-- an eviction has seen every slot occupied
evict_full :
    (fuel : ℕ) (es : Slots) (h start k idx i m : ℕ)
    → start < table_size
    → idx ≡ (start + k) % table_size
    → k + fuel ≡ table_size
    → find_place fuel es h start idx ≡ evict i
    → k ≤ m
    → m < table_size
    → is_some (get_or es ((start + m) % table_size) none) ≡ true
unfolding find_place
evict_full zero es h start k idx i m lt e room p lo hi = absurd (omega arith)
evict_full (suc fuel) es h start k idx i m lt e room p lo hi = elim (Bool-cases (m == k)) [
  | inl here ↦ let same : (start + m) % table_size ≡ idx = ground arith in rw same (ground arith)
  | inr later ↦ ground (arith, evict_full fuel es h start (k + 1) ((idx + 1) % table_size) i m)
]

occupied-le : (es : Slots) → occupied es ≤ length es
unfolding occupied
occupied-le [] = omega arith
occupied-le (s ∷ es) = ground (arith, occupied-le es)

occupied_full :
    (es : Slots)
    → ((j : ℕ) → j < length es → is_some (get_or es j none) ≡ true)
    → occupied es ≡ length es
unfolding occupied
occupied_full [] h = refl
occupied_full (s ∷ es) h =
    let rest : occupied es ≡ length es = occupied_full es (λ j lt. h (suc j) (omega arith)) in
    rw (h zero (omega arith)) (omega (arith, rest))

length-clear_slots : (es : Slots) → length (clear_slots es) ≡ length es
unfolding clear_slots
length-clear_slots [] = refl
length-clear_slots (s ∷ es) = ap suc (length-clear_slots es)

occupied-clear_slots : (es : Slots) → occupied (clear_slots es) ≡ 0
unfolding clear_slots occupied
occupied-clear_slots [] = refl
occupied-clear_slots (s ∷ es) = omega (arith, occupied-clear_slots es)

length-age_slots : (a : ℕ) (es : Slots) → length (age_slots a es) ≡ length es
unfolding age_slots
length-age_slots a [] = refl
length-age_slots a (s ∷ es) = ap suc (length-age_slots a es)

one_if :
    (s : Option CallsignEntry)
    → is_some s ≡ true
    → (if is_some s then 1 else 0) ≡ (let n : ℕ = 1 in n)
one_if s h = ground arith

none_if :
    (s : Option CallsignEntry)
    → is_some s ≡ false
    → (if is_some s then 1 else 0) ≡ (let n : ℕ = 0 in n)
none_if s h = ground arith

write-WellFormed :
    (t : CallsignHashTable) (e : CallsignEntry) (r : Place)
    → Stops t.entries r
    → WellFormed t
    → WellFormed (write t e r)
unfolding write
write-WellFormed t e (update i) at w = record {
  slots = length-set t.entries i (some e) ∙ w.slots;
  counted = omega (
    arith,
    w.counted,
    occupied-set t.entries i e (omega arith),
    one_if (get_or t.entries i none) at.1,
  );
}
write-WellFormed t e (insert i) at w = record {
  slots = length-set t.entries i (some e) ∙ w.slots;
  counted = omega (
    arith,
    w.counted,
    occupied-set t.entries i e (omega arith),
    none_if (get_or t.entries i none) at.1,
  );
}
write-WellFormed t e (evict i) at w = record {
  slots = length-set t.entries i (some e) ∙ w.slots;
  counted = omega (
    arith,
    w.counted,
    occupied-set t.entries i e (omega arith),
    one_if (get_or t.entries i none) at.1,
  );
}
write-WellFormed t e Place.stuck at w = w

occupied-replicate : (n : ℕ) → occupied (replicate n none) ≡ 0
unfolding occupied
occupied-replicate zero = refl
occupied-replicate (suc n) = omega (arith, occupied-replicate n)

pub new-WellFormed : WellFormed new
unfolding new
new-WellFormed = record {
  slots = length-replicate table_size (let s : Option CallsignEntry = none in s);
  counted = sym (occupied-replicate table_size);
}

pub add-WellFormed :
    (t : CallsignHashTable) (callsign : List ℕ) (hash : ℕ)
    → WellFormed t
    → WellFormed (add callsign hash t)
unfolding add
add-WellFormed t callsign hash w =
    let h = hash22_of hash in
    write-WellFormed t (record { hash = h; callsign = callsign })
      (find_place table_size t.entries h (home h) (home h))
      (find_place-Stops table_size t.entries h (home h) (home h) (omega arith) (inl refl)) w

-- What a client does with a table.
pub data Operation : Type 0 where
  adding : List ℕ → ℕ → Operation
  clearing : Operation
  aging : ℕ → Operation

pub perform : Operation → CallsignHashTable → CallsignHashTable
perform (adding c h) t = add c h t
perform clearing t = clear t
perform (aging a) t = cleanup a t

-- Adding, clearing and aging keep 256 slots and a size that counts the occupied ones.
pub perform-WellFormed :
    (o : Operation) (t : CallsignHashTable) → WellFormed t → WellFormed (perform o t)
unfolding perform clear cleanup
perform-WellFormed (adding c h) t w = add-WellFormed t c h w
perform-WellFormed clearing t w = record {
  slots = length-clear_slots t.entries ∙ w.slots;
  counted = sym (occupied-clear_slots t.entries);
}
perform-WellFormed (aging a) t w = record {
  slots = length-age_slots a t.entries ∙ w.slots;
  counted = refl;
}

-- With a free slot left nothing is evicted.
pub no_evict :
    (t : CallsignHashTable) (h i : ℕ)
    → WellFormed t
    → t.size < table_size
    → find_place table_size t.entries h (home h) (home h) ≢ evict i
no_evict t h i w room p =
    let every : (j : ℕ) → j < length t.entries → is_some (get_or t.entries j none) ≡ true = λ j lt.
      let turn : (home h + (j + table_size - home h) % table_size) % table_size ≡ j =
        omega (arith, w.slots) in
      rw turn at (
        evict_full table_size t.entries h (home h) 0 (home h) i
          ((j + table_size - home h) % table_size) (omega arith) (omega arith) (omega arith) p
          (omega arith) (omega arith)) in
    omega (arith, occupied_full t.entries every, w.counted, w.slots)
