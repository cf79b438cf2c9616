-- ===== src/Channels/Lists.antt =====
-- What the operations on the channels of one rig keep
-- (src/trx-client/trx-frontend/trx-frontend-http/src/vchan.rs).
use trx_rs.Common.{
  ℕ, suc, ◌+◌, ◌≤◌, ◌<◌, true, false, Option, none, some, List, [], ◌∷◌, ◌++◌, map, length, leb,
  ◌==◌, ◌≡◌, ◌≢◌, refl, ap, ◌∙◌, inl, inr, arith, Bool-cases, length-append,
}
use trx_rs.Channels.{InternalChannel, is_fixed, drop_session, is_needed, still_needed}
use trx_rs.Channels.Edit.{find_from, find, change, take_out}
use trx_rs.Channels.Scheduler.{
  Desired, is_stale, prune, updated, update_to, refresh_by, refresh_channel, refresh_all,
  exists_for, scheduled, add_missing, reconcile,
}

-- the list begins with the primary channel p
abbrev pub Leads : ℕ → List InternalChannel → Type 0
Leads p [] = ⊥
Leads p (c ∷ cs) = (c.id ≡ p) × (c.permanent ≡ true) × (c.scheduler_bookmark_id ≡ none)

pub tidy-Leads :
    (p s : ℕ) (cs : List InternalChannel)
    → Leads p cs
    → Leads p (still_needed (map (drop_session s) cs))
unfolding still_needed
tidy-Leads p s [] h = h
tidy-Leads p s (c ∷ cs) h = ground arith

pub tidy-length :
    (s : ℕ) (cs : List InternalChannel)
    → length (still_needed (map (drop_session s) cs)) ≤ length cs
unfolding still_needed
tidy-length s [] = omega arith
tidy-length s (c ∷ cs) = elim (Bool-cases (is_needed (drop_session s c))) [
  | inl kept ↦ rw kept (omega (arith, tidy-length s cs))
  | inr gone ↦ rw gone (omega (arith, tidy-length s cs))
]

-- an edit that is not of what makes a channel the primary one
abbrev pub IsMild : (InternalChannel → InternalChannel) → Type 0
IsMild f =
    (c : InternalChannel)
    → ((f c).id ≡ c.id)
      × ((f c).permanent ≡ c.permanent)
      × ((f c).scheduler_bookmark_id ≡ c.scheduler_bookmark_id)

pub change-Leads :
    (p id : ℕ) (f : InternalChannel → InternalChannel) (cs : List InternalChannel)
    → IsMild f
    → Leads p cs
    → Leads p (change id f cs)
change-Leads p id f [] mild h = h
change-Leads p id f (c ∷ cs) mild h = elim (Bool-cases (c.id == id)) [
  | inl here ↦ let m = mild c in rw here (m.0 ∙ h.0, m.1 ∙ h.1, m.2 ∙ h.2)
  | inr away ↦ rw away h
]

pub change-length :
    (id : ℕ) (f : InternalChannel → InternalChannel) (cs : List InternalChannel)
    → length (change id f cs) ≡ length cs
change-length id f [] = refl
change-length id f (c ∷ cs) = elim (Bool-cases (c.id == id)) [
  | inl here ↦ rw here
  | inr away ↦ rw away (ap suc (change-length id f cs))
]

pub take_out-Leads :
    (p id : ℕ) (cs : List InternalChannel) → id ≢ p → Leads p cs → Leads p (take_out id cs)
take_out-Leads p id [] ne h = h
take_out-Leads p id (c ∷ cs) ne h = ground arith

pub take_out-length : (id : ℕ) (cs : List InternalChannel) → length (take_out id cs) ≤ length cs
take_out-length id [] = omega arith
take_out-length id (c ∷ cs) = elim (Bool-cases (c.id == id)) [
  | inl here ↦ rw here (omega arith)
  | inr away ↦ rw away (omega (arith, take_out-length id cs))
]

-- what is found has the identifier, and is the primary channel where that has it
find_from-found :
    (i id : ℕ) (cs : List InternalChannel) (k : ℕ) (c : InternalChannel)
    → find_from i id cs ≡ some (k, c)
    → c.id ≡ id
unfolding find_from
find_from-found i id [] k c e = cc
find_from-found i id (d ∷ ds) k c e = elim (Bool-cases (d.id == id)) [
  | inl here ↦
      let h : ◌≡◌ {A = Option (ℕ × InternalChannel)} (some (i, d)) (some (k, c)) = rw here at e in
      ground arith
  | inr away ↦ find_from-found (i + 1) id ds k c (rw away at e)
]

pub find-found :
    (id : ℕ) (cs : List InternalChannel) (k : ℕ) (c : InternalChannel)
    → find id cs ≡ some (k, c)
    → c.id ≡ id
unfolding find
find-found id cs k c e = find_from-found 0 id cs k c e

pub found-is_fixed :
    (p id k : ℕ) (cs : List InternalChannel) (c : InternalChannel)
    → Leads p cs
    → find id cs ≡ some (k, c)
    → is_fixed c ≡ false
    → c.id ≢ p
unfolding find find_from
found-is_fixed p id k [] c h e free = absurd h
found-is_fixed p id k (d ∷ ds) c h e free = λ same. elim (Bool-cases (d.id == id)) [
  | inl here ↦
      let q : ◌≡◌ {A = Option (ℕ × InternalChannel)} (some (0, d)) (some (k, c)) = rw here at e in
      ground arith
  | inr away ↦
      let e' : find_from 1 id ds ≡ some (k, c) = rw away at e in
      ground (arith, find_from-found 1 id ds k c e')
]

pub append-Leads : (p : ℕ) (cs ds : List InternalChannel) → Leads p cs → Leads p (cs ++ ds)
append-Leads p [] ds h = absurd h
append-Leads p (c ∷ cs) ds h = h

prune-Leads :
    (p : ℕ) (ds : List Desired) (cs : List InternalChannel) → Leads p cs → Leads p (prune ds cs).0
unfolding prune
prune-Leads p ds [] h = h
prune-Leads p ds (c ∷ cs) h = let e : is_stale ds c ≡ false = rw h.2 in rw e h

prune-length : (ds : List Desired) (cs : List InternalChannel) → length (prune ds cs).0 ≤ length cs
unfolding prune
prune-length ds [] = omega arith
prune-length ds (c ∷ cs) = elim (Bool-cases (is_stale ds c)) [
  | inl stale ↦ rw stale (omega (arith, prune-length ds cs))
  | inr kept ↦ rw kept (omega (arith, prune-length ds cs))
]

update_to-IsMild : (o : Option Desired) → IsMild (λ c. (update_to o c).0)
unfolding update_to updated
update_to-IsMild none c = (refl, refl, refl)
update_to-IsMild (some d) c = (refl, refl, refl)

refresh_all-Leads :
    (p : ℕ) (ds : List Desired) (cs : List InternalChannel)
    → Leads p cs
    → Leads p (refresh_all ds cs).0
unfolding refresh_all refresh_channel refresh_by
refresh_all-Leads p ds [] h = h
refresh_all-Leads p ds (c ∷ cs) h = rw h.2 (h.0, h.1, refl)

refresh_all-length :
    (ds : List Desired) (cs : List InternalChannel) → length (refresh_all ds cs).0 ≡ length cs
unfolding refresh_all
refresh_all-length ds [] = refl
refresh_all-length ds (c ∷ cs) = ap suc (refresh_all-length ds cs)

add_missing-Leads :
    (max_channels : ℕ) (uuids : ℕ → ℕ) (p n : ℕ) (ds : List Desired) (cs : List InternalChannel)
    → Leads p cs
    → Leads p (add_missing max_channels uuids n ds cs).0
unfolding add_missing
add_missing-Leads max_channels uuids p n [] cs h = h
add_missing-Leads max_channels uuids p n (d ∷ ds) cs h =
    elim (Bool-cases (exists_for d.bookmark_id cs)) [
      | inl here ↦ rw here (add_missing-Leads max_channels uuids p n ds cs h)
      | inr missing ↦ rw missing (elim (Bool-cases (leb max_channels (length cs))) [
        | inl full ↦ rw full h
        | inr room ↦ rw room (
            add_missing-Leads max_channels uuids p (n + 1) ds (cs ++ scheduled (uuids n) d ∷ [])
              (append-Leads p cs (scheduled (uuids n) d ∷ []) h))
      ])
    ]

add_missing-length :
    (max_channels : ℕ) (uuids : ℕ → ℕ) (n : ℕ) (ds : List Desired) (cs : List InternalChannel)
    → length cs ≤ max_channels
    → length (add_missing max_channels uuids n ds cs).0 ≤ max_channels
unfolding add_missing
add_missing-length max_channels uuids n [] cs h = h
add_missing-length max_channels uuids n (d ∷ ds) cs h =
    elim (Bool-cases (exists_for d.bookmark_id cs)) [
      | inl here ↦ rw here (add_missing-length max_channels uuids n ds cs h)
      | inr missing ↦ rw missing (elim (Bool-cases (leb max_channels (length cs))) [
        | inl full ↦ rw full h
        | inr room ↦
            let c = scheduled (uuids n) d in
            let less : length cs < max_channels = ground arith in
            rw room (
              add_missing-length max_channels uuids (n + 1) ds (cs ++ c ∷ [])
                (omega (arith, length-append cs (c ∷ []), less)))
      ])
    ]

pub reconcile-Leads :
    (max_channels : ℕ) (uuids : ℕ → ℕ) (p : ℕ) (ds : List Desired) (cs : List InternalChannel)
    → Leads p cs
    → Leads p (reconcile max_channels uuids ds cs).0
unfolding reconcile
reconcile-Leads max_channels uuids p ds cs h =
    add_missing-Leads max_channels uuids p 0 ds (refresh_all ds (prune ds cs).0).0
      (refresh_all-Leads p ds (prune ds cs).0 (prune-Leads p ds cs h))

pub reconcile-length :
    (max_channels : ℕ) (uuids : ℕ → ℕ) (ds : List Desired) (cs : List InternalChannel)
    → length cs ≤ max_channels
    → length (reconcile max_channels uuids ds cs).0 ≤ max_channels
unfolding reconcile
reconcile-length max_channels uuids ds cs h =
    add_missing-length max_channels uuids 0 ds (refresh_all ds (prune ds cs).0).0
      (omega (arith, refresh_all-length ds (prune ds cs).0, prune-length ds cs))
