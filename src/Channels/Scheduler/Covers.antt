-- ===== src/Channels/Scheduler/Covers.antt =====
-- What the scheduler finds after a synchronisation (`sync_scheduler_channels` of
-- src/trx-client/trx-frontend/trx-frontend-http/src/vchan.rs).
use trx_rs.Common.{
  ℕ, ◌+◌, ◌≤◌, String, true, false, Option, none, some, List, [], ◌∷◌, ◌++◌, length, leb, ◌≡◌, ◌⊎◌,
  refl, ◌∙◌, inl, inr, arith, Bool-cases, Option-cases,
}
use trx_rs.Channels.Keys.{str_eq_refl}
use trx_rs.Channels.{InternalChannel}
use trx_rs.Channels.Scheduler.{
  Desired, wanted, is_wanted, is_stale, prune, updated, update_to, refresh_by, refresh_channel,
  refresh_all, has_bookmark, exists_for, scheduled, add_missing, reconcile,
}

-- every desired bookmark has a channel
abbrev pub HasAll : List Desired → List InternalChannel → Type 0
HasAll [] cs = Unit
HasAll (d ∷ ds) cs = (exists_for d.bookmark_id cs ≡ true) × HasAll ds cs

-- no channel is left of a bookmark that is not desired and without a subscriber
abbrev pub HasNoStale : List Desired → List InternalChannel → Type 0
HasNoStale ds [] = Unit
HasNoStale ds (c ∷ cs) = (is_stale ds c ≡ false) × HasNoStale ds cs

exists_for-append :
    (k : String) (cs ds : List InternalChannel)
    → exists_for k cs ≡ true
    → exists_for k (cs ++ ds) ≡ true
exists_for-append k [] ds h = cc
exists_for-append k (c ∷ cs) ds h = elim (Bool-cases (has_bookmark k c)) [
  | inl here ↦ rw here
  | inr away ↦ rw away (exists_for-append k cs ds (rw away at h))
]

exists_for-new :
    (uuid : ℕ) (d : Desired) (cs : List InternalChannel)
    → exists_for d.bookmark_id (cs ++ scheduled uuid d ∷ []) ≡ true
unfolding scheduled
exists_for-new uuid d [] = rw (str_eq_refl d.bookmark_id)
exists_for-new uuid d (c ∷ cs) = elim (Bool-cases (has_bookmark d.bookmark_id c)) [
  | inl here ↦ rw here
  | inr away ↦ rw away (exists_for-new uuid d cs)
]

module _ (max_channels : ℕ) (uuids : ℕ → ℕ) where
  add_missing-keeps :
      (k : String) (n : ℕ) (ds : List Desired) (cs : List InternalChannel)
      → exists_for k cs ≡ true
      → exists_for k (add_missing max_channels uuids n ds cs).0 ≡ true
  unfolding add_missing
  add_missing-keeps k n [] cs h = h
  add_missing-keeps k n (d ∷ ds) cs h = elim (Bool-cases (exists_for d.bookmark_id cs)) [
    | inl here ↦ rw here (add_missing-keeps k n ds cs h)
    | inr missing ↦ rw missing (elim (Bool-cases (leb max_channels (length cs))) [
      | inl full ↦ rw full h
      | inr room ↦
          let c = scheduled (uuids n) d in
          rw room
            (add_missing-keeps k (n + 1) ds (cs ++ c ∷ []) (exists_for-append k cs (c ∷ []) h))
    ])
  ]

  add_missing-HasAll :
      (n : ℕ) (ds : List Desired) (cs : List InternalChannel)
      → let cs' = (add_missing max_channels uuids n ds cs).0 in
        HasAll ds cs' ⊎ (max_channels ≤ length cs')
  unfolding add_missing
  add_missing-HasAll n [] cs = inl tt
  add_missing-HasAll n (d ∷ ds) cs = elim (Bool-cases (exists_for d.bookmark_id cs)) [
    | inl here ↦ rw here (elim (add_missing-HasAll n ds cs) [
      | inl all ↦ inl (add_missing-keeps d.bookmark_id n ds cs here, all)
      | inr full ↦ inr full
    ])
    | inr missing ↦ rw missing (elim (Bool-cases (leb max_channels (length cs))) [
      | inl full ↦ rw full (inr (ground arith))
      | inr room ↦
          let cs' = cs ++ scheduled (uuids n) d ∷ [] in
          rw room (elim (add_missing-HasAll (n + 1) ds cs') [
            | inl all ↦ inl (
              add_missing-keeps d.bookmark_id (n + 1) ds cs' (exists_for-new (uuids n) d cs),
              all,
            )
            | inr full ↦ inr full
          ])
    ])
  ]

-- every entry of a list is desired in the whole
abbrev AllWanted : List Desired → List Desired → Type 0
AllWanted all [] = Unit
AllWanted all (d ∷ ds) = (is_wanted (wanted d.bookmark_id all) ≡ true) × AllWanted all ds

wanted_self : (d : Desired) (ds : List Desired) → is_wanted (wanted d.bookmark_id (d ∷ ds)) ≡ true
wanted_self d ds = elim (Option-cases (wanted d.bookmark_id ds)) [
  | inl missing ↦ rw (missing, str_eq_refl d.bookmark_id)
  | inr (e, later) ↦ rw later
]

wanted-cons :
    (k : String) (d : Desired) (ds : List Desired)
    → is_wanted (wanted k ds) ≡ true
    → is_wanted (wanted k (d ∷ ds)) ≡ true
wanted-cons k d ds h = elim (Option-cases (wanted k ds)) [
  | inl missing ↦ let e : false ≡ true = rw missing at h in cc
  | inr (e, later) ↦ rw later
]

AllWanted-cons : (d : Desired) (all ds : List Desired) → AllWanted all ds → AllWanted (d ∷ all) ds
AllWanted-cons d all [] h = tt
AllWanted-cons d all (e ∷ ds) h = (wanted-cons e.bookmark_id d all h.0, AllWanted-cons d all ds h.1)

AllWanted-self : (ds : List Desired) → AllWanted ds ds
AllWanted-self [] = tt
AllWanted-self (d ∷ ds) = (wanted_self d ds, AllWanted-cons d ds ds (AllWanted-self ds))

prune-HasNoStale : (ds : List Desired) (cs : List InternalChannel) → HasNoStale ds (prune ds cs).0
unfolding prune
prune-HasNoStale ds [] = tt
prune-HasNoStale ds (c ∷ cs) = elim (Bool-cases (is_stale ds c)) [
  | inl stale ↦ rw stale (prune-HasNoStale ds cs)
  | inr kept ↦ rw kept (kept, prune-HasNoStale ds cs)
]

update_to-is_stale :
    (ds : List Desired) (o : Option Desired) (c : InternalChannel)
    → is_stale ds (update_to o c).0 ≡ is_stale ds c
unfolding update_to updated
update_to-is_stale ds none c = refl
update_to-is_stale ds (some d) c = refl

refresh_by-is_stale :
    (ds : List Desired) (c : InternalChannel) (o : Option String)
    → is_stale ds (refresh_by ds c o).0 ≡ is_stale ds c
unfolding refresh_by
refresh_by-is_stale ds c none = refl
refresh_by-is_stale ds c (some k) = update_to-is_stale ds (wanted k ds) c

refresh_all-HasNoStale :
    (ds : List Desired) (cs : List InternalChannel)
    → HasNoStale ds cs
    → HasNoStale ds (refresh_all ds cs).0
unfolding refresh_all refresh_channel
refresh_all-HasNoStale ds [] h = tt
refresh_all-HasNoStale ds (c ∷ cs) h =
    (refresh_by-is_stale ds c c.scheduler_bookmark_id ∙ h.0, refresh_all-HasNoStale ds cs h.1)

append-HasNoStale :
    (ds : List Desired) (cs : List InternalChannel) (c : InternalChannel)
    → HasNoStale ds cs
    → is_stale ds c ≡ false
    → HasNoStale ds (cs ++ c ∷ [])
append-HasNoStale ds [] c h k = (k, tt)
append-HasNoStale ds (b ∷ bs) c h k = (h.0, append-HasNoStale ds bs c h.1 k)

add_missing-HasNoStale :
    (max_channels : ℕ) (uuids : ℕ → ℕ) (all : List Desired) (n : ℕ) (ds : List Desired)
    (cs : List InternalChannel)
    → AllWanted all ds
    → HasNoStale all cs
    → HasNoStale all (add_missing max_channels uuids n ds cs).0
unfolding add_missing scheduled
add_missing-HasNoStale max_channels uuids all n [] cs w h = h
add_missing-HasNoStale max_channels uuids all n (d ∷ ds) cs w h =
    elim (Bool-cases (exists_for d.bookmark_id cs)) [
      | inl here ↦ rw here (add_missing-HasNoStale max_channels uuids all n ds cs w.1 h)
      | inr missing ↦ rw missing (elim (Bool-cases (leb max_channels (length cs))) [
        | inl full ↦ rw full h
        | inr room ↦
            let c = scheduled (uuids n) d in
            rw room (
              add_missing-HasNoStale max_channels uuids all (n + 1) ds (cs ++ c ∷ []) w.1
                (append-HasNoStale all cs c h (rw w.0)))
      ])
    ]

-- After a synchronisation with the scheduler no channel without a subscriber is left of a
-- bookmark that is not desired, and every desired bookmark has a channel, or the list has reached
-- the limit.
pub reconcile-HasAll :
    (max_channels : ℕ) (uuids : ℕ → ℕ) (ds : List Desired) (cs : List InternalChannel)
    → let cs' = (reconcile max_channels uuids ds cs).0 in
      HasNoStale ds cs' × (HasAll ds cs' ⊎ (max_channels ≤ length cs'))
unfolding reconcile
reconcile-HasAll max_channels uuids ds cs =
    let fresh = (refresh_all ds (prune ds cs).0).0 in
    (
      add_missing-HasNoStale max_channels uuids ds 0 ds fresh (AllWanted-self ds)
          (refresh_all-HasNoStale ds (prune ds cs).0 (prune-HasNoStale ds cs)),
      add_missing-HasAll max_channels uuids 0 ds fresh,
    )
