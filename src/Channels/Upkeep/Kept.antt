-- ===== src/Channels/Upkeep/Kept.antt =====
-- The primary channel and the limit through the edits of one list
-- (src/trx-client/trx-frontend/trx-frontend-http/src/vchan.rs).
use trx_rs.Common.{
  ℕ, ◌≤◌, String, Bool, true, false, Option, none, some, List, [], ◌∷◌, map, length, ◌≡◌, refl,
  arith, not, ◌||◌, if◌then◌else◌,
}
use trx_rs.Channels.Keys.{str_eq, str_eq→eq, lookup, lookup-insert}
use trx_rs.Channels.{
  InternalChannel, VChanAudioCmd, ClientChannelManager, broadcast_change, send, send_all, put,
  or_default, channels_of, with_primary, set_session, is_empty, drop_session, still_needed,
  unneeded, any_holds, freed_on, release_session_on_rig,
}
use trx_rs.Channels.Edit.{forget, is_mapped, forget_mapped}
use trx_rs.Channels.Lists.{Leads, tidy-Leads, tidy-length}

abbrev pub LedBy : ℕ → Option (List InternalChannel) → Type 0
LedBy p none = ⊥
LedBy p (some cs) = Leads p cs

abbrev pub size : Option (List InternalChannel) → ℕ
size none = 0
size (some cs) = length cs

-- no rig has more than n channels, and the list of one begins with its primary channel
abbrev pub IsKept : ℕ → String → ℕ → ClientChannelManager → Type 0
IsKept n rig p m =
    (m.max_channels ≡ n)
    × (1 ≤ n)
    × ((r : String) → size (lookup r m.rigs) ≤ n)
    × LedBy p (lookup rig m.rigs)

module _ (n : ℕ) (rig : String) (p : ℕ) where
  abbrev Kept : ClientChannelManager → Type 0
  Kept m = IsKept n rig p m

  pub choose-size :
      (q : Bool) (cs : List InternalChannel) (o : Option (List InternalChannel))
      → length cs ≤ n
      → size o ≤ n
      → size (if q then some cs else o) ≤ n
  choose-size true cs o h k = h
  choose-size false cs o h k = k

  pub choose-LedBy :
      (q : Bool) (cs : List InternalChannel) (o : Option (List InternalChannel))
      → (q ≡ true → Leads p cs)
      → LedBy p o
      → LedBy p (if q then some cs else o)
  choose-LedBy true cs o h k = h refl
  choose-LedBy false cs o h k = k

  -- Writing back a list that is short enough, and led by the primary channel if it is of the rig.
  pub put-Kept :
      (r : String) (cs : List InternalChannel) (m : ClientChannelManager)
      → length cs ≤ n
      → (r ≡ rig → Leads p cs)
      → Kept m
      → Kept (put r cs m)
  unfolding put
  put-Kept r cs m short leads h = (
    h.0,
    h.1,
    λ j.
        rw (lookup-insert r j cs m.rigs)
          (choose-size (str_eq r j) cs (lookup j m.rigs) short (h.2 j)),
    rw (lookup-insert r rig cs m.rigs)
        (choose-LedBy (str_eq r rig) cs (lookup rig m.rigs) (λ e. leads (str_eq→eq r rig e)) h.3),
  )

  pub size_of :
      (r : String) (m : ClientChannelManager) {cs : List InternalChannel}
      → lookup r m.rigs ≡ some cs
      → Kept m
      → length cs ≤ n
  size_of r m e h = rw e at (h.2 r)

  pub led_of :
      (r : String) (m : ClientChannelManager) {cs : List InternalChannel}
      → lookup r m.rigs ≡ some cs
      → Kept m
      → r ≡ rig
      → Leads p cs
  led_of r m e h same = let e' : lookup rig m.rigs ≡ some _ = rw same at e in rw e' at h.3

  pub send_all-Kept :
      (r : String) (cmds : List VChanAudioCmd) (m : ClientChannelManager)
      → Kept m
      → Kept (send_all r cmds m)
  unfolding send_all send
  send_all-Kept r [] m h = h
  send_all-Kept r (cmd ∷ cmds) m h = send_all-Kept r cmds (send r cmd m) h

  pub forget-Kept : (ss : List ℕ) (m : ClientChannelManager) → Kept m → Kept (forget ss m)
  unfolding forget set_session
  forget-Kept [] m h = h
  forget-Kept (s ∷ ss) m h = forget-Kept ss (set_session s none m) h

  pub choose : (q : Bool) (x y : ClientChannelManager) → Kept x → Kept y → Kept (if q then x else y)
  choose true x y h k = h
  choose false x y h k = k

  pub forget_mapped-Kept :
      (id : ℕ) (ss : List ℕ) (m : ClientChannelManager) → Kept m → Kept (forget_mapped id ss m)
  unfolding forget_mapped set_session
  forget_mapped-Kept id [] m h = h
  forget_mapped-Kept id (s ∷ ss) m h =
      forget_mapped-Kept id ss (if is_mapped id (m.sessions s) then set_session s none m else m)
        (choose (is_mapped id (m.sessions s)) (set_session s none m) m h h)

  -- the list of a rig that is looked up, and `or_default` where there is none
  pub channels_of-Kept :
      (r : String) (m : ClientChannelManager)
      → Kept m
      → (length (channels_of r m) ≤ n) × (r ≡ rig → Leads p (channels_of r m))
  channels_of-Kept r m h = known (lookup r m.rigs) refl
    where
      known :
          (o : Option (List InternalChannel))
          → lookup r m.rigs ≡ o
          → (length (or_default o) ≤ n) × (r ≡ rig → Leads p (or_default o))
      known none e = (
        omega arith,
        λ same. let e' : lookup rig m.rigs ≡ none = rw same at e in absurd (rw e' at h.3),
      )
      known (some cs) e = (size_of r m e h, led_of r m e h)

  pub with_primary-length :
      (uuid hz : ℕ) (mode : String) (cs : List InternalChannel)
      → length cs ≤ n
      → 1 ≤ n
      → length (with_primary uuid hz mode cs) ≤ n
  unfolding with_primary
  with_primary-length uuid hz mode [] h k = k
  with_primary-length uuid hz mode (c ∷ cs) h k = h

  pub with_primary-Leads :
      (uuid hz : ℕ) (mode : String) (cs : List InternalChannel)
      → Leads p cs
      → Leads p (with_primary uuid hz mode cs)
  unfolding with_primary
  with_primary-Leads uuid hz mode [] h = absurd h
  with_primary-Leads uuid hz mode (c ∷ cs) h = h

  pub freed_on-Kept :
      (s : ℕ) (r : String) (o : Option (List InternalChannel)) (m : ClientChannelManager)
      → lookup r m.rigs ≡ o
      → Kept m
      → Kept (freed_on s r o m)
  unfolding freed_on broadcast_change
  freed_on-Kept s r none m e h = h
  freed_on-Kept s r (some cs) m e h =
      let left = map (drop_session s) cs in
      let kept = still_needed left in
      let m' : ClientChannelManager = put r kept m in
      let good : Kept m' =
        put-Kept r kept m (omega (arith, tidy-length s cs, size_of r m e h))
          (λ same. tidy-Leads p s cs (led_of r m e h same)) h in
      let told = any_holds s cs || not (is_empty (unneeded left)) in
      send_all-Kept r (unneeded left) (if told then broadcast_change r kept m' else m')
        (choose told (broadcast_change r kept m') m' good good)

  pub release_on_rig-Kept :
      (s : ℕ) (r : String) (m : ClientChannelManager) → Kept m → Kept (release_session_on_rig s r m)
  unfolding release_session_on_rig
  release_on_rig-Kept s r m h = freed_on-Kept s r (lookup r m.rigs) m refl h
