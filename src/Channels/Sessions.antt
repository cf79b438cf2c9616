-- ===== src/Channels/Sessions.antt =====
-- What a session leaves behind (`release_session` and `allocate` of
-- src/trx-client/trx-frontend/trx-frontend-http/src/vchan.rs).
use mathlib.Core.Path.{subst}
use trx_rs.Common.{
  ℕ, ◌≤◌, String, Bool, true, false, not, ◌||◌, Option, none, some, List, [], ◌∷◌, map, leb, ◌≡◌,
  ◌≢◌, refl, sym, ap, ◌∙◌, inl, inr, arith, Bool-cases, ==_refl, if◌then◌else◌,
}
use trx_rs.Channels.Keys.{str_eq, str_eq_refl, str_eq→eq, lookup, insert, lookup-insert}
use trx_rs.Channels.{
  InternalChannel, VChanAudioCmd, ClientChannelManager, broadcast_change, send, send_all, put,
  or_default, channels_of, with_primary, init_rig, set_session, allocated, allocate, lists, without,
  is_empty, drop_session, is_needed, still_needed, unneeded, any_holds, freed_on,
  release_session_on_rig, release_mapped, release_session,
}

send_all-rigs :
    (r : String) (cmds : List VChanAudioCmd) (m : ClientChannelManager)
    → (send_all r cmds m).rigs ≡ m.rigs
unfolding send_all send
send_all-rigs r [] m = refl
send_all-rigs r (cmd ∷ cmds) m = send_all-rigs r cmds (send r cmd m)

send_all-sessions :
    (r : String) (cmds : List VChanAudioCmd) (m : ClientChannelManager)
    → (send_all r cmds m).sessions ≡ m.sessions
unfolding send_all send
send_all-sessions r [] m = refl
send_all-sessions r (cmd ∷ cmds) m = send_all-sessions r cmds (send r cmd m)

told :
    (q : Bool) (r : String) (cs : List InternalChannel) (m : ClientChannelManager)
    → ((if q then broadcast_change r cs m else m).rigs ≡ m.rigs)
      × ((if q then broadcast_change r cs m else m).sessions ≡ m.sessions)
unfolding broadcast_change
told true r cs m = (refl, refl)
told false r cs m = (refl, refl)

abbrev tidied : ℕ → List InternalChannel → List InternalChannel
tidied s cs = still_needed (map (drop_session s) cs)

freed_on-rigs :
    (s : ℕ) (r : String) (cs : List InternalChannel) (m : ClientChannelManager)
    → ((freed_on s r (some cs) m).rigs ≡ insert r (tidied s cs) m.rigs)
      × ((freed_on s r (some cs) m).sessions ≡ m.sessions)
unfolding freed_on put
freed_on-rigs s r cs m =
    let left = map (drop_session s) cs in
    let m' : ClientChannelManager = put r (still_needed left) m in
    let q = any_holds s cs || not (is_empty (unneeded left)) in
    let t = told q r (still_needed left) m' in
    let x : ClientChannelManager = if q then broadcast_change r (still_needed left) m' else m' in
    (send_all-rigs r (unneeded left) x ∙ t.0, send_all-sessions r (unneeded left) x ∙ t.1)

lookup-insert_self :
    (r : String) (cs : List InternalChannel) (rigs : List (String × List InternalChannel))
    → lookup r (insert r cs rigs) ≡ some cs
lookup-insert_self r cs rigs =
    lookup-insert r r cs rigs
    ∙ ap (λ (q : Bool). if q then some cs else lookup r rigs) (str_eq_refl r)

lookup-insert_ne :
    (r j : String) (cs : List InternalChannel) (rigs : List (String × List InternalChannel))
    → r ≢ j
    → lookup j (insert r cs rigs) ≡ lookup j rigs
lookup-insert_ne r j cs rigs ne = elim (Bool-cases (str_eq r j)) [
  | inl same ↦ absurd (ne (str_eq→eq r j same))
  | inr other ↦
      lookup-insert r j cs rigs ∙ ap (λ (q : Bool). if q then some cs else lookup j rigs) other
]

-- a session is listed at most once in each channel
abbrev pub IsOnce : ℕ → List InternalChannel → Type 0
IsOnce s [] = Unit
IsOnce s (c ∷ cs) = (lists s (without s c.session_ids) ≡ false) × IsOnce s cs

-- no channel lists the session, and each is permanent, scheduled or has another subscriber
abbrev pub IsFreeOf : ℕ → List InternalChannel → Type 0
IsFreeOf s [] = Unit
IsFreeOf s (c ∷ cs) = (lists s c.session_ids ≡ false) × (is_needed c ≡ true) × IsFreeOf s cs

tidied-IsFreeOf : (s : ℕ) (cs : List InternalChannel) → IsOnce s cs → IsFreeOf s (tidied s cs)
unfolding still_needed
tidied-IsFreeOf s [] h = tt
tidied-IsFreeOf s (c ∷ cs) h = elim (Bool-cases (is_needed (drop_session s c))) [
  | inl kept ↦ rw kept (h.0, kept, tidied-IsFreeOf s cs h.1)
  | inr gone ↦ rw gone (tidied-IsFreeOf s cs h.1)
]

module _ (s : ℕ) (r : String) (id : ℕ) (m : ClientChannelManager)
    (mapped : m.sessions s ≡ some (r, id)) where
  release_session-mapped : release_session s m ≡ release_session_on_rig s r (set_session s none m)
  unfolding release_session release_mapped
  release_session-mapped = ap (λ o. release_mapped s o (set_session s none m)) mapped

  -- After the release of a session that is mapped to a known rig and listed at most once in each
  -- of its channels, the session is mapped to nothing, no channel of that rig lists it, and each
  -- that is left is permanent, scheduled or has another subscriber.
  pub release_session-IsFreeOf :
      (cs : List InternalChannel)
      → lookup r m.rigs ≡ some cs
      → IsOnce s cs
      → let m' = release_session s m in (m'.sessions s ≡ none) × IsFreeOf s (channels_of r m')
  unfolding release_session_on_rig set_session
  release_session-IsFreeOf cs e once =
      let m0 : ClientChannelManager = set_session s none m in
      let m1 : ClientChannelManager = freed_on s r (some cs) m0 in
      let same : release_session s m ≡ m1 =
        release_session-mapped ∙ ap (λ o. freed_on s r o m0) e in
      let law = freed_on-rigs s r cs m0 in
      let list : lookup r m1.rigs ≡ some (tidied s cs) =
        ap (lookup r) law.0 ∙ lookup-insert_self r (tidied s cs) m.rigs in
      (
        ap (λ x. x.sessions s) same
            ∙ ap (λ f. f s) law.1
            ∙ ap (λ (q : Bool). if q then none else m.sessions s) (==_refl s),
        subst (λ x. IsFreeOf s (channels_of r x)) (sym same)
            (subst (λ o. IsFreeOf s (or_default o)) (sym list) (tidied-IsFreeOf s cs once)),
      )

  freed_on-other :
      (j : String) (o : Option (List InternalChannel))
      → r ≢ j
      → lookup j (freed_on s r o (set_session s none m)).rigs ≡ lookup j m.rigs
  unfolding freed_on set_session
  freed_on-other j none ne = refl
  freed_on-other j (some cs) ne =
      ap (lookup j) (freed_on-rigs s r cs (set_session s none m)).0
      ∙ lookup-insert_ne r j (tidied s cs) m.rigs ne

  -- The release of a session that is mapped to one rig changes no channel of another, so that a
  -- session that has gone from rig to rig stays a subscriber on the first.
  pub release_session-other_rig :
      (j : String) → r ≢ j → channels_of j (release_session s m) ≡ channels_of j m
  unfolding release_session_on_rig set_session
  release_session-other_rig j ne =
      ap (λ x. channels_of j x) release_session-mapped
      ∙ ap or_default (freed_on-other j (lookup r m.rigs) ne)

allocate-rigs :
    (uuid s : ℕ) (r : String) (hz : ℕ) (mode : String) (m : ClientChannelManager)
    → lookup r m.rigs ≡ none
    → 1 ≤ m.max_channels
    → (allocate uuid s r hz mode m).1.rigs ≡ insert r (allocated uuid s hz mode ∷ []) m.rigs
unfolding allocate put broadcast_change send set_session
allocate-rigs uuid s r hz mode m fresh room =
    let free : leb m.max_channels 0 ≡ false = ground arith in rw (fresh, free)

-- If a session opens a channel on a rig that is not set up yet, setting it up afterwards changes
-- nothing, and the rig is left with that channel alone, which is not permanent.
pub init_rig-allocate :
    (uuid s : ℕ) (r : String) (hz : ℕ) (mode : String) (m : ClientChannelManager) (uuid' hz' : ℕ)
    (mode' : String)
    → lookup r m.rigs ≡ none
    → 1 ≤ m.max_channels
    → channels_of r (init_rig uuid' r hz' mode' (allocate uuid s r hz mode m).1)
      ≡ allocated uuid s hz mode ∷ []
unfolding init_rig put with_primary
init_rig-allocate uuid s r hz mode m uuid' hz' mode' fresh room =
    let c = allocated uuid s hz mode in
    let m1 = (allocate uuid s r hz mode m).1 in
    let after : channels_of r m1 ≡ c ∷ [] =
      ap (λ x. or_default (lookup r x)) (allocate-rigs uuid s r hz mode m fresh room)
      ∙ ap or_default (lookup-insert_self r (c ∷ []) m.rigs) in
    ap or_default (lookup-insert_self r (with_primary uuid' hz' mode' (channels_of r m1)) m1.rigs)
    ∙ ap (with_primary uuid' hz' mode') after
