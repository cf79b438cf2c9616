-- ===== src/Channels/Upkeep/Primary.antt =====
-- The primary channel stays, and the limit holds
-- (src/trx-client/trx-frontend/trx-frontend-http/src/vchan.rs).
use trx_rs.Common.{
  ℕ, max, ◌<◌, String, Option, none, some, List, [], ◌∷◌, ◌++◌, length, leb, ◌≡◌, ◌≢◌, refl, inl,
  inr, arith, Bool-cases, length-append, not, ◌||◌, ◌==◌,
}
use trx_rs.Channels.Keys.{str_eq, str_eq_refl, lookup, lookup-insert}
use trx_rs.Channels.{
  InternalChannel, VChanAudioCmd, ClientChannelManager, new, broadcast_change, send, put,
  channels_of, with_primary, init_rig, tuned_primary, update_primary, set_session, allocated,
  allocate, release_mapped, release_session,
}
use trx_rs.Channels.Edit.{set_channel_freq, set_channel_mode, set_channel_bandwidth}
use trx_rs.Channels.Scheduler.{sync_scheduler_channels}
use trx_rs.Channels.Lists.{append-Leads}
use trx_rs.Channels.Upkeep.{
  Call, init, update, open_channel, select, leave, delete, destroyed_by_server, change_freq,
  set_mode, set_bandwidth, schedule, perform, perform_all,
}
use trx_rs.Channels.Upkeep.Kept.{
  IsKept, choose-size, put-Kept, size_of, led_of, choose, channels_of-Kept, with_primary-length,
  with_primary-Leads, release_on_rig-Kept,
}
use trx_rs.Channels.Upkeep.Edits.{
  subscribe_session-Kept, delete_channel-Kept, edited-Kept, synced_rig-Kept, remove_by_uuid-Kept,
}

-- the server never names the primary channel, whose identifier it is not told
abbrev pub IsSpared : ℕ → Call → Type 0
IsSpared p (destroyed_by_server id) = id ≢ p
IsSpared p k = Unit

abbrev pub Spares : ℕ → List Call → Type 0
Spares p [] = Unit
Spares p (k ∷ ks) = IsSpared p k × Spares p ks

module _ (n : ℕ) (rig : String) (p : ℕ) where
  abbrev Kept : ClientChannelManager → Type 0
  Kept m = IsKept n rig p m

  init_rig-Kept :
      (uuid : ℕ) (r : String) (hz : ℕ) (mode : String) (m : ClientChannelManager)
      → Kept m
      → Kept (init_rig uuid r hz mode m)
  unfolding init_rig
  init_rig-Kept uuid r hz mode m h =
      let cs = channels_of r m in
      let old = channels_of-Kept n rig p r m h in
      put-Kept n rig p r (with_primary uuid hz mode cs) m
        (with_primary-length n rig p uuid hz mode cs old.0 h.1)
        (λ same. with_primary-Leads n rig p uuid hz mode cs (old.1 same)) h

  tuned_primary-Kept :
      (r : String) (hz : ℕ) (mode : String) (o : Option (List InternalChannel))
      (m : ClientChannelManager)
      → lookup r m.rigs ≡ o
      → Kept m
      → Kept (tuned_primary r hz mode o m)
  unfolding tuned_primary broadcast_change
  tuned_primary-Kept r hz mode none m e h = h
  tuned_primary-Kept r hz mode (some []) m e h = h
  tuned_primary-Kept r hz mode (some (c ∷ cs)) m e h =
      let cs' : List InternalChannel = record c { freq_hz = hz; mode = mode } ∷ cs in
      choose n rig p (not (c.freq_hz == hz) || not (str_eq c.mode mode))
        (broadcast_change r cs' (put r cs' m)) m
        (put-Kept n rig p r cs' m (size_of n rig p r m e h) (led_of n rig p r m e h) h) h

  allocate-Kept :
      (uuid s : ℕ) (r : String) (hz : ℕ) (mode : String) (m : ClientChannelManager)
      → Kept m
      → Kept (allocate uuid s r hz mode m).1
  unfolding allocate broadcast_change send set_session
  allocate-Kept uuid s r hz mode m h =
      let cs = channels_of r m in
      let c = allocated uuid s hz mode in
      let old = channels_of-Kept n rig p r m h in
      elim (Bool-cases (leb m.max_channels (length cs))) [
        | inl full ↦ rw full (put-Kept n rig p r cs m old.0 old.1 h)
        | inr room ↦
            let less : length cs < m.max_channels = ground arith in
            rw room (
              put-Kept n rig p r (cs ++ c ∷ []) m
                (omega (arith, less, h.0, length-append cs (c ∷ [])))
                (λ same. append-Leads p cs (c ∷ []) (old.1 same)) h)
      ]

  release_session-Kept : (s : ℕ) (m : ClientChannelManager) → Kept m → Kept (release_session s m)
  unfolding release_session set_session
  release_session-Kept s m h = mapped (m.sessions s)
    where
      mapped : (o : Option (String × ℕ)) → Kept (release_mapped s o (set_session s none m))
      mapped none = h
      mapped (some (r, id)) = release_on_rig-Kept n rig p s r (set_session s none m) h

  -- the call may not be the server's news that the primary channel is gone
  perform-Kept : (k : Call) (m : ClientChannelManager) → IsSpared p k → Kept m → Kept (perform k m)
  unfolding perform update_primary set_channel_freq set_channel_mode set_channel_bandwidth
      sync_scheduler_channels
  perform-Kept (init uuid r hz mode) m ok h = init_rig-Kept uuid r hz mode m h
  perform-Kept (update r hz mode) m ok h = tuned_primary-Kept r hz mode (lookup r m.rigs) m refl h
  perform-Kept (open_channel uuid s r hz mode) m ok h = allocate-Kept uuid s r hz mode m h
  perform-Kept (select s r id) m ok h = subscribe_session-Kept n rig p s r id m h
  perform-Kept (leave s) m ok h = release_session-Kept s m h
  perform-Kept (delete r id) m ok h = delete_channel-Kept n rig p r id m h
  perform-Kept (destroyed_by_server id) m ok h = remove_by_uuid-Kept n rig p id m ok h
  perform-Kept (change_freq r id hz) m ok h =
      edited-Kept n rig p r id (λ c. record c { freq_hz = hz }) (λ i. VChanAudioCmd.set_freq i hz) m
        (λ c. (refl, refl, refl)) h
  perform-Kept (set_mode r id mode) m ok h =
      edited-Kept n rig p r id (λ c. record c { mode = mode }) (λ i. VChanAudioCmd.set_mode i mode)
        m (λ c. (refl, refl, refl)) h
  perform-Kept (set_bandwidth r id hz) m ok h =
      edited-Kept n rig p r id (λ c. record c { bandwidth_hz = hz })
        (λ i. VChanAudioCmd.set_bandwidth i hz) m (λ c. (refl, refl, refl)) h
  perform-Kept (schedule uuids r ds) m ok h =
      synced_rig-Kept n rig p uuids r ds (lookup r m.rigs) m refl h

  pub perform_all-IsKept :
      (ks : List Call) (m : ClientChannelManager)
      → Spares p ks
      → IsKept n rig p m
      → IsKept n rig p (perform_all ks m)
  unfolding perform_all
  perform_all-IsKept [] m ok h = h
  perform_all-IsKept (k ∷ ks) m ok h =
      perform_all-IsKept ks (perform k m) ok.1 (perform-Kept k m ok.0 h)

new-init-IsKept :
    (max_channels p : ℕ) (rig : String) (hz : ℕ) (mode : String)
    → IsKept (max max_channels 1) rig p (perform (init p rig hz mode) (new max_channels))
unfolding perform init_rig put with_primary new
new-init-IsKept max_channels p rig hz mode =
    let cs : List InternalChannel = with_primary p hz mode [] in
    let n = max max_channels 1 in
    (
      refl,
      omega arith,
      λ r.
          rw (lookup-insert rig r cs [])
            (choose-size n rig p (str_eq rig r) cs none (omega arith) (omega arith)),
      rw (str_eq_refl rig) (refl, refl, refl),
    )

-- After a rig has been set up in a new registry, whatever calls of any sessions follow, as long
-- as the server does not report the primary channel itself as destroyed, no rig has more channels
-- than the limit, which is at least one, and the list of that rig begins with its permanent
-- primary channel.
pub perform_all-init :
    (max_channels p : ℕ) (rig : String) (hz : ℕ) (mode : String) (ks : List Call)
    → Spares p ks
    → IsKept (max max_channels 1) rig p (perform_all (init p rig hz mode ∷ ks) (new max_channels))
unfolding perform_all
perform_all-init max_channels p rig hz mode ks ok =
    perform_all-IsKept (max max_channels 1) rig p ks
      (perform (init p rig hz mode) (new max_channels)) ok
      (new-init-IsKept max_channels p rig hz mode)
