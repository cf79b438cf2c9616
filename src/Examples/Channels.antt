-- ===== src/Examples/Channels.antt =====
-- The registry of virtual channels at concrete inputs.
use trx_rs.Common.{
  ℕ, ◌≤◌, String, none, some, List, [], ◌∷◌, ◌≡◌, ◌≢◌, ◌⊎◌, refl, arith, max, length,
}
use trx_rs.Channels.Keys.{ne_of_str_eq}
use trx_rs.Channels.{
  ClientChannelManager, new, channels_of, init_rig, allocate, allocated, release_session,
}
use trx_rs.Channels.Scheduler.{Desired, reconcile}
use trx_rs.Channels.Scheduler.Covers.{HasNoStale, HasAll, reconcile-HasAll}
use trx_rs.Channels.Sessions.{
  IsFreeOf, release_session-IsFreeOf, release_session-other_rig, init_rig-allocate,
}
use trx_rs.Channels.Upkeep.{
  Call, init, open_channel, select, leave, delete, destroyed_by_server, schedule, perform_all,
}
use trx_rs.Channels.Upkeep.Kept.{IsKept}
use trx_rs.Channels.Upkeep.Primary.{perform_all-init}

abbrev ft8 : Desired
ft8 = record {
  bookmark_id = "bm-ft8";
  freq_hz = 14_074_000;
  mode = "DIG";
  bandwidth_hz = 3_000;
  decoder_kinds = "ft8" ∷ [];
}

abbrev calls : List Call
calls =
    open_channel 11 1 "rig-a" 14_075_000 "DIG"
    ∷ schedule (λ n. 20) "rig-a" (ft8 ∷ [])
    ∷ select 2 "rig-a" 20
    ∷ delete "rig-a" 10
    ∷ destroyed_by_server 11
    ∷ leave 1
    ∷ []

eleven-ne-ten : ◌≢◌ {A = ℕ} 11 10
eleven-ne-ten e = absurd (omega arith)

perform_all-init_example :
    IsKept (max 4 1) "rig-a" 10 (perform_all (init 10 "rig-a" 14_074_000 "USB" ∷ calls) (new 4))
perform_all-init_example =
    perform_all-init 4 10 "rig-a" 14_074_000 "USB" calls
      (tt, (tt, (tt, (tt, (eleven-ne-ten, (tt, tt))))))

reconcile-HasAll_example :
    let cs = (reconcile 4 (λ n. 20) (ft8 ∷ []) []).0 in
    HasNoStale (ft8 ∷ []) cs × (HasAll (ft8 ∷ []) cs ⊎ (4 ≤ length cs))
reconcile-HasAll_example = reconcile-HasAll 4 (λ n. 20) (ft8 ∷ []) []

-- session 1 has opened channel 11 on rig-a, and then channel 12 on rig-b
abbrev on_two_rigs : ClientChannelManager
on_two_rigs = record {
  rigs =
      ("rig-a", allocated 11 1 14_075_000 "DIG" ∷ [])
      ∷ ("rig-b", allocated 12 1 7_074_000 "DIG" ∷ [])
      ∷ [];
  sessions = λ s. some ("rig-b", 12);
  max_channels = 4;
  sent = [];
  changes = [];
}

release_session-IsFreeOf_example :
    let m' = release_session 1 on_two_rigs in
    (m'.sessions 1 ≡ none) × IsFreeOf 1 (channels_of "rig-b" m')
release_session-IsFreeOf_example =
    release_session-IsFreeOf 1 "rig-b" 12 on_two_rigs refl (allocated 12 1 7_074_000 "DIG" ∷ [])
      refl (refl, tt)

rig_b-ne-rig_a : ◌≢◌ {A = String} "rig-b" "rig-a"
rig_b-ne-rig_a = ne_of_str_eq "rig-b" "rig-a" refl

release_session-other_rig_example :
    channels_of "rig-a" (release_session 1 on_two_rigs) ≡ allocated 11 1 14_075_000 "DIG" ∷ []
release_session-other_rig_example =
    release_session-other_rig 1 "rig-b" 12 on_two_rigs refl "rig-a" rig_b-ne-rig_a

init_rig-allocate_example :
    channels_of "rig-a"
      (init_rig 10 "rig-a" 14_074_000 "USB" (allocate 11 1 "rig-a" 14_075_000 "DIG" (new 4)).1)
    ≡ allocated 11 1 14_075_000 "DIG" ∷ []
unfolding new
init_rig-allocate_example =
    init_rig-allocate 11 1 "rig-a" 14_075_000 "DIG" (new 4) 10 14_074_000 "USB" refl (omega arith)
