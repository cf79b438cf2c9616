-- ===== src/Channels/Scheduler.antt =====
-- The channels that the scheduler asks for: `sync_scheduler_channels` of
-- src/trx-client/trx-frontend/trx-frontend-http/src/vchan.rs. Every change of the list goes with a command to the audio
-- client, so the flag `changed` is whether there is a command.
pub mod Covers
use trx_rs.Common.{
  ℕ, suc, ◌+◌, String, Bool, true, false, not, ◌&&◌, Option, none, some, List, [], ◌∷◌, ◌++◌,
  length, leb, ◌==◌, if◌then◌else◌,
}
use trx_rs.Channels.Keys.{str_eq, texts_eq, lookup}
use trx_rs.Channels.{
  InternalChannel, VChanAudioCmd, subscribe, remove, set_freq, set_mode, set_bandwidth,
  ClientChannelManager, broadcast_change, send_all, put, is_empty,
}

pub record Desired : Type 0 where
  pub bookmark_id : String
  pub freq_hz : ℕ
  pub mode : String
  pub bandwidth_hz : ℕ
  pub decoder_kinds : List String

-- `desired_map.get(bookmark_id)`: of several entries for a bookmark the last counts
abbrev pub wanted : String → List Desired → Option Desired
wanted k [] = none
wanted k (d ∷ ds) = elim (wanted k ds) [
  | none ↦ if str_eq d.bookmark_id k then some d else none
  | some e ↦ some e
]

abbrev pub is_wanted : Option Desired → Bool
is_wanted none = false
is_wanted (some d) = true

abbrev pub Edit : Type 0
Edit = List InternalChannel × List VChanAudioCmd

-- a scheduled channel without a subscriber goes when its bookmark is not desired
abbrev pub is_stale : List Desired → InternalChannel → Bool
is_stale ds c = elim c.scheduler_bookmark_id [
  | none ↦ false
  | some k ↦ not (is_wanted (wanted k ds)) && is_empty c.session_ids
]

unfoldable pub prune : List Desired → List InternalChannel → Edit
prune ds [] = ([], [])
prune ds (c ∷ cs) =
    let (left, cmds) = prune ds cs in
    if is_stale ds c then (left, remove c.id ∷ cmds) else (c ∷ left, cmds)

note : Bool → VChanAudioCmd → List VChanAudioCmd
note same cmd = if same then [] else cmd ∷ []

-- one channel brought to what is desired, and the commands in their order
unfoldable pub updated : InternalChannel → Desired → InternalChannel × List VChanAudioCmd
unfolding note
updated c d = (
  record c {
    freq_hz = d.freq_hz;
    mode = d.mode;
    bandwidth_hz = d.bandwidth_hz;
    decoder_kinds = d.decoder_kinds;
  },
  note (c.freq_hz == d.freq_hz) (set_freq c.id d.freq_hz)
      ++ (note (str_eq c.mode d.mode) (set_mode c.id d.mode)
          ++ (note (c.bandwidth_hz == d.bandwidth_hz) (set_bandwidth c.id d.bandwidth_hz)
              ++ note (texts_eq c.decoder_kinds d.decoder_kinds)
                  (subscribe c.id d.freq_hz d.mode d.bandwidth_hz d.decoder_kinds))),
)

unfoldable pub update_to : Option Desired → InternalChannel → InternalChannel × List VChanAudioCmd
unfolding updated
update_to none c = (c, [])
update_to (some d) c = updated c d

unfoldable pub refresh_by :
    List Desired → InternalChannel → Option String → InternalChannel × List VChanAudioCmd
unfolding update_to
refresh_by ds c none = (c, [])
refresh_by ds c (some k) = update_to (wanted k ds) c

unfoldable pub refresh_channel :
    List Desired → InternalChannel → InternalChannel × List VChanAudioCmd
unfolding refresh_by
refresh_channel ds c = refresh_by ds c c.scheduler_bookmark_id

unfoldable pub refresh_all : List Desired → List InternalChannel → Edit
unfolding refresh_channel
refresh_all ds [] = ([], [])
refresh_all ds (c ∷ cs) =
    let (c', cmds) = refresh_channel ds c in
    let (cs', rest) = refresh_all ds cs in (c' ∷ cs', cmds ++ rest)

abbrev pub has_bookmark : String → InternalChannel → Bool
has_bookmark k c = elim c.scheduler_bookmark_id [ none ↦ false | some j ↦ str_eq j k ]

abbrev pub exists_for : String → List InternalChannel → Bool
exists_for k [] = false
exists_for k (c ∷ cs) = if has_bookmark k c then true else exists_for k cs

unfoldable pub scheduled : ℕ → Desired → InternalChannel
scheduled uuid d = record {
  id = uuid;
  freq_hz = d.freq_hz;
  mode = d.mode;
  bandwidth_hz = d.bandwidth_hz;
  decoder_kinds = d.decoder_kinds;
  permanent = false;
  scheduler_bookmark_id = some d.bookmark_id;
  session_ids = [];
}

-- the n-th new channel has the identifier `uuids n`
unfoldable pub add_missing : ℕ → (ℕ → ℕ) → ℕ → List Desired → List InternalChannel → Edit
unfolding scheduled
add_missing max_channels uuids n [] cs = (cs, [])
add_missing max_channels uuids n (d ∷ ds) cs =
    let here = exists_for d.bookmark_id cs in
    let kept = add_missing max_channels uuids n ds cs in
    let grown = add_missing max_channels uuids (n + 1) ds (cs ++ scheduled (uuids n) d ∷ []) in
    let start = subscribe (uuids n) d.freq_hz d.mode d.bandwidth_hz d.decoder_kinds in
    if here
    then kept
    else if leb max_channels (length cs)
    then (cs, [])
    else (grown.0, start ∷ grown.1)

unfoldable pub reconcile : ℕ → (ℕ → ℕ) → List Desired → List InternalChannel → Edit
unfolding prune refresh_all add_missing
reconcile max_channels uuids ds cs =
    let (left, removed) = prune ds cs in
    let (fresh, told) = refresh_all ds left in
    let (all, added) = add_missing max_channels uuids 0 ds fresh in
    (all, removed ++ (told ++ added))

unfoldable pub synced_rig :
    (ℕ → ℕ)
    → String
    → List Desired
    → Option (List InternalChannel)
    → ClientChannelManager
    → ClientChannelManager
unfolding reconcile put send_all broadcast_change
synced_rig uuids rig_id ds none m = m
synced_rig uuids rig_id ds (some cs) m =
    let (cs', cmds) = reconcile m.max_channels uuids ds cs in
    let m' = send_all rig_id cmds (put rig_id cs' m) in
    if is_empty cmds then m' else broadcast_change rig_id cs' m'

unfoldable pub sync_scheduler_channels :
    (ℕ → ℕ) → String → List Desired → ClientChannelManager → ClientChannelManager
unfolding synced_rig
sync_scheduler_channels uuids rig_id ds m = synced_rig uuids rig_id ds (lookup rig_id m.rigs) m
