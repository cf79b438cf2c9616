-- ===== src/Channels/Upkeep.antt =====
-- Any sequence of calls of the registry
-- (src/trx-client/trx-frontend/trx-frontend-http/src/vchan.rs).
pub mod Edits
pub mod Kept
pub mod Primary
use trx_rs.Common.{
  ℕ, zero, suc, ◌+◌, ◌≤◌, ◌<◌, String, Bool, true, false, Option, none, some, List, [], ◌∷◌, ◌++◌,
  map, length, leb, ◌≡◌, ◌≢◌, refl, sym, ap, ◌∙◌, inl, inr, arith, Bool-cases, Option-cases,
  length-append, not, ◌||◌, ◌==◌, if◌then◌else◌,
}
use trx_rs.Channels.Keys.{str_eq, str_eq→eq, lookup, insert, lookup-insert}
use trx_rs.Channels.{
  InternalChannel, ClientChannel, VChanAudioCmd, ClientChannelManager, is_fixed, broadcast_change,
  send, send_all, put, channels_of, with_primary, init_rig, tuned_primary, update_primary,
  set_session, allocated, allocate, is_empty, drop_session, still_needed, unneeded, any_holds,
  freed_on, release_session_on_rig, release_mapped, release_session,
}
use trx_rs.Channels.Edit.{
  find, find_from, change, take_out, join_session, enrolled, join_known, subscribe_session, forget,
  deleted, delete_known, delete_channel, holder, is_mapped, forget_mapped, destroyed,
  remove_by_uuid, edited, edit_known, set_channel_freq, set_channel_mode, set_channel_bandwidth,
}
use trx_rs.Channels.Scheduler.{Desired, reconcile, synced_rig, sync_scheduler_channels}

pub data Call : Type 0 where
  init : ℕ → String → ℕ → String → Call
  update : String → ℕ → String → Call
  open_channel : ℕ → ℕ → String → ℕ → String → Call
  select : ℕ → String → ℕ → Call
  leave : ℕ → Call
  delete : String → ℕ → Call
  destroyed_by_server : ℕ → Call
  change_freq : String → ℕ → ℕ → Call
  set_mode : String → ℕ → String → Call
  set_bandwidth : String → ℕ → ℕ → Call
  schedule : (ℕ → ℕ) → String → List Desired → Call

unfoldable pub perform : Call → ClientChannelManager → ClientChannelManager
perform (init uuid rig_id hz mode) m = init_rig uuid rig_id hz mode m
perform (update rig_id hz mode) m = update_primary rig_id hz mode m
perform (open_channel uuid s rig_id hz mode) m = (allocate uuid s rig_id hz mode m).1
perform (select s rig_id id) m = (subscribe_session s rig_id id m).1
perform (leave s) m = release_session s m
perform (delete rig_id id) m = (delete_channel rig_id id m).1
perform (destroyed_by_server id) m = remove_by_uuid id m
perform (change_freq rig_id id hz) m = (set_channel_freq rig_id id hz m).1
perform (set_mode rig_id id mode) m = (set_channel_mode rig_id id mode m).1
perform (set_bandwidth rig_id id hz) m = (set_channel_bandwidth rig_id id hz m).1
perform (schedule uuids rig_id ds) m = sync_scheduler_channels uuids rig_id ds m

unfoldable pub perform_all : List Call → ClientChannelManager → ClientChannelManager
unfolding perform
perform_all [] m = m
perform_all (k ∷ ks) m = perform_all ks (perform k m)
