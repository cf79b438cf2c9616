-- ===== src/Channels.antt =====
-- The registry of virtual channels that the HTTP frontend keeps
-- (src/trx-client/trx-frontend/trx-frontend-http/src/vchan.rs, `ClientChannelManager`). A UUID is a number, and a new one
-- is an argument. What goes to the audio client and to the event streams is kept, the latest first; the
-- choice of the sender for a rig, the encoding as JSON and a full queue are not modelled.
pub mod Keys
pub mod Edit
pub mod Scheduler
pub mod Lists
pub mod Upkeep
pub mod Sessions
use trx_rs.Common.{
  ℕ, zero, suc, ◌+◌, String, Bool, true, false, not, ◌&&◌, ◌||◌, Option, none, some, List, [], ◌∷◌,
  ◌++◌, map, length, leb, max, ◌==◌, is_some, if◌then◌else◌,
}
use trx_rs.Channels.Keys.{str_eq, texts_eq, lookup, insert}

pub record InternalChannel : Type 0 where
  pub id : ℕ
  pub freq_hz : ℕ
  pub mode : String
  pub bandwidth_hz : ℕ
  pub decoder_kinds : List String
  pub permanent : Bool
  pub scheduler_bookmark_id : Option String
  pub session_ids : List ℕ

pub record ClientChannel : Type 0 where
  pub id : ℕ
  pub index : ℕ
  pub freq_hz : ℕ
  pub mode : String
  pub bandwidth_hz : ℕ
  pub permanent : Bool
  pub subscribers : ℕ

pub record SelectedChannel : Type 0 where
  pub id : ℕ
  pub freq_hz : ℕ
  pub mode : String
  pub bandwidth_hz : ℕ
  pub scheduler_bookmark_id : Option String

pub data VChanClientError : Type 0 where
  cap_reached : ℕ → VChanClientError
  not_found permanent : VChanClientError

pub data VChanResult (A : Type 0) : Type 0 where
  ok : A → VChanResult A
  err : VChanClientError → VChanResult A

pub data VChanAudioCmd : Type 0 where
  subscribe subscribe_background : ℕ → ℕ → String → ℕ → List String → VChanAudioCmd
  unsubscribe remove : ℕ → VChanAudioCmd
  set_freq : ℕ → ℕ → VChanAudioCmd
  set_mode : ℕ → String → VChanAudioCmd
  set_bandwidth : ℕ → ℕ → VChanAudioCmd

pub record ClientChannelManager : Type 0 where
  pub rigs : List (String × List InternalChannel)
  pub sessions : ℕ → Option (String × ℕ)
  pub max_channels : ℕ
  pub sent : List (String × VChanAudioCmd)
  pub changes : List (String × List ClientChannel)

unfoldable pub new : ℕ → ClientChannelManager
new max_channels = record {
  rigs = [];
  sessions = λ s. none;
  max_channels = max max_channels 1;
  sent = [];
  changes = [];
}

-- `permanent || scheduler_bookmark_id.is_some()`
abbrev pub is_fixed : InternalChannel → Bool
is_fixed c = c.permanent || is_some c.scheduler_bookmark_id

abbrev pub describe : ℕ → InternalChannel → ClientChannel
describe index c = record {
  id = c.id;
  index = index;
  freq_hz = c.freq_hz;
  mode = c.mode;
  bandwidth_hz = c.bandwidth_hz;
  permanent = is_fixed c;
  subscribers = length c.session_ids;
}

describe_all : ℕ → List InternalChannel → List ClientChannel
describe_all i [] = []
describe_all i (c ∷ cs) = describe i c ∷ describe_all (i + 1) cs

unfoldable pub broadcast_change :
    String → List InternalChannel → ClientChannelManager → ClientChannelManager
unfolding describe_all
broadcast_change rig_id cs m = record m { changes = (rig_id, describe_all 0 cs) ∷ m.changes }

unfoldable pub send : String → VChanAudioCmd → ClientChannelManager → ClientChannelManager
send rig_id cmd m = record m { sent = (rig_id, cmd) ∷ m.sent }

unfoldable pub send_all : String → List VChanAudioCmd → ClientChannelManager → ClientChannelManager
unfolding send
send_all rig_id [] m = m
send_all rig_id (cmd ∷ cmds) m = send_all rig_id cmds (send rig_id cmd m)

-- the channels of a rig, written back
unfoldable pub put : String → List InternalChannel → ClientChannelManager → ClientChannelManager
put rig_id cs m = record m { rigs = insert rig_id cs m.rigs }

-- `entry(rig_id).or_default()`
abbrev pub or_default : Option (List InternalChannel) → List InternalChannel
or_default none = []
or_default (some cs) = cs

abbrev pub channels_of : String → ClientChannelManager → List InternalChannel
channels_of rig_id m = or_default (lookup rig_id m.rigs)

unfoldable pub with_primary : ℕ → ℕ → String → List InternalChannel → List InternalChannel
with_primary uuid freq_hz mode [] =
    record {
      id = uuid;
      freq_hz = freq_hz;
      mode = mode;
      bandwidth_hz = 0;
      decoder_kinds = [];
      permanent = true;
      scheduler_bookmark_id = none;
      session_ids = [];
    }
    ∷ []
with_primary uuid freq_hz mode (c ∷ cs) = c ∷ cs

unfoldable pub init_rig : ℕ → String → ℕ → String → ClientChannelManager → ClientChannelManager
unfolding with_primary put
init_rig uuid rig_id freq_hz mode m =
    put rig_id (with_primary uuid freq_hz mode (channels_of rig_id m)) m

unfoldable pub tuned_primary :
    String
    → ℕ
    → String
    → Option (List InternalChannel)
    → ClientChannelManager
    → ClientChannelManager
unfolding put broadcast_change
tuned_primary rig_id freq_hz mode none m = m
tuned_primary rig_id freq_hz mode (some []) m = m
tuned_primary rig_id freq_hz mode (some (c ∷ cs)) m =
    let cs' : List InternalChannel = record c { freq_hz = freq_hz; mode = mode } ∷ cs in
    if not (c.freq_hz == freq_hz) || not (str_eq c.mode mode)
    then broadcast_change rig_id cs' (put rig_id cs' m)
    else m

unfoldable pub update_primary : String → ℕ → String → ClientChannelManager → ClientChannelManager
unfolding tuned_primary
update_primary rig_id freq_hz mode m = tuned_primary rig_id freq_hz mode (lookup rig_id m.rigs) m

unfoldable pub channels : String → ClientChannelManager → List ClientChannel
unfolding describe_all
channels rig_id m = describe_all 0 (channels_of rig_id m)

unfoldable pub set_session : ℕ → Option (String × ℕ) → ClientChannelManager → ClientChannelManager
set_session s v m = record m { sessions = λ other. if s == other then v else m.sessions other }

abbrev pub allocated : ℕ → ℕ → ℕ → String → InternalChannel
allocated uuid session_id freq_hz mode = record {
  id = uuid;
  freq_hz = freq_hz;
  mode = mode;
  bandwidth_hz = 0;
  decoder_kinds = [];
  permanent = false;
  scheduler_bookmark_id = none;
  session_ids = session_id ∷ [];
}

unfoldable pub allocate :
    ℕ
    → ℕ
    → String
    → ℕ
    → String
    → ClientChannelManager
    → VChanResult ClientChannel × ClientChannelManager
unfolding put broadcast_change send set_session
allocate uuid session_id rig_id freq_hz mode m =
    let cs = channels_of rig_id m in
    let c : InternalChannel = allocated uuid session_id freq_hz mode in
    let cs' = cs ++ c ∷ [] in
    let m' : ClientChannelManager = send rig_id (subscribe uuid freq_hz mode 0 []) (
      set_session session_id (some (rig_id, uuid))
        (broadcast_change rig_id cs' (put rig_id cs' m))) in
    if leb m.max_channels (length cs)
    then (err (cap_reached m.max_channels), put rig_id cs m)
    else (ok (describe (length cs) c), m')

-- the first occurrence goes
abbrev pub without : ℕ → List ℕ → List ℕ
without s [] = []
without s (i ∷ is) = if i == s then is else i ∷ without s is

abbrev pub lists : ℕ → List ℕ → Bool
lists s [] = false
lists s (i ∷ is) = i == s || lists s is

abbrev pub is_empty {ℓ} : {A : Type ℓ} → List A → Bool
is_empty [] = true
is_empty (x ∷ xs) = false

abbrev pub drop_session : ℕ → InternalChannel → InternalChannel
drop_session s c = record c { session_ids = without s c.session_ids }

-- whether a channel stays when sessions have left
abbrev pub is_needed : InternalChannel → Bool
is_needed c = is_fixed c || not (is_empty c.session_ids)

unfoldable pub still_needed : List InternalChannel → List InternalChannel
still_needed [] = []
still_needed (c ∷ cs) = if is_needed c then c ∷ still_needed cs else still_needed cs

unfoldable pub unneeded : List InternalChannel → List VChanAudioCmd
unneeded [] = []
unneeded (c ∷ cs) = if is_needed c then unneeded cs else remove c.id ∷ unneeded cs

unfoldable pub any_holds : ℕ → List InternalChannel → Bool
any_holds s [] = false
any_holds s (c ∷ cs) = lists s c.session_ids || any_holds s cs

unfoldable pub freed_on :
    ℕ → String → Option (List InternalChannel) → ClientChannelManager → ClientChannelManager
unfolding put broadcast_change send_all still_needed unneeded any_holds
freed_on s rig_id none m = m
freed_on s rig_id (some cs) m =
    let left = map (drop_session s) cs in
    let kept = still_needed left in
    let cmds = unneeded left in
    let m' = put rig_id kept m in
    send_all rig_id cmds
      (if any_holds s cs || not (is_empty cmds) then broadcast_change rig_id kept m' else m')

unfoldable pub release_session_on_rig : ℕ → String → ClientChannelManager → ClientChannelManager
unfolding freed_on
release_session_on_rig s rig_id m = freed_on s rig_id (lookup rig_id m.rigs) m

unfoldable pub release_mapped :
    ℕ → Option (String × ℕ) → ClientChannelManager → ClientChannelManager
unfolding release_session_on_rig
release_mapped s none m = m
release_mapped s (some (rig_id, _)) m = release_session_on_rig s rig_id m

unfoldable pub release_session : ℕ → ClientChannelManager → ClientChannelManager
unfolding release_mapped set_session
release_session s m = release_mapped s (m.sessions s) (set_session s none m)
