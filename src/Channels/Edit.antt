-- ===== src/Channels/Edit.antt =====
-- Subscriptions, deletions and settings of virtual channels
-- (src/trx-client/trx-frontend/trx-frontend-http/src/vchan.rs).
use trx_rs.Common.{
  ℕ, ◌+◌, String, Bool, false, Option, none, some, List, [], ◌∷◌, ◌++◌, ◌==◌, if◌then◌else◌,
}
use trx_rs.Channels.Keys.{lookup}
use trx_rs.Channels.{
  InternalChannel, ClientChannel, SelectedChannel, not_found, permanent, VChanResult, ok, err,
  VChanAudioCmd, remove, set_freq, set_mode, set_bandwidth, ClientChannelManager, is_fixed,
  describe, broadcast_change, send, put, set_session, lists, release_session_on_rig,
}

-- `iter().find(|c| c.id == id)` with its position
unfoldable pub find_from : ℕ → ℕ → List InternalChannel → Option (ℕ × InternalChannel)
find_from i id [] = none
find_from i id (c ∷ cs) = if c.id == id then some (i, c) else find_from (i + 1) id cs

unfoldable pub find : ℕ → List InternalChannel → Option (ℕ × InternalChannel)
unfolding find_from
find id cs = find_from 0 id cs

-- the first channel with an identifier, changed or taken out
abbrev pub change :
    ℕ → (InternalChannel → InternalChannel) → List InternalChannel → List InternalChannel
change id f [] = []
change id f (c ∷ cs) = if c.id == id then f c ∷ cs else c ∷ change id f cs

abbrev pub take_out : ℕ → List InternalChannel → List InternalChannel
take_out id [] = []
take_out id (c ∷ cs) = if c.id == id then cs else c ∷ take_out id cs

abbrev pub join_session : ℕ → InternalChannel → InternalChannel
join_session s c = record c {
  session_ids = if lists s c.session_ids then c.session_ids else c.session_ids ++ s ∷ [];
}

unfoldable pub enrolled :
    ℕ
    → String
    → List InternalChannel
    → Option (ℕ × InternalChannel)
    → ClientChannelManager
    → Option ClientChannel × ClientChannelManager
unfolding put broadcast_change set_session
enrolled s rig_id cs none m = (none, m)
enrolled s rig_id cs (some (i, c)) m =
    let cs' = change c.id (join_session s) cs in
    (
      some (describe i (join_session s c)),
      set_session s (some (rig_id, c.id)) (broadcast_change rig_id cs' (put rig_id cs' m)),
    )

unfoldable pub join_known :
    ℕ
    → String
    → ℕ
    → Option (List InternalChannel)
    → ClientChannelManager
    → Option ClientChannel × ClientChannelManager
unfolding enrolled find
join_known s rig_id id none m = (none, m)
join_known s rig_id id (some cs) m = enrolled s rig_id cs (find id cs) m

unfoldable pub subscribe_session :
    ℕ → String → ℕ → ClientChannelManager → Option ClientChannel × ClientChannelManager
unfolding join_known release_session_on_rig
subscribe_session s rig_id id m =
    let m' = release_session_on_rig s rig_id m in join_known s rig_id id (lookup rig_id m'.rigs) m'

unfoldable pub forget : List ℕ → ClientChannelManager → ClientChannelManager
unfolding set_session
forget [] m = m
forget (s ∷ ss) m = forget ss (set_session s none m)

unfoldable pub deleted :
    String
    → List InternalChannel
    → Option (ℕ × InternalChannel)
    → ClientChannelManager
    → VChanResult (Unit {0}) × ClientChannelManager
unfolding put broadcast_change forget send
deleted rig_id cs none m = (err not_found, m)
deleted rig_id cs (some (i, c)) m =
    let cs' = take_out c.id cs in
    let m' : ClientChannelManager =
      send rig_id (remove c.id)
        (forget c.session_ids (broadcast_change rig_id cs' (put rig_id cs' m))) in
    if is_fixed c then (err permanent, m) else (ok tt, m')

unfoldable pub delete_known :
    String
    → ℕ
    → Option (List InternalChannel)
    → ClientChannelManager
    → VChanResult (Unit {0}) × ClientChannelManager
unfolding deleted find
delete_known rig_id id none m = (err not_found, m)
delete_known rig_id id (some cs) m = deleted rig_id cs (find id cs) m

unfoldable pub delete_channel :
    String → ℕ → ClientChannelManager → VChanResult (Unit {0}) × ClientChannelManager
unfolding delete_known
delete_channel rig_id id m = delete_known rig_id id (lookup rig_id m.rigs) m

-- the first rig, in the order of the map, that has the channel; the keys of a map are distinct
unfoldable pub holder : ℕ → List (String × List InternalChannel) → Option String
unfolding find
holder id [] = none
holder id ((rig_id, cs) ∷ rest) = elim (find id cs) [
  | none ↦ holder id rest
  | some (i, c) ↦ some rig_id
]

unfoldable pub is_mapped : ℕ → Option (String × ℕ) → Bool
is_mapped id none = false
is_mapped id (some (_, other)) = other == id

-- of the evicted sessions those that are mapped to the channel
unfoldable pub forget_mapped : ℕ → List ℕ → ClientChannelManager → ClientChannelManager
unfolding set_session is_mapped
forget_mapped id [] m = m
forget_mapped id (s ∷ ss) m =
    forget_mapped id ss (if is_mapped id (m.sessions s) then set_session s none m else m)

unfoldable pub destroyed :
    String
    → List InternalChannel
    → Option (ℕ × InternalChannel)
    → ClientChannelManager
    → ClientChannelManager
unfolding put broadcast_change forget_mapped
destroyed rig_id cs none m = m
destroyed rig_id cs (some (i, c)) m =
    let cs' = take_out c.id cs in
    forget_mapped c.id c.session_ids (broadcast_change rig_id cs' (put rig_id cs' m))

unfoldable pub destroyed_in :
    String → ℕ → Option (List InternalChannel) → ClientChannelManager → ClientChannelManager
unfolding destroyed find
destroyed_in rig_id id none m = m
destroyed_in rig_id id (some cs) m = destroyed rig_id cs (find id cs) m

unfoldable pub destroyed_at : ℕ → Option String → ClientChannelManager → ClientChannelManager
unfolding destroyed_in
destroyed_at id none m = m
destroyed_at id (some rig_id) m = destroyed_in rig_id id (lookup rig_id m.rigs) m

unfoldable pub remove_by_uuid : ℕ → ClientChannelManager → ClientChannelManager
unfolding destroyed_at holder
remove_by_uuid id m = destroyed_at id (holder id m.rigs) m

-- `set_channel_freq`, `set_channel_mode` and `set_channel_bandwidth`
unfoldable pub edited :
    String
    → (InternalChannel → InternalChannel)
    → (ℕ → VChanAudioCmd)
    → List InternalChannel
    → Option (ℕ × InternalChannel)
    → ClientChannelManager
    → VChanResult (Unit {0}) × ClientChannelManager
unfolding put broadcast_change send
edited rig_id f cmd cs none m = (err not_found, m)
edited rig_id f cmd cs (some (i, c)) m =
    let cs' = change c.id f cs in
    (ok tt, send rig_id (cmd c.id) (broadcast_change rig_id cs' (put rig_id cs' m)))

unfoldable pub edit_known :
    String
    → ℕ
    → (InternalChannel → InternalChannel)
    → (ℕ → VChanAudioCmd)
    → Option (List InternalChannel)
    → ClientChannelManager
    → VChanResult (Unit {0}) × ClientChannelManager
unfolding edited find
edit_known rig_id id f cmd none m = (err not_found, m)
edit_known rig_id id f cmd (some cs) m = edited rig_id f cmd cs (find id cs) m

unfoldable pub set_channel_freq :
    String → ℕ → ℕ → ClientChannelManager → VChanResult (Unit {0}) × ClientChannelManager
unfolding edit_known
set_channel_freq rig_id id hz m =
    edit_known rig_id id (λ c. record c { freq_hz = hz }) (λ i. set_freq i hz)
      (lookup rig_id m.rigs) m

unfoldable pub set_channel_mode :
    String → ℕ → String → ClientChannelManager → VChanResult (Unit {0}) × ClientChannelManager
unfolding edit_known
set_channel_mode rig_id id mode m =
    edit_known rig_id id (λ c. record c { mode = mode }) (λ i. set_mode i mode)
      (lookup rig_id m.rigs) m

unfoldable pub set_channel_bandwidth :
    String → ℕ → ℕ → ClientChannelManager → VChanResult (Unit {0}) × ClientChannelManager
unfolding edit_known
set_channel_bandwidth rig_id id hz m =
    edit_known rig_id id (λ c. record c { bandwidth_hz = hz }) (λ i. set_bandwidth i hz)
      (lookup rig_id m.rigs) m

selected : Option (ℕ × InternalChannel) → Option SelectedChannel
selected none = none
selected (some (i, c)) = some (record {
  id = c.id;
  freq_hz = c.freq_hz;
  mode = c.mode;
  bandwidth_hz = c.bandwidth_hz;
  scheduler_bookmark_id = c.scheduler_bookmark_id;
})

unfoldable pub selected_channel : String → ℕ → ClientChannelManager → Option SelectedChannel
unfolding selected find
selected_channel rig_id id m = elim (lookup rig_id m.rigs) [
  | none ↦ none
  | some cs ↦ selected (find id cs)
]
