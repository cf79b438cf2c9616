-- ===== src/Server/Requests.antt =====
-- listener.rs, `handle_client`: what one line of a client leads to. Snapshots and predictions of
-- satellite passes are of any type; the parser of the JSON envelope, `to_uppercase`, the clock and the
-- computation of the passes are parameters. Times are in nanoseconds.
pub mod Safety
use Prim.Native.String.{◌++◌}
use text.Mathlib.Text.{◌==◌}
use trx_rs.Common.{
  ℕ, String, ◌-◌, Bool, true, false, Option, none, some, List, [], ◌∷◌, ltb, if◌then◌else◌,
}
use trx_rs.Rig.Command.{RigCommand}
use trx_rs.Protocol.Text.{byte_len, trim, split_at}
use trx_rs.Protocol.Token.{Validation, accepted, missing, invalid, panicked, validate}
use trx_rs.Protocol.Command.{
  ClientCommand, client_command_to_rig, is_get_rigs, is_get_sat_passes, is_subscribe_meter,
}

pub record RigHandle (S : Type 0) : Type 0 where
  pub rig_id : String
  pub display_name : String
  pub audio_port : ℕ
  pub snapshot : Option S

pub record ClientEnvelope : Type 0 where
  pub token : Option (List ℕ)
  pub rig_id : Option String
  pub protocol_version : Option ℕ
  pub cmd : ClientCommand

pub data Parsed : Type 0 where
  envelope : ClientEnvelope → Parsed
  malformed : String → Parsed

pub record RigEntry (S : Type 0) : Type 0 where
  pub rig_id : String
  pub display_name : Option String
  pub state : S
  pub audio_port : Option ℕ

pub record ClientResponse (S P : Type 0) : Type 0 where
  pub success : Bool
  pub rig_id : Option String
  pub protocol_version : Option ℕ
  pub state : Option S
  pub rigs : Option (List (RigEntry S))
  pub sat_passes : Option P
  pub error : Option String

pub record ClientContext (S P : Type 0) : Type 0 where
  pub rigs : List (String × RigHandle S)
  pub default_rig_id : String
  pub tokens : List (List ℕ)
  pub has_coords : Bool
  pub parse_envelope : List ℕ → Parsed
  pub to_uppercase : String → String
  pub compute_passes : ℕ → P
  pub unavailable : P

is_get_snapshot : RigCommand → Bool
is_get_snapshot RigCommand.get_snapshot = true
is_get_snapshot c = false

-- what is done with a line
pub data Action (S P : Type 0) : Type 0 where
  skip panics : Action S P
  reply : ClientResponse S P → Action S P
  subscribe : String → RigHandle S → Action S P
  forward : String → RigHandle S → RigCommand → Action S P

-- the predictions that are kept, with the time they are from
abbrev pub SatPassCache : Type 0 → Type 0
SatPassCache P = Option (P × ℕ)

abbrev pub sat_pass_cache_ttl : ℕ
sat_pass_cache_ttl = 60_000_000_000

module _ {S : Type 0} where
  entry : RigHandle S → S → RigEntry S
  entry h s = record {
    rig_id = h.rig_id;
    display_name = some h.display_name;
    state = s;
    audio_port = some h.audio_port;
  }

  add_entry : RigHandle S → Option S → List (RigEntry S) → List (RigEntry S)
  add_entry h none es = es
  add_entry h (some s) es = entry h s ∷ es

  unfoldable pub entries : List (String × RigHandle S) → List (RigEntry S)
  unfolding entry add_entry
  entries [] = []
  entries ((k, h) ∷ rigs) = add_entry h h.snapshot (entries rigs)

  unfoldable pub get : String → List (String × RigHandle S) → Option (RigHandle S)
  get id [] = none
  get id ((k, h) ∷ rigs) = let rest = get id rigs in if k == id then some h else rest

module _ {S P : Type 0} where
  refusal : Option String → String → Action S P
  refusal rig_id text = reply (record {
    success = false;
    rig_id = rig_id;
    protocol_version = none;
    state = none;
    rigs = none;
    sat_passes = none;
    error = some text;
  })

  -- without a prediction that is fresh enough
  compute : ClientContext S P → ℕ → SatPassCache P → P × SatPassCache P
  compute ctx now cache =
      if ctx.has_coords
      then (ctx.compute_passes now, some (ctx.compute_passes now, now))
      else (ctx.unavailable, cache)

  unfoldable pub passes : ClientContext S P → ℕ → SatPassCache P → P × SatPassCache P
  unfolding compute
  passes ctx now none = compute ctx now none
  passes ctx now (some (p, at)) =
      if ltb (now - at) sat_pass_cache_ttl
      then (p, some (p, at))
      else compute ctx now (some (p, at))

  snapshot_or : String → RigHandle S → RigCommand → Option S → Action S P
  snapshot_or id h c none = forward id h c
  snapshot_or id h c (some s) = reply (record {
    success = true;
    rig_id = some id;
    protocol_version = none;
    state = some s;
    rigs = none;
    sat_passes = none;
    error = none;
  })

  to_rig : String → RigHandle S → Option RigCommand → Action S P
  unfolding snapshot_or is_get_snapshot
  to_rig id h none = panics
  to_rig id h (some c) = if is_get_snapshot c then snapshot_or id h c h.snapshot else forward id h c

  to_handle : (String → String) → String → ClientCommand → Option (RigHandle S) → Action S P
  unfolding refusal to_rig
  to_handle up id cmd none = refusal (some id) ("Unknown rig_id: " ++ id)
  to_handle up id cmd (some h) =
      if is_subscribe_meter cmd then subscribe id h else to_rig id h (client_command_to_rig up cmd)

  target : ClientContext S P → Option String → String
  target ctx none = ctx.default_rig_id
  target ctx (some id) = id

  -- the action of an envelope whose token is accepted
  unfoldable pub dispatch :
      ClientContext S P → ℕ → SatPassCache P → ClientEnvelope → Action S P × SatPassCache P
  unfolding to_handle target
  dispatch ctx now cache e =
      let id = target ctx e.rig_id in
      let found = passes ctx now cache in
      if is_get_rigs e.cmd
      then (
        reply (record {
          success = true;
          rig_id = some "server";
          protocol_version = none;
          state = none;
          rigs = some (entries ctx.rigs);
          sat_passes = none;
          error = none;
        }),
        cache,
      )
      else if is_get_sat_passes e.cmd
      then (
        reply (record {
          success = true;
          rig_id = some "server";
          protocol_version = none;
          state = none;
          rigs = none;
          sat_passes = some found.0;
          error = none;
        }),
        found.1,
      )
      else (to_handle ctx.to_uppercase id e.cmd (get id ctx.rigs), cache)

  after_validation :
      ClientContext S P
      → ℕ
      → SatPassCache P
      → ClientEnvelope
      → Validation
      → Action S P × SatPassCache P
  unfolding refusal
  after_validation ctx now cache e accepted = dispatch ctx now cache e
  after_validation ctx now cache e missing = (refusal none "missing authorization token", cache)
  after_validation ctx now cache e invalid = (refusal none "invalid authorization token", cache)
  after_validation ctx now cache e panicked = (panics, cache)

  -- the preview of a malformed line is cut at 128 bytes
  after_preview : String → Option (List ℕ × List ℕ) → Action S P
  unfolding refusal
  after_preview text none = panics
  after_preview text (some parts) = refusal none ("Invalid JSON: " ++ text)

  after_parse :
      ClientContext S P → ℕ → SatPassCache P → List ℕ → Parsed → Action S P × SatPassCache P
  unfolding after_validation after_preview refusal
  after_parse ctx now cache trimmed (envelope e) =
      after_validation ctx now cache e (validate ctx.tokens e.token)
  after_parse ctx now cache trimmed (malformed text) = (
    if ltb 128 (byte_len trimmed)
        then after_preview text (split_at 128 trimmed)
        else refusal none ("Invalid JSON: " ++ text),
    cache,
  )

  after_trim : ClientContext S P → ℕ → SatPassCache P → List ℕ → Action S P × SatPassCache P
  unfolding after_parse
  after_trim ctx now cache [] = (skip, cache)
  after_trim ctx now cache (c ∷ cs) =
      after_parse ctx now cache (c ∷ cs) (ctx.parse_envelope (c ∷ cs))

  unfoldable pub handle_line :
      ClientContext S P → ℕ → SatPassCache P → List ℕ → Action S P × SatPassCache P
  unfolding after_trim
  handle_line ctx now cache line = after_trim ctx now cache (trim line)
