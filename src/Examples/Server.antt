-- ===== src/Examples/Server.antt =====
-- The protocol and the listener at concrete inputs.
use mathlib.Core.List.{cons-ne-nil}
use trx_rs.Common.{ℕ, ◌≤◌, false, none, some, List, [], ◌∷◌, ltb, ◌≡◌, ◌⊎◌, ◌↔◌, refl}
use trx_rs.Rig.Command.{RigCommand}
use trx_rs.Protocol.Text.{trim_start, trim_end, trim, split_at}
use trx_rs.Protocol.Token.{accepted, panicked, validate, strip_bearer}
use trx_rs.Protocol.Token.Bearer.{IsGranted, validate_iff, validate-inside}
use trx_rs.Protocol.Command.{ClientCommand, client_command_to_rig}
use trx_rs.Server.Lines.{read_limited_line}
use trx_rs.Server.Lines.Chunks.{concat, flat, first_line, read_limited_line-concat}
use trx_rs.Server.Connections.{max_connections_per_ip, new, try_acquire}
use trx_rs.Server.Connections.Sessions.{
  Listener, Step, Reachable, started, next, at, try_acquire-Reachable,
}
use trx_rs.Server.Requests.{RigHandle, ClientContext, envelope, forward, get, dispatch, handle_line}
use trx_rs.Server.Requests.Safety.{IsJustified, handle_line-IsJustified}

-- "k1"
abbrev k1 : List ℕ
k1 = b'k' ∷ b'1' ∷ []

-- "BEARER k1"
abbrev bearer_k1 : List ℕ
bearer_k1 = b'B' ∷ b'E' ∷ b'A' ∷ b'R' ∷ b'E' ∷ b'R' ∷ b' ' ∷ k1

validate_iff_example :
    (validate (k1 ∷ []) (some bearer_k1) ≡ accepted)
    ↔ ((k1 ∷ [] ≡ []) ⊎ IsGranted (k1 ∷ []) (some bearer_k1))
validate_iff_example = validate_iff (k1 ∷ []) (some bearer_k1)

abbrev six : List ℕ
six = b't' ∷ b'o' ∷ b'k' ∷ b'e' ∷ b'n' ∷ b'1' ∷ []

-- six letters, and a letter of two bytes
abbrev accented : List ℕ
accented = b't' ∷ b'o' ∷ b'k' ∷ b'e' ∷ b'n' ∷ b'1' ∷ 0xE9 ∷ []

validate-inside_example : validate (k1 ∷ []) (some accented) ≡ panicked
unfolding trim_start trim_end
validate-inside_example =
    validate-inside k1 [] accented six [] 0xE9 refl
      (refl, (refl, (refl, (refl, (refl, (refl, tt)))))) refl refl

-- a line of three bytes in two chunks, with a byte behind it
abbrev chunks : List (List ℕ)
chunks = (b'{' ∷ []) ∷ (b'}' ∷ b'\n' ∷ b'[' ∷ []) ∷ []

read_limited_line-concat_example : flat (read_limited_line 3 chunks) ≡ first_line 3 (concat chunks)
read_limited_line-concat_example =
    read_limited_line-concat 3 chunks
      (cons-ne-nil b'{' [], (cons-ne-nil b'}' (b'\n' ∷ b'[' ∷ []), tt))

abbrev connected : Listener
connected = record { tracker = (try_acquire 7 new).1; live = at 7 1 (λ ip. 0); panicked = λ ip. 0 }

connected-Reachable : Reachable connected
unfolding try_acquire new
connected-Reachable = next started (Step.accepted 7 refl)

try_acquire-Reachable_example :
    (1 ≤ max_connections_per_ip)
    × ((try_acquire 7 connected.tracker).0 ≡ ltb 1 max_connections_per_ip)
try_acquire-Reachable_example = try_acquire-Reachable connected connected-Reachable 7

abbrev handle : RigHandle ℕ
handle = record { rig_id = "ft817"; display_name = "FT-817"; audio_port = 4533; snapshot = none }

abbrev context : ClientContext ℕ ℕ
context = record {
  rigs = ("ft817", handle) ∷ [];
  default_rig_id = "ft817";
  tokens = k1 ∷ [];
  has_coords = false;
  parse_envelope = λ text. envelope (record {
    token = some k1;
    rig_id = none;
    protocol_version = none;
    cmd = ClientCommand.lock;
  });
  to_uppercase = λ s. s;
  compute_passes = λ now. now;
  unavailable = 0;
}

handle_line-IsJustified_example :
    IsJustified context (trim (b'{' ∷ b'}' ∷ [])) (handle_line context 5 none (b'{' ∷ b'}' ∷ [])).0
handle_line-IsJustified_example = handle_line-IsJustified context 5 none (b'{' ∷ b'}' ∷ [])

line_locks :
    (handle_line context 5 none (b'{' ∷ b'}' ∷ [])).0 ≡ forward "ft817" handle RigCommand.lock
unfolding handle_line trim_start trim_end validate strip_bearer split_at dispatch get
    client_command_to_rig
line_locks = refl
