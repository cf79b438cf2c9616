-- ===== src/Protocol/Command/RoundTrip.antt =====
-- About the mapping of commands there and back.
use trx_rs.Common.{String, false, none, ◌≡◌, ◌≢◌, arith}
use trx_rs.Protocol.Command.{ClientCommand, is_client_only, client_command_to_rig}

-- every other command has a counterpart
pub client_command_to_rig-none :
    (up : String → String) (c : ClientCommand)
    → is_client_only c ≡ false
    → client_command_to_rig up c ≢ none
unfolding client_command_to_rig
client_command_to_rig-none up c h e = ground (arith, h, e)
