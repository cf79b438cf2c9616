-- ===== src/Protocol/Command.antt =====
-- Client commands and their mapping to rig commands (src/trx-protocol/src/types.rs and mapping.rs,
-- the macro expanded). `none` is the panic on a command that only the client has.
pub mod RoundTrip
use trx_rs.Common.{ℕ, String, Bool, true, false, ◌||◌, Option, none, some}
use trx_rs.Rig.Types.{F32, F64, Freq}
use trx_rs.Rig.Command.{RigCommand, WfmDenoiseLevel}
use trx_rs.Protocol.Mode.{parse_mode, mode_to_string}

pub data ClientCommand : Type 0 where
  get_state : ClientCommand
  get_rigs : ClientCommand
  get_sat_passes : ClientCommand
  set_freq : ℕ → ClientCommand
  set_center_freq : ℕ → ClientCommand
  set_mode : String → ClientCommand
  set_ptt : Bool → ClientCommand
  power_on : ClientCommand
  power_off : ClientCommand
  toggle_vfo : ClientCommand
  lock : ClientCommand
  unlock : ClientCommand
  get_tx_limit : ClientCommand
  set_tx_limit : ℕ → ClientCommand
  set_aprs_decode_enabled : Bool → ClientCommand
  set_hf_aprs_decode_enabled : Bool → ClientCommand
  set_cw_decode_enabled : Bool → ClientCommand
  set_cw_auto : Bool → ClientCommand
  set_cw_wpm : ℕ → ClientCommand
  set_cw_tone_hz : ℕ → ClientCommand
  set_ft8_decode_enabled : Bool → ClientCommand
  set_ft4_decode_enabled : Bool → ClientCommand
  set_ft2_decode_enabled : Bool → ClientCommand
  set_wspr_decode_enabled : Bool → ClientCommand
  set_lrpt_decode_enabled : Bool → ClientCommand
  set_wefax_decode_enabled : Bool → ClientCommand
  reset_aprs_decoder : ClientCommand
  reset_hf_aprs_decoder : ClientCommand
  reset_cw_decoder : ClientCommand
  reset_ft8_decoder : ClientCommand
  reset_ft4_decoder : ClientCommand
  reset_ft2_decoder : ClientCommand
  reset_wspr_decoder : ClientCommand
  reset_lrpt_decoder : ClientCommand
  reset_wefax_decoder : ClientCommand
  set_bandwidth : ℕ → ClientCommand
  set_sdr_gain : F64 → ClientCommand
  set_sdr_lna_gain : F64 → ClientCommand
  set_sdr_agc : Bool → ClientCommand
  set_sdr_squelch : Bool → F64 → ClientCommand
  set_sdr_noise_blanker : Bool → F64 → ClientCommand
  set_wfm_deemphasis : ℕ → ClientCommand
  set_wfm_stereo : Bool → ClientCommand
  set_wfm_denoise : WfmDenoiseLevel → ClientCommand
  set_sam_stereo_width : F32 → ClientCommand
  set_sam_carrier_sync : Bool → ClientCommand
  set_recorder_enabled : Bool → ClientCommand
  get_spectrum : ClientCommand
  subscribe_meter : ClientCommand

unfoldable pub client_command_to_rig : (String → String) → ClientCommand → Option RigCommand
client_command_to_rig up get_rigs = none
client_command_to_rig up get_sat_passes = none
client_command_to_rig up subscribe_meter = none
client_command_to_rig up get_state = some RigCommand.get_snapshot
client_command_to_rig up power_on = some RigCommand.power_on
client_command_to_rig up power_off = some RigCommand.power_off
client_command_to_rig up toggle_vfo = some RigCommand.toggle_vfo
client_command_to_rig up lock = some RigCommand.lock
client_command_to_rig up unlock = some RigCommand.unlock
client_command_to_rig up get_tx_limit = some RigCommand.get_tx_limit
client_command_to_rig up get_spectrum = some RigCommand.get_spectrum
client_command_to_rig up reset_aprs_decoder = some RigCommand.reset_aprs_decoder
client_command_to_rig up reset_hf_aprs_decoder = some RigCommand.reset_hf_aprs_decoder
client_command_to_rig up reset_cw_decoder = some RigCommand.reset_cw_decoder
client_command_to_rig up reset_ft8_decoder = some RigCommand.reset_ft8_decoder
client_command_to_rig up reset_ft4_decoder = some RigCommand.reset_ft4_decoder
client_command_to_rig up reset_ft2_decoder = some RigCommand.reset_ft2_decoder
client_command_to_rig up reset_wspr_decoder = some RigCommand.reset_wspr_decoder
client_command_to_rig up reset_lrpt_decoder = some RigCommand.reset_lrpt_decoder
client_command_to_rig up reset_wefax_decoder = some RigCommand.reset_wefax_decoder
client_command_to_rig up (set_ptt ptt) = some (RigCommand.set_ptt ptt)
client_command_to_rig up (set_tx_limit limit) = some (RigCommand.set_tx_limit limit)
client_command_to_rig up (set_aprs_decode_enabled enabled) =
    some (RigCommand.set_aprs_decode_enabled enabled)
client_command_to_rig up (set_hf_aprs_decode_enabled enabled) =
    some (RigCommand.set_hf_aprs_decode_enabled enabled)
client_command_to_rig up (set_cw_decode_enabled enabled) =
    some (RigCommand.set_cw_decode_enabled enabled)
client_command_to_rig up (set_cw_auto enabled) = some (RigCommand.set_cw_auto enabled)
client_command_to_rig up (set_cw_wpm wpm) = some (RigCommand.set_cw_wpm wpm)
client_command_to_rig up (set_cw_tone_hz tone_hz) = some (RigCommand.set_cw_tone_hz tone_hz)
client_command_to_rig up (set_ft8_decode_enabled enabled) =
    some (RigCommand.set_ft8_decode_enabled enabled)
client_command_to_rig up (set_ft4_decode_enabled enabled) =
    some (RigCommand.set_ft4_decode_enabled enabled)
client_command_to_rig up (set_ft2_decode_enabled enabled) =
    some (RigCommand.set_ft2_decode_enabled enabled)
client_command_to_rig up (set_wspr_decode_enabled enabled) =
    some (RigCommand.set_wspr_decode_enabled enabled)
client_command_to_rig up (set_lrpt_decode_enabled enabled) =
    some (RigCommand.set_lrpt_decode_enabled enabled)
client_command_to_rig up (set_wefax_decode_enabled enabled) =
    some (RigCommand.set_wefax_decode_enabled enabled)
client_command_to_rig up (set_bandwidth bandwidth_hz) = some (RigCommand.set_bandwidth bandwidth_hz)
client_command_to_rig up (set_sdr_gain gain_db) = some (RigCommand.set_sdr_gain gain_db)
client_command_to_rig up (set_sdr_lna_gain gain_db) = some (RigCommand.set_sdr_lna_gain gain_db)
client_command_to_rig up (set_sdr_agc enabled) = some (RigCommand.set_sdr_agc enabled)
client_command_to_rig up (set_wfm_deemphasis deemphasis_us) =
    some (RigCommand.set_wfm_deemphasis deemphasis_us)
client_command_to_rig up (set_wfm_stereo enabled) = some (RigCommand.set_wfm_stereo enabled)
client_command_to_rig up (set_wfm_denoise level) = some (RigCommand.set_wfm_denoise level)
client_command_to_rig up (set_sam_stereo_width width) = some (RigCommand.set_sam_stereo_width width)
client_command_to_rig up (set_sam_carrier_sync enabled) =
    some (RigCommand.set_sam_carrier_sync enabled)
client_command_to_rig up (set_recorder_enabled enabled) =
    some (RigCommand.set_recorder_enabled enabled)
client_command_to_rig up (set_sdr_squelch enabled threshold_db) =
    some (RigCommand.set_sdr_squelch enabled threshold_db)
client_command_to_rig up (set_sdr_noise_blanker enabled threshold) =
    some (RigCommand.set_sdr_noise_blanker enabled threshold)
client_command_to_rig up (set_freq freq_hz) = some (RigCommand.set_freq (record { hz = freq_hz }))
client_command_to_rig up (set_center_freq freq_hz) =
    some (RigCommand.set_center_freq (record { hz = freq_hz }))
client_command_to_rig up (set_mode mode) = some (RigCommand.set_mode (parse_mode up mode))

unfoldable pub rig_command_to_client : RigCommand → ClientCommand
rig_command_to_client RigCommand.get_snapshot = ClientCommand.get_state
rig_command_to_client RigCommand.power_on = ClientCommand.power_on
rig_command_to_client RigCommand.power_off = ClientCommand.power_off
rig_command_to_client RigCommand.toggle_vfo = ClientCommand.toggle_vfo
rig_command_to_client RigCommand.lock = ClientCommand.lock
rig_command_to_client RigCommand.unlock = ClientCommand.unlock
rig_command_to_client RigCommand.get_tx_limit = ClientCommand.get_tx_limit
rig_command_to_client RigCommand.get_spectrum = ClientCommand.get_spectrum
rig_command_to_client RigCommand.reset_aprs_decoder = ClientCommand.reset_aprs_decoder
rig_command_to_client RigCommand.reset_hf_aprs_decoder = ClientCommand.reset_hf_aprs_decoder
rig_command_to_client RigCommand.reset_cw_decoder = ClientCommand.reset_cw_decoder
rig_command_to_client RigCommand.reset_ft8_decoder = ClientCommand.reset_ft8_decoder
rig_command_to_client RigCommand.reset_ft4_decoder = ClientCommand.reset_ft4_decoder
rig_command_to_client RigCommand.reset_ft2_decoder = ClientCommand.reset_ft2_decoder
rig_command_to_client RigCommand.reset_wspr_decoder = ClientCommand.reset_wspr_decoder
rig_command_to_client RigCommand.reset_lrpt_decoder = ClientCommand.reset_lrpt_decoder
rig_command_to_client RigCommand.reset_wefax_decoder = ClientCommand.reset_wefax_decoder
rig_command_to_client (RigCommand.set_ptt ptt) = ClientCommand.set_ptt ptt
rig_command_to_client (RigCommand.set_tx_limit limit) = ClientCommand.set_tx_limit limit
rig_command_to_client (RigCommand.set_aprs_decode_enabled enabled) =
    ClientCommand.set_aprs_decode_enabled enabled
rig_command_to_client (RigCommand.set_hf_aprs_decode_enabled enabled) =
    ClientCommand.set_hf_aprs_decode_enabled enabled
rig_command_to_client (RigCommand.set_cw_decode_enabled enabled) =
    ClientCommand.set_cw_decode_enabled enabled
rig_command_to_client (RigCommand.set_cw_auto enabled) = ClientCommand.set_cw_auto enabled
rig_command_to_client (RigCommand.set_cw_wpm wpm) = ClientCommand.set_cw_wpm wpm
rig_command_to_client (RigCommand.set_cw_tone_hz tone_hz) = ClientCommand.set_cw_tone_hz tone_hz
rig_command_to_client (RigCommand.set_ft8_decode_enabled enabled) =
    ClientCommand.set_ft8_decode_enabled enabled
rig_command_to_client (RigCommand.set_ft4_decode_enabled enabled) =
    ClientCommand.set_ft4_decode_enabled enabled
rig_command_to_client (RigCommand.set_ft2_decode_enabled enabled) =
    ClientCommand.set_ft2_decode_enabled enabled
rig_command_to_client (RigCommand.set_wspr_decode_enabled enabled) =
    ClientCommand.set_wspr_decode_enabled enabled
rig_command_to_client (RigCommand.set_lrpt_decode_enabled enabled) =
    ClientCommand.set_lrpt_decode_enabled enabled
rig_command_to_client (RigCommand.set_wefax_decode_enabled enabled) =
    ClientCommand.set_wefax_decode_enabled enabled
rig_command_to_client (RigCommand.set_bandwidth bandwidth_hz) =
    ClientCommand.set_bandwidth bandwidth_hz
rig_command_to_client (RigCommand.set_sdr_gain gain_db) = ClientCommand.set_sdr_gain gain_db
rig_command_to_client (RigCommand.set_sdr_lna_gain gain_db) = ClientCommand.set_sdr_lna_gain gain_db
rig_command_to_client (RigCommand.set_sdr_agc enabled) = ClientCommand.set_sdr_agc enabled
rig_command_to_client (RigCommand.set_wfm_deemphasis deemphasis_us) =
    ClientCommand.set_wfm_deemphasis deemphasis_us
rig_command_to_client (RigCommand.set_wfm_stereo enabled) = ClientCommand.set_wfm_stereo enabled
rig_command_to_client (RigCommand.set_wfm_denoise level) = ClientCommand.set_wfm_denoise level
rig_command_to_client (RigCommand.set_sam_stereo_width width) =
    ClientCommand.set_sam_stereo_width width
rig_command_to_client (RigCommand.set_sam_carrier_sync enabled) =
    ClientCommand.set_sam_carrier_sync enabled
rig_command_to_client (RigCommand.set_recorder_enabled enabled) =
    ClientCommand.set_recorder_enabled enabled
rig_command_to_client (RigCommand.set_sdr_squelch enabled threshold_db) =
    ClientCommand.set_sdr_squelch enabled threshold_db
rig_command_to_client (RigCommand.set_sdr_noise_blanker enabled threshold) =
    ClientCommand.set_sdr_noise_blanker enabled threshold
rig_command_to_client (RigCommand.set_freq freq) = ClientCommand.set_freq freq.hz
rig_command_to_client (RigCommand.set_center_freq freq) = ClientCommand.set_center_freq freq.hz
rig_command_to_client (RigCommand.set_mode mode) = ClientCommand.set_mode (mode_to_string mode)

abbrev pub is_get_rigs : ClientCommand → Bool
is_get_rigs ClientCommand.get_rigs = true
is_get_rigs c = false

abbrev pub is_get_sat_passes : ClientCommand → Bool
is_get_sat_passes ClientCommand.get_sat_passes = true
is_get_sat_passes c = false

abbrev pub is_subscribe_meter : ClientCommand → Bool
is_subscribe_meter ClientCommand.subscribe_meter = true
is_subscribe_meter c = false

-- the commands that have no counterpart
abbrev pub is_client_only : ClientCommand → Bool
is_client_only c = is_get_rigs c || is_get_sat_passes c || is_subscribe_meter c
