-- ===== src/Rig/Command.antt =====
-- src/trx-core/src/rig/command.rs and `WfmDenoiseLevel` of rig/state.rs
use trx_rs.Common.{ℕ, Bool}
use trx_rs.Rig.Types.{F32, F64, Freq, RigMode}

pub data WfmDenoiseLevel : Type 0 where
  off auto low medium high : WfmDenoiseLevel

pub data RigCommand : Type 0 where
  get_snapshot : RigCommand
  set_freq set_center_freq : Freq → RigCommand
  set_mode : RigMode → RigCommand
  set_ptt : Bool → RigCommand
  power_on power_off toggle_vfo get_tx_limit : RigCommand
  set_tx_limit : ℕ → RigCommand
  lock unlock : RigCommand
  set_aprs_decode_enabled set_hf_aprs_decode_enabled : Bool → RigCommand
  set_cw_decode_enabled set_cw_auto : Bool → RigCommand
  set_cw_wpm set_cw_tone_hz : ℕ → RigCommand
  set_ft8_decode_enabled set_ft4_decode_enabled set_ft2_decode_enabled : Bool → RigCommand
  set_wspr_decode_enabled set_lrpt_decode_enabled set_wefax_decode_enabled : Bool → RigCommand
  reset_aprs_decoder reset_hf_aprs_decoder reset_cw_decoder : RigCommand
  reset_ft8_decoder reset_ft4_decoder reset_ft2_decoder : RigCommand
  reset_wspr_decoder reset_lrpt_decoder reset_wefax_decoder : RigCommand
  set_bandwidth : ℕ → RigCommand
  set_sdr_gain set_sdr_lna_gain : F64 → RigCommand
  set_sdr_agc : Bool → RigCommand
  set_sdr_squelch set_sdr_noise_blanker : Bool → F64 → RigCommand
  set_wfm_deemphasis : ℕ → RigCommand
  set_wfm_stereo : Bool → RigCommand
  set_wfm_denoise : WfmDenoiseLevel → RigCommand
  set_sam_stereo_width : F32 → RigCommand
  set_sam_carrier_sync set_recorder_enabled : Bool → RigCommand
  get_spectrum : RigCommand
