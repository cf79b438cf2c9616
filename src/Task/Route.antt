-- ===== src/Task/Route.antt =====
-- How `process_command` of src/trx-server/src/rig_task.rs deals with each command: as a setting of
-- a decoder, as a call of the receiver, or by the handlers.
use trx_rs.Common.{ℕ, String, min, max}
use trx_rs.Rig.Types.{Freq}
use trx_rs.Rig.Command.{RigCommand}
use trx_rs.Rig.Handlers.{Call}
use trx_rs.Task.State.{RigState, RigFilterState, DecoderConfig, DecoderResetSeqs}
use trx_rs.Task.Backend.{RigSdr}
use trx_rs.Task.Tuning.{bump}

-- the histories that the reset commands clear
pub data History : Type 0 where
  aprs hf_aprs cw ft8 ft4 ft2 wspr lrpt wefax : History

-- what becomes of `state.filter` after a call of the receiver: a field is set, if there is a
-- filter, or the whole is read again
pub data FilterChange : Type 0 where
  assign : (RigFilterState → RigFilterState) → FilterChange
  reread : FilterChange

pub data Route (S : Type 0) : Type 0 where
  setting : (RigState → RigState) → Route S
  clearing : History → (RigState → RigState) → Route S
  sdr : String → (RigSdr S → Call S (Unit {0})) → FilterChange → Route S
  center : Freq → Route S
  spectrum handled : Route S

with_decoders : (DecoderConfig → DecoderConfig) → RigState → RigState
with_decoders f s = record s { decoders = f s.decoders }

with_seqs : (DecoderResetSeqs → DecoderResetSeqs) → RigState → RigState
with_seqs f s = record s { reset_seqs = f s.reset_seqs }

-- `v.clamp(lo, hi)`
unfoldable pub clamp : ℕ → ℕ → ℕ → ℕ
clamp lo hi v = min hi (max lo v)

unfoldable pub route : {S : Type 0} → RigCommand → Route S
unfolding with_decoders with_seqs bump clamp
route (RigCommand.set_aprs_decode_enabled en) =
    setting (with_decoders (λ d. record d { aprs_decode_enabled = en }))
route (RigCommand.set_cw_decode_enabled en) =
    setting (with_decoders (λ d. record d { cw_decode_enabled = en }))
route (RigCommand.set_cw_auto en) = setting (λ s. record s { cw_auto = en })
route (RigCommand.set_cw_wpm wpm) = setting (λ s. record s { cw_wpm = clamp 5 40 wpm })
route (RigCommand.set_cw_tone_hz hz) = setting (λ s. record s { cw_tone_hz = clamp 100 10_000 hz })
route (RigCommand.set_ft8_decode_enabled en) =
    setting (with_decoders (λ d. record d { ft8_decode_enabled = en }))
route (RigCommand.set_ft4_decode_enabled en) =
    setting (with_decoders (λ d. record d { ft4_decode_enabled = en }))
route (RigCommand.set_ft2_decode_enabled en) =
    setting (with_decoders (λ d. record d { ft2_decode_enabled = en }))
route (RigCommand.set_wspr_decode_enabled en) =
    setting (with_decoders (λ d. record d { wspr_decode_enabled = en }))
route (RigCommand.set_hf_aprs_decode_enabled en) =
    setting (with_decoders (λ d. record d { hf_aprs_decode_enabled = en }))
route (RigCommand.set_lrpt_decode_enabled en) =
    setting (with_decoders (λ d. record d { lrpt_decode_enabled = en }))
route (RigCommand.set_recorder_enabled en) =
    setting (with_decoders (λ d. record d { recorder_enabled = en }))
route (RigCommand.set_wefax_decode_enabled en) =
    setting (with_decoders (λ d. record d { wefax_decode_enabled = en }))
route RigCommand.reset_aprs_decoder =
    clearing aprs
      (with_seqs (λ q. record q { aprs_decode_reset_seq = bump q.aprs_decode_reset_seq }))
route RigCommand.reset_hf_aprs_decoder =
    clearing hf_aprs
      (with_seqs (λ q. record q { hf_aprs_decode_reset_seq = bump q.hf_aprs_decode_reset_seq }))
route RigCommand.reset_cw_decoder =
    clearing cw (with_seqs (λ q. record q { cw_decode_reset_seq = bump q.cw_decode_reset_seq }))
route RigCommand.reset_ft8_decoder =
    clearing ft8 (with_seqs (λ q. record q { ft8_decode_reset_seq = bump q.ft8_decode_reset_seq }))
route RigCommand.reset_ft4_decoder =
    clearing ft4 (with_seqs (λ q. record q { ft4_decode_reset_seq = bump q.ft4_decode_reset_seq }))
route RigCommand.reset_ft2_decoder =
    clearing ft2 (with_seqs (λ q. record q { ft2_decode_reset_seq = bump q.ft2_decode_reset_seq }))
route RigCommand.reset_wspr_decoder =
    clearing wspr
      (with_seqs (λ q. record q { wspr_decode_reset_seq = bump q.wspr_decode_reset_seq }))
route RigCommand.reset_lrpt_decoder =
    clearing lrpt
      (with_seqs (λ q. record q { lrpt_decode_reset_seq = bump q.lrpt_decode_reset_seq }))
route RigCommand.reset_wefax_decoder =
    clearing wefax
      (with_seqs (λ q. record q { wefax_decode_reset_seq = bump q.wefax_decode_reset_seq }))
route (RigCommand.set_bandwidth hz) =
    sdr "set_bandwidth" (λ r. r.sdr_set_bandwidth hz) (assign (λ f. record f { bandwidth_hz = hz }))
route (RigCommand.set_sdr_gain db) = sdr "set_sdr_gain" (λ r. r.sdr_set_gain db) reread
route (RigCommand.set_sdr_lna_gain db) = sdr "set_sdr_lna_gain" (λ r. r.sdr_set_lna_gain db) reread
route (RigCommand.set_sdr_agc en) = sdr "set_sdr_agc" (λ r. r.sdr_set_agc en) reread
route (RigCommand.set_sdr_squelch en db) =
    sdr "set_sdr_squelch" (λ r. r.sdr_set_squelch en db) reread
route (RigCommand.set_sdr_noise_blanker en level) =
    sdr "set_sdr_noise_blanker" (λ r. r.sdr_set_noise_blanker en level) reread
route (RigCommand.set_wfm_deemphasis us) =
    sdr "set_wfm_deemphasis" (λ r. r.sdr_set_wfm_deemphasis us)
      (assign (λ f. record f { wfm_deemphasis_us = us }))
route (RigCommand.set_wfm_stereo en) =
    sdr "set_wfm_stereo" (λ r. r.sdr_set_wfm_stereo en) (assign (λ f. record f { wfm_stereo = en }))
route (RigCommand.set_wfm_denoise level) =
    sdr "set_wfm_denoise" (λ r. r.sdr_set_wfm_denoise level)
      (assign (λ f. record f { wfm_denoise = level }))
route (RigCommand.set_sam_stereo_width width) =
    sdr "set_sam_stereo_width" (λ r. r.sdr_set_sam_stereo_width width)
      (assign (λ f. record f { sam_stereo_width = width }))
route (RigCommand.set_sam_carrier_sync en) =
    sdr "set_sam_carrier_sync" (λ r. r.sdr_set_sam_carrier_sync en)
      (assign (λ f. record f { sam_carrier_sync = en }))
route (RigCommand.set_center_freq f) = center f
route RigCommand.get_spectrum = spectrum
route _ = handled
