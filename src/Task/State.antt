-- ===== src/Task/State.antt =====
-- The state of the rig task: src/trx-core/src/rig/state.rs and `RigControl` of rig/mod.rs. A UUID is
-- a number. The label of a wavelength is a decimal of a float: `wavelength_label` is an argument.
pub mod Snapshot
use trx_rs.Common.{
  ℕ, ◌+◌, ◌/◌, String, Bool, true, false, ◌&&◌, Option, none, some, List, [], ◌∷◌, leb, and_then,
  if◌then◌else◌,
}
use trx_rs.Rig.Types.{
  F32, F64, Band, Freq, RigMode, cw, cwr, RigInfo, RigStatus, RigTxStatus, float_zero,
}
use trx_rs.Rig.Command.{WfmDenoiseLevel}

pub record DecoderConfig : Type 0 where
  pub aprs_decode_enabled : Bool
  pub hf_aprs_decode_enabled : Bool
  pub cw_decode_enabled : Bool
  pub ft8_decode_enabled : Bool
  pub ft4_decode_enabled : Bool
  pub ft2_decode_enabled : Bool
  pub wspr_decode_enabled : Bool
  pub lrpt_decode_enabled : Bool
  pub wefax_decode_enabled : Bool
  pub recorder_enabled : Bool

pub record DecoderResetSeqs : Type 0 where
  pub aprs_decode_reset_seq : ℕ
  pub hf_aprs_decode_reset_seq : ℕ
  pub cw_decode_reset_seq : ℕ
  pub ft8_decode_reset_seq : ℕ
  pub ft4_decode_reset_seq : ℕ
  pub ft2_decode_reset_seq : ℕ
  pub wspr_decode_reset_seq : ℕ
  pub lrpt_decode_reset_seq : ℕ
  pub wefax_decode_reset_seq : ℕ

pub record RigFilterState : Type 0 where
  pub bandwidth_hz : ℕ
  pub cw_center_hz : ℕ
  pub sdr_gain_db : Option F64
  pub sdr_lna_gain_db : Option F64
  pub sdr_agc_enabled : Option Bool
  pub sdr_squelch_enabled : Option Bool
  pub sdr_squelch_threshold_db : Option F64
  pub sdr_nb_enabled : Option Bool
  pub sdr_nb_threshold : Option F64
  pub wfm_deemphasis_us : ℕ
  pub wfm_stereo : Bool
  pub wfm_stereo_detected : Bool
  pub wfm_denoise : WfmDenoiseLevel
  pub wfm_cci : ℕ
  pub wfm_aci : ℕ
  pub sam_stereo_width : F32
  pub sam_carrier_sync : Bool

pub record RdsData : Type 0 where
  pub pi : Option ℕ
  pub program_service : Option String
  pub radio_text : Option String
  pub program_type_name_long : Option String
  pub pty : Option ℕ
  pub pty_name : Option String
  pub traffic_program : Option Bool
  pub traffic_announcement : Option Bool
  pub music : Option Bool
  pub stereo : Option Bool
  pub artificial_head : Option Bool
  pub compressed : Option Bool
  pub dynamic_pty : Option Bool
  pub alternative_frequencies_hz : Option (List ℕ)

pub record SpectrumData : Type 0 where
  pub bins : List F32
  pub center_hz : ℕ
  pub sample_rate : ℕ
  pub rds : Option RdsData

pub record VchanRdsEntry : Type 0 where
  pub id : ℕ
  pub rds : Option RdsData
  pub signal_db : Option F32

-- `i32` values and the float `ctcss_hz` are only stored: their bit patterns
pub record RigControl : Type 0 where
  pub enabled : Option Bool
  pub lock : Option Bool
  pub clar_hz : Option ℕ
  pub clar_on : Option Bool
  pub rpt_offset_hz : Option ℕ
  pub ctcss_hz : Option F32
  pub dcs_code : Option ℕ

pub record RigState : Type 0 where
  pub rig_info : Option RigInfo
  pub status : RigStatus
  pub initialized : Bool
  pub control : RigControl
  pub server_callsign : Option String
  pub server_version : Option String
  pub server_build_date : Option String
  pub server_latitude : Option F64
  pub server_longitude : Option F64
  pub pskreporter_status : Option String
  pub aprs_is_status : Option String
  pub decoders : DecoderConfig
  pub cw_auto : Bool
  pub cw_wpm : ℕ
  pub cw_tone_hz : ℕ
  pub filter : Option RigFilterState
  pub spectrum : Option SpectrumData
  pub vchan_rds : Option (List VchanRdsEntry)
  pub reset_seqs : DecoderResetSeqs

pub record RigSnapshot : Type 0 where
  pub info : RigInfo
  pub status : RigStatus
  pub band : Option String
  pub enabled : Option Bool
  pub initialized : Bool
  pub server_callsign : Option String
  pub server_version : Option String
  pub server_build_date : Option String
  pub server_latitude : Option F64
  pub server_longitude : Option F64
  pub pskreporter_status : Option String
  pub aprs_is_status : Option String
  pub decoders : DecoderConfig
  pub cw_auto : Bool
  pub cw_wpm : ℕ
  pub cw_tone_hz : ℕ
  pub filter : Option RigFilterState
  pub spectrum : Option SpectrumData
  pub vchan_rds : Option (List VchanRdsEntry)

abbrev pub default_status : RigStatus
default_status = record {
  freq = record { hz = 144_300_000 };
  mode = RigMode.usb;
  tx_en = false;
  vfo = none;
  tx = some (record { power = none; limit = none; swr = none; alc = none });
  rx = some (record { sig = none });
  lock = some false;
}

abbrev pub default_control : RigControl
default_control = record {
  enabled = some false;
  lock = some false;
  clar_hz = none;
  clar_on = none;
  rpt_offset_hz = none;
  ctcss_hz = none;
  dcs_code = none;
}

abbrev pub default_decoders : DecoderConfig
default_decoders = record {
  aprs_decode_enabled = false;
  hf_aprs_decode_enabled = false;
  cw_decode_enabled = false;
  ft8_decode_enabled = false;
  ft4_decode_enabled = false;
  ft2_decode_enabled = false;
  wspr_decode_enabled = false;
  lrpt_decode_enabled = false;
  wefax_decode_enabled = false;
  recorder_enabled = false;
}

abbrev pub default_reset_seqs : DecoderResetSeqs
default_reset_seqs = record {
  aprs_decode_reset_seq = 0;
  hf_aprs_decode_reset_seq = 0;
  cw_decode_reset_seq = 0;
  ft8_decode_reset_seq = 0;
  ft4_decode_reset_seq = 0;
  ft2_decode_reset_seq = 0;
  wspr_decode_reset_seq = 0;
  lrpt_decode_reset_seq = 0;
  wefax_decode_reset_seq = 0;
}

abbrev pub new_uninitialized : RigState
new_uninitialized = record {
  rig_info = none;
  status = default_status;
  initialized = false;
  control = default_control;
  server_callsign = none;
  server_version = none;
  server_build_date = none;
  server_latitude = none;
  server_longitude = none;
  pskreporter_status = none;
  aprs_is_status = none;
  decoders = default_decoders;
  cw_auto = true;
  cw_wpm = 15;
  cw_tone_hz = 700;
  filter = none;
  spectrum = none;
  vchan_rds = none;
  reset_seqs = default_reset_seqs;
}

-- radio/freq.rs
unfoldable pub center_hz : Band → ℕ
center_hz b = (b.low_hz + b.high_hz) / 2

unfoldable pub band_for_freq : List Band → Freq → Option Band
band_for_freq [] f = none
band_for_freq (b ∷ bs) f =
    if leb b.low_hz f.hz && leb f.hz b.high_hz then some b else band_for_freq bs f

unfoldable pub band_name : (ℕ → String) → RigInfo → Freq → Option String
unfolding center_hz
band_name label info f =
    and_then (band_for_freq info.capabilities.supported_bands f) (λ b. some (label (center_hz b)))

pub snapshot_with : (ℕ → String) → RigState → RigInfo → RigSnapshot
snapshot_with label s info = record {
  info = info;
  status = s.status;
  band = band_name label info s.status.freq;
  enabled = s.control.enabled;
  initialized = s.initialized;
  server_callsign = s.server_callsign;
  server_version = s.server_version;
  server_build_date = s.server_build_date;
  server_latitude = s.server_latitude;
  server_longitude = s.server_longitude;
  pskreporter_status = s.pskreporter_status;
  aprs_is_status = s.aprs_is_status;
  decoders = s.decoders;
  cw_auto = s.cw_auto;
  cw_wpm = s.cw_wpm;
  cw_tone_hz = s.cw_tone_hz;
  filter = s.filter;
  spectrum = s.spectrum;
  vchan_rds = s.vchan_rds;
}

unfoldable pub snapshot : (ℕ → String) → RigState → Option RigSnapshot
unfolding snapshot_with
snapshot label s = and_then s.rig_info (λ info. some (snapshot_with label s info))

unfoldable pub from_snapshot : RigSnapshot → RigState
from_snapshot n = record {
  rig_info = some n.info;
  status = n.status;
  initialized = n.initialized;
  control = record {
    enabled = n.enabled;
    lock = n.status.lock;
    clar_hz = none;
    clar_on = none;
    rpt_offset_hz = none;
    ctcss_hz = none;
    dcs_code = none;
  };
  server_callsign = n.server_callsign;
  server_version = n.server_version;
  server_build_date = n.server_build_date;
  server_latitude = n.server_latitude;
  server_longitude = n.server_longitude;
  pskreporter_status = n.pskreporter_status;
  aprs_is_status = n.aprs_is_status;
  decoders = n.decoders;
  cw_auto = n.cw_auto;
  cw_wpm = n.cw_wpm;
  cw_tone_hz = n.cw_tone_hz;
  filter = n.filter;
  spectrum = none;
  vchan_rds = none;
  reset_seqs = default_reset_seqs;
}

unfoldable pub apply_freq : Freq → RigState → RigState
apply_freq f s = record s { status = record s.status { freq = f } }

is_cw : RigMode → Bool
is_cw cw = true
is_cw cwr = true
is_cw _ = false

unfoldable pub apply_mode : RigMode → RigState → RigState
unfolding is_cw
apply_mode m s = record s {
  status = record s.status { mode = m };
  decoders = record s.decoders {
    cw_decode_enabled = if is_cw m then true else s.decoders.cw_decode_enabled;
  };
}

quiet : Option RigTxStatus → Option RigTxStatus
quiet none = none
quiet (some t) = some (record t { power = some 0; swr = some float_zero })

unfoldable pub apply_ptt : Bool → RigState → RigState
unfolding quiet
apply_ptt ptt s = record s {
  status = record s.status {
    tx_en = ptt;
    lock = s.control.lock;
    tx = if ptt then s.status.tx else quiet s.status.tx;
  };
}

unfoldable pub new_with_metadata :
    Option String → Option String → Option String → Option F64 → Option F64 → ℕ → RigMode → RigState
unfolding apply_mode
new_with_metadata callsign version build_date latitude longitude initial_freq_hz initial_mode =
    let s : RigState = record new_uninitialized {
      server_callsign = callsign;
      server_version = version;
      server_build_date = build_date;
      server_latitude = latitude;
      server_longitude = longitude;
      status = record default_status { freq = record { hz = initial_freq_hz } };
    } in
    apply_mode initial_mode s
