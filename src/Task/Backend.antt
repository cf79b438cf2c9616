-- ===== src/Task/Backend.antt =====
-- What the task calls of a backend: the rest of `RigCat` and `RigSdr` of
-- src/trx-core/src/rig/mod.rs, over the state `S` of the backend; and what it computes with floats or
-- reads of the clock, as parameters.
use trx_rs.Common.{ℕ, String, Bool, Option, List}
use trx_rs.Rig.Types.{F32, F64, Freq, RigMode, RigVfo}
use trx_rs.Rig.Command.{WfmDenoiseLevel}
use trx_rs.Rig.Handlers.{Call, RigCat}
use trx_rs.Rig.Policies.{ExponentialBackoff}
use trx_rs.Task.State.{RigFilterState, SpectrumData, VchanRdsEntry}

pub record RigSdr (S : Type 0) : Type 0 where
  pub sdr_set_center_freq : Freq → Call S (Unit {0})
  pub sdr_set_bandwidth : ℕ → Call S (Unit {0})
  pub sdr_set_wfm_deemphasis : ℕ → Call S (Unit {0})
  pub sdr_set_gain : F64 → Call S (Unit {0})
  pub sdr_set_lna_gain : F64 → Call S (Unit {0})
  pub sdr_set_agc : Bool → Call S (Unit {0})
  pub sdr_set_squelch : Bool → F64 → Call S (Unit {0})
  pub sdr_set_noise_blanker : Bool → F64 → Call S (Unit {0})
  pub sdr_set_wfm_stereo : Bool → Call S (Unit {0})
  pub sdr_set_wfm_denoise : WfmDenoiseLevel → Call S (Unit {0})
  pub sdr_set_sam_stereo_width : F32 → Call S (Unit {0})
  pub sdr_set_sam_carrier_sync : Bool → Call S (Unit {0})
  pub sdr_filter_state : S → Option RigFilterState
  pub sdr_get_spectrum : S → Option SpectrumData
  pub sdr_get_vchan_rds : S → Option (List VchanRdsEntry)

-- `as_sdr` and `as_sdr_ref` are the field `sdr`
pub record Backend (S : Type 0) : Type 0 where
  pub cat : RigCat S
  pub rig_get_status : Call S (Freq × RigMode × Option RigVfo)
  pub rig_get_signal_strength : Call S ℕ
  pub rig_get_signal_strength_db : S → Option F64 × S
  pub rig_get_tx_power : Call S ℕ
  pub sdr : Option (RigSdr S)

-- `label` is `wavelength_label`, `f64_diff a b` the double of a - b, `jitter` what `apply_jitter`
-- makes of a delay, `significant a b` whether |a - b| is at least a quarter of a decibel.
pub record TaskConfig : Type 0 where
  pub retry : ExponentialBackoff
  pub jitter : ℕ → ℕ
  pub label : ℕ → String
  pub f64_diff : ℕ → ℕ → F64
  pub significant : F64 → F64 → Bool
