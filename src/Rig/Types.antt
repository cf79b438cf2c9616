-- ===== src/Rig/Types.antt =====
-- The data of a rig: src/trx-core/src/rig/mod.rs, rig/state.rs (RigMode), rig/response.rs and
-- radio/freq.rs. A floating-point value is only stored and passed on, so it is its IEEE-754 bit
-- pattern; 0.0 is the pattern 0.
use trx_rs.Common.{ℕ, String, Bool, Option, List}

abbrev pub F32 : Type 0
F32 = ℕ

abbrev pub F64 : Type 0
F64 = ℕ

-- 0.0
abbrev pub float_zero : ℕ
float_zero = 0

-- radio/freq.rs
pub record Band : Type 0 where
  pub low_hz : ℕ
  pub high_hz : ℕ
  pub tx_allowed : Bool

pub record Freq : Type 0 where
  pub hz : ℕ

pub data RigMode : Type 0 where
  lsb usb cw cwr am sam wfm fm ais vdes dig pkt : RigMode
  other : String → RigMode

pub data RigAccessMethod : Type 0 where
  serial : String → ℕ → RigAccessMethod
  tcp : String → RigAccessMethod

pub record RigCapabilities : Type 0 where
  pub min_freq_step_hz : ℕ
  pub supported_bands : List Band
  pub supported_modes : List RigMode
  pub num_vfos : ℕ
  pub lock : Bool
  pub lockable : Bool
  pub attenuator : Bool
  pub preamp : Bool
  pub rit : Bool
  pub rpt : Bool
  pub split : Bool
  pub tx : Bool
  pub tx_limit : Bool
  pub vfo_switch : Bool
  pub filter_controls : Bool
  pub signal_meter : Bool

pub record RigInfo : Type 0 where
  pub manufacturer : String
  pub model : String
  pub revision : String
  pub capabilities : RigCapabilities
  pub access : RigAccessMethod

pub record RigVfoEntry : Type 0 where
  pub name : String
  pub freq : Freq
  pub mode : Option RigMode

pub record RigVfo : Type 0 where
  pub entries : List RigVfoEntry
  pub active : Option ℕ

pub record RigTxStatus : Type 0 where
  pub power : Option ℕ
  pub limit : Option ℕ
  pub swr : Option F32
  pub alc : Option ℕ

pub record RigRxStatus : Type 0 where
  pub sig : Option F64

pub record RigStatus : Type 0 where
  pub freq : Freq
  pub mode : RigMode
  pub tx_en : Bool
  pub vfo : Option RigVfo
  pub tx : Option RigTxStatus
  pub rx : Option RigRxStatus
  pub lock : Option Bool

-- rig/response.rs
pub data RigErrorKind : Type 0 where
  transient permanent : RigErrorKind

pub record RigError : Type 0 where
  pub message : String
  pub kind : RigErrorKind
