-- ===== src/Task/Tuning.antt =====
-- Reading the rig back into the state, and what a new frequency does to the decoders
-- (src/trx-server/src/rig_task.rs). The counters are u64 and wrap, as a release build does.
pub mod Sound
pub mod Modes
pub mod Decoders
use Prim.Native.String.{◌++◌}
use trx_rs.Common.{
  ℕ, zero, suc, ◌+◌, ◌*◌, ◌%◌, ◌^◌, String, Bool, true, false, Option, none, some, ◌==◌, and_then,
  if◌then◌else◌,
}
use trx_rs.Rig.Types.{
  F64, Freq, RigMode, usb, cw, cwr, wfm, fm, ais, vdes, dig, pkt, RigVfo, RigTxStatus, float_zero,
}
use trx_rs.Rig.Handlers.{Outcome, failed, Call, RigCat}
use trx_rs.Rig.Policies.{Refresh, refresh_with_retry}
use trx_rs.Task.State.{RigState, RigFilterState, DecoderResetSeqs, apply_freq, apply_mode}
use trx_rs.Task.Sync.{unwrap_or}
use trx_rs.Task.Backend.{Backend, TaskConfig}

unfoldable pub bump : ℕ → ℕ
bump n = (n + 1) % 2 ^ 64

unfoldable pub invalidated : RigMode → DecoderResetSeqs → DecoderResetSeqs
unfolding bump
invalidated pkt q = record q { aprs_decode_reset_seq = bump q.aprs_decode_reset_seq }
invalidated dig q = record q {
  hf_aprs_decode_reset_seq = bump q.hf_aprs_decode_reset_seq;
  ft8_decode_reset_seq = bump q.ft8_decode_reset_seq;
  ft4_decode_reset_seq = bump q.ft4_decode_reset_seq;
  ft2_decode_reset_seq = bump q.ft2_decode_reset_seq;
  wspr_decode_reset_seq = bump q.wspr_decode_reset_seq;
}
invalidated usb q = record q {
  ft8_decode_reset_seq = bump q.ft8_decode_reset_seq;
  ft4_decode_reset_seq = bump q.ft4_decode_reset_seq;
  ft2_decode_reset_seq = bump q.ft2_decode_reset_seq;
  wspr_decode_reset_seq = bump q.wspr_decode_reset_seq;
}
invalidated cw q = record q { cw_decode_reset_seq = bump q.cw_decode_reset_seq }
invalidated cwr q = record q { cw_decode_reset_seq = bump q.cw_decode_reset_seq }
invalidated _ q = q

-- `invalidate_main_decoder_windows_on_freq_change`
unfoldable pub invalidate_main_decoder_windows : ℕ → RigState → RigState
unfolding invalidated
invalidate_main_decoder_windows prev_freq_hz s =
    if s.status.freq.hz == prev_freq_hz
    then s
    else record s { reset_seqs = invalidated s.status.mode s.reset_seqs }

-- `apply_freq` and the invalidation, which always follows it
unfoldable pub retune : Freq → RigState → RigState
unfolding apply_freq invalidate_main_decoder_windows
retune f s = invalidate_main_decoder_windows s.status.freq.hz (apply_freq f s)

-- -120 or -127 dBm, and 6 dB for each unit
unfoldable pub map_signal_strength : (ℕ → ℕ → F64) → RigMode → ℕ → F64
map_signal_strength f64_diff fm raw = f64_diff (raw * 6) 120
map_signal_strength f64_diff wfm raw = f64_diff (raw * 6) 120
map_signal_strength f64_diff ais raw = f64_diff (raw * 6) 120
map_signal_strength f64_diff vdes raw = f64_diff (raw * 6) 120
map_signal_strength f64_diff _ raw = f64_diff (raw * 6) 127

abbrev pub empty_tx : RigTxStatus
empty_tx = record { power = none; limit = none; swr = none; alc = none }

unfoldable pub set_sig : F64 → RigState → RigState
set_sig v s = record s { status = record s.status { rx = some (record { sig = some v }) } }

unfoldable pub set_limit : ℕ → RigState → RigState
set_limit l s = record s {
  status = record s.status {
    tx = some (record (unwrap_or s.status.tx empty_tx) { limit = some l });
  };
}

unfoldable pub set_power : ℕ → RigState → RigState
set_power p s = record s {
  status = record s.status {
    tx = some (record (unwrap_or s.status.tx empty_tx) { power = some p });
  };
}

-- `if let Ok(x) = rig.call().await { ... }`
on_done : {S A : Type 0} → (A → RigState → RigState) → Outcome A × S → RigState → S × RigState
on_done f (Outcome.done a, st) s = (st, f a s)
on_done f (failed _, st) s = (st, s)

abbrev pub filter_of : {S : Type 0} → Backend S → S → Option RigFilterState
filter_of b st = and_then b.sdr (λ d. d.sdr_filter_state st)

module _ {S : Type 0} (c : TaskConfig) (b : Backend S) where
  after_db : Option F64 × S → RigState → S × RigState
  unfolding on_done set_sig map_signal_strength
  after_db (some db, st) s = (st, set_sig db s)
  after_db (none, st) s =
      on_done (λ meter s'. set_sig (map_signal_strength c.f64_diff s'.status.mode meter) s')
        (b.rig_get_signal_strength st) s

  read_signal : S × RigState → S × RigState
  unfolding after_db set_sig
  read_signal (st, s) =
      if s.status.tx_en
      then (st, set_sig float_zero s)
      else after_db (b.rig_get_signal_strength_db st) s

  read_limit : S × RigState → S × RigState
  unfolding on_done set_limit
  read_limit (st, s) = on_done set_limit (b.cat.rig_get_tx_limit st) s

  read_power : S × RigState → S × RigState
  unfolding on_done set_power
  read_power (st, s) =
      if s.status.tx_en then on_done set_power (b.rig_get_tx_power st) s else (st, s)

  keep_lock : S × RigState → S × RigState
  keep_lock (st, s) =
      (st, record s { status = record s.status { lock = some (unwrap_or s.control.lock false) } })

  -- what `get_status` says, put into the state
  unfoldable pub put_status : S → Freq × RigMode × Option RigVfo → RigState → RigState
  unfolding retune apply_mode
  put_status st (f, mode, vfo) s =
      let known : RigState = record s {
        filter = filter_of b st;
        control = record s.control { enabled = some true };
      } in
      let tuned : RigState = apply_mode mode (retune f known) in
      record tuned { status = record tuned.status { vfo = vfo } }

  after_status :
      Outcome (Freq × RigMode × Option RigVfo) → S → RigState → Outcome (Unit {0}) × (S × RigState)
  unfolding put_status read_signal read_limit read_power keep_lock
  after_status (failed e) st s = (failed e, (st, s))
  after_status (Outcome.done v) st s =
      (Outcome.done tt, keep_lock (read_power (read_limit (read_signal (st, put_status st v s)))))

  unfoldable pub refresh_state_from_cat : Call (S × RigState) (Unit {0})
  unfolding after_status
  refresh_state_from_cat (st, s) = let (r, st') = b.rig_get_status st in after_status r st' s

  -- `refresh_state_with_retry`
  unfoldable pub refresh_state : Call (S × RigState) (Unit {0})
  unfolding refresh_with_retry
  refresh_state p =
      let r = refresh_with_retry c.jitter c.retry refresh_state_from_cat p in (r.result, r.state)

  -- a further pulse of `PowerOn`, whose failure is only logged
  unfoldable pub pulse : S × RigState → S × RigState
  pulse (st, s) = ((b.cat.rig_power_on st).1, s)

  after_refresh :
      (S × RigState → Outcome (Unit {0}) × (S × RigState))
      → Outcome (Unit {0}) × (S × RigState)
      → Outcome (Unit {0}) × (S × RigState)
  after_refresh again (Outcome.done u, p) = (Outcome.done u, p)
  after_refresh again (failed e, p) = again p

  last_refresh : Outcome (Unit {0}) × (S × RigState) → Outcome (Unit {0}) × (S × RigState)
  last_refresh (Outcome.done u, p) = (Outcome.done u, p)
  last_refresh (failed e, p) = (failed ("refresh after PowerOn failed after retries: " ++ e), p)

  -- three attempts, the second and third after a pulse
  unfoldable pub refresh_after_power_on : Call (S × RigState) (Unit {0})
  unfolding after_refresh last_refresh refresh_state pulse
  refresh_after_power_on p =
      after_refresh
        (λ q. after_refresh (λ r. last_refresh (refresh_state (pulse r))) (refresh_state (pulse q)))
        (refresh_state p)
