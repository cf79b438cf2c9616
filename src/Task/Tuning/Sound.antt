-- ===== src/Task/Tuning/Sound.antt =====
-- What reading the rig back leaves alone (src/trx-server/src/rig_task.rs).
use trx_rs.Common.{◌≤◌, Bool, true, false, Option, none, some, ◌≡◌, arith, if◌then◌else◌}
use trx_rs.Rig.Types.{F64, Freq, RigMode, RigVfo, RigInfo}
use trx_rs.Rig.Handlers.{Outcome, failed}
use trx_rs.Rig.Policies.Keeps.{refresh_with_retry-keeps}
use trx_rs.Task.State.{RigState, apply_mode}
use trx_rs.Task.Backend.{Backend, TaskConfig}
use trx_rs.Task.Tuning.{
  retune, set_sig, set_limit, set_power, on_done, after_db, read_signal, read_limit, read_power,
  keep_lock, put_status, after_status, refresh_state_from_cat, refresh_state, pulse, after_refresh,
  last_refresh, refresh_after_power_on, filter_of, map_signal_strength,
}

-- the settings of the CW decoder are in their ranges, the rig is known, and no spectrum is kept
abbrev pub IsSound : RigInfo → RigState → Type 0
IsSound info s =
    (s.rig_info ≡ some info)
    × (5 ≤ s.cw_wpm)
    × (s.cw_wpm ≤ 40)
    × (100 ≤ s.cw_tone_hz)
    × (s.cw_tone_hz ≤ 10_000)
    × (s.spectrum ≡ none)
    × (s.vchan_rds ≡ none)

pub retune-IsSound :
    (info : RigInfo) (f : Freq) (s : RigState) → IsSound info s → IsSound info (retune f s)
unfolding retune
retune-IsSound info f s h = ground arith

module _ {S : Type 0} (info : RigInfo) (c : TaskConfig) (b : Backend S) where
  abbrev Sound : S × RigState → Type 0
  Sound p = IsSound info p.1

  choose : (t : Bool) (p q : S × RigState) → Sound p → Sound q → Sound (if t then p else q)
  choose true p q h k = h
  choose false p q h k = k

  on_done-Sound :
      {A : Type 0} (f : A → RigState → RigState) (r : Outcome A × S) (s : RigState)
      → ((a : A) → IsSound info (f a s))
      → IsSound info s
      → IsSound info (on_done f r s).1
  unfolding on_done
  on_done-Sound f (Outcome.done a, st) s g h = g a
  on_done-Sound f (failed e, st) s g h = h

  after_db-Sound :
      (r : Option F64 × S) (s : RigState) → IsSound info s → IsSound info (after_db c b r s).1
  unfolding after_db set_sig
  after_db-Sound (some db, st) s h = h
  after_db-Sound (none, st) s h =
      on_done-Sound (λ meter s'. set_sig (map_signal_strength c.f64_diff s'.status.mode meter) s')
        (b.rig_get_signal_strength st) s (λ a. h) h

  read_signal-Sound : (p : S × RigState) → Sound p → Sound (read_signal c b p)
  unfolding read_signal set_sig
  read_signal-Sound (st, s) h =
      choose s.status.tx_en _ (after_db c b (b.rig_get_signal_strength_db st) s) h
        (after_db-Sound (b.rig_get_signal_strength_db st) s h)

  read_limit-Sound : (p : S × RigState) → Sound p → Sound (read_limit c b p)
  unfolding read_limit set_limit
  read_limit-Sound (st, s) h = on_done-Sound set_limit (b.cat.rig_get_tx_limit st) s (λ l. h) h

  read_power-Sound : (p : S × RigState) → Sound p → Sound (read_power c b p)
  unfolding read_power set_power
  read_power-Sound (st, s) h =
      choose s.status.tx_en (on_done set_power (b.rig_get_tx_power st) s) (st, s)
        (on_done-Sound set_power (b.rig_get_tx_power st) s (λ l. h) h) h

  put_status-Sound :
      (st : S) (v : Freq × RigMode × Option RigVfo) (s : RigState)
      → IsSound info s
      → IsSound info (put_status c b st v s)
  unfolding put_status apply_mode
  put_status-Sound st (f, mode, vfo) s h =
      retune-IsSound info f
        (record s { filter = filter_of b st; control = record s.control { enabled = some true } }) h

  after_status-Sound :
      (r : Outcome (Freq × RigMode × Option RigVfo)) (st : S) (s : RigState)
      → IsSound info s
      → Sound (after_status c b r st s).1
  unfolding after_status keep_lock
  after_status-Sound (failed e) st s h = h
  after_status-Sound (Outcome.done v) st s h =
      let start : S × RigState = (st, put_status c b st v s) in
      let signal : S × RigState = read_signal c b start in
      let limit : S × RigState = read_limit c b signal in
      read_power-Sound limit
        (read_limit-Sound signal (read_signal-Sound start (put_status-Sound st v s h)))

  refresh_state_from_cat-Sound :
      (p : S × RigState) → Sound p → Sound (refresh_state_from_cat c b p).1
  unfolding refresh_state_from_cat
  refresh_state_from_cat-Sound (st, s) h =
      after_status-Sound (b.rig_get_status st).0 (b.rig_get_status st).1 s h

  pub refresh_state-IsSound : (p : S × RigState) → Sound p → Sound (refresh_state c b p).1
  unfolding refresh_state
  refresh_state-IsSound p h =
      refresh_with_retry-keeps c.jitter c.retry (refresh_state_from_cat c b) Sound
        refresh_state_from_cat-Sound p h

  after_refresh-Sound :
      (again : S × RigState → Outcome (Unit {0}) × (S × RigState))
      (r : Outcome (Unit {0}) × (S × RigState))
      → ((p : S × RigState) → Sound p → Sound (again p).1)
      → Sound r.1
      → Sound (after_refresh c b again r).1
  unfolding after_refresh
  after_refresh-Sound again (Outcome.done u, p) keep h = h
  after_refresh-Sound again (failed e, p) keep h = keep p h

  last_refresh-Sound :
      (r : Outcome (Unit {0}) × (S × RigState)) → Sound r.1 → Sound (last_refresh c b r).1
  unfolding last_refresh
  last_refresh-Sound (Outcome.done u, p) h = h
  last_refresh-Sound (failed e, p) h = h

  pulse_then : (p : S × RigState) → Sound p → Sound (refresh_state c b (pulse c b p)).1
  unfolding pulse
  pulse_then (st, s) h = refresh_state-IsSound ((b.cat.rig_power_on st).1, s) h

  pub refresh_after_power_on-IsSound :
      (p : S × RigState) → Sound p → Sound (refresh_after_power_on c b p).1
  unfolding refresh_after_power_on
  refresh_after_power_on-IsSound p h =
      after_refresh-Sound _ (refresh_state c b p)
        (λ q hq.
          after_refresh-Sound _ (refresh_state c b (pulse c b q))
            (λ r hr. last_refresh-Sound (refresh_state c b (pulse c b r)) (pulse_then r hr))
            (pulse_then q hq))
        (refresh_state-IsSound p h)
