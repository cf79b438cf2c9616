-- ===== src/Task/Start/Ready.antt =====
-- The state and the machine when the loop of the task begins (src/trx-server/src/rig_task.rs).
use trx_rs.Common.{ℕ, Bool, true, false, not, ◌&&◌, ◌==◌, some, ◌≡◌, refl, arith, if◌then◌else◌}
use trx_rs.Rig.Types.{RigMode, RigInfo}
use trx_rs.Rig.Modes.{mode_eq}
use trx_rs.Rig.Machine.{RigStateMachine, new}
use trx_rs.Rig.Handlers.{Outcome, failed, Call, ◌>>◌, pure}
use trx_rs.Rig.Handlers.Keeps.{Keeps, >>=-Keeps, if-Keeps}
use trx_rs.Task.State.{RigState, new_with_metadata, apply_mode}
use trx_rs.Task.Sync.{sync_machine_state, desired_machine_state, unwrap_or}
use trx_rs.Task.Sync.Desired.{sync_machine_state-desired}
use trx_rs.Task.Backend.{Backend, TaskConfig}
use trx_rs.Task.Tuning.{refresh_state}
use trx_rs.Task.Tuning.Sound.{IsSound, refresh_state-IsSound, refresh_after_power_on-IsSound}
use trx_rs.Task.Start.{
  StartConfig, on_rig, ignored, when, tune, apply_initial_tune, prime_vfo_state, first_state,
  after_wake, wake, prime, tune_once, start,
}

module _ {S : Type 0} (info : RigInfo) (c : TaskConfig) (b : Backend S) where
  abbrev Sound : S × RigState → Type 0
  Sound p = IsSound info p.1

  on_rig-Sound : {A : Type 0} (m : Call S A) → Keeps Sound (on_rig m)
  unfolding on_rig
  on_rig-Sound m p h = h

  refresh-Sound : Keeps Sound (refresh_state c b)
  refresh-Sound p h = refresh_state-IsSound info c b p h

  pure-Sound : Keeps Sound (pure tt)
  unfolding pure
  pure-Sound p h = h

  when-Sound : (q : Bool) (m : Call S (Unit {0})) → Keeps Sound (when q (on_rig m))
  unfolding when
  when-Sound true m = on_rig-Sound m
  when-Sound false m = pure-Sound

  then-Sound :
      (m n : Call (S × RigState) (Unit {0})) → Keeps Sound m → Keeps Sound n → Keeps Sound (m >> n)
  then-Sound m n h k = >>=-Keeps Sound m (λ _. n) h (λ _. k)

  tune-Sound :
      (needs_freq needs_mode : Bool) (freq_hz : ℕ) (mode : RigMode)
      → Keeps Sound (tune c b needs_freq needs_mode freq_hz mode)
  unfolding tune
  tune-Sound needs_freq needs_mode freq_hz mode =
      let set_mode = when needs_mode (on_rig (b.cat.rig_set_mode mode)) in
      let set_freq = when needs_freq (on_rig (b.cat.rig_set_freq (record { hz = freq_hz }))) in
      then-Sound set_mode (set_freq >> refresh_state c b) (when-Sound needs_mode _)
        (then-Sound set_freq (refresh_state c b) (when-Sound needs_freq _) refresh-Sound)

  apply_initial_tune-Sound :
      (freq_hz : ℕ) (mode : RigMode) → Keeps Sound (apply_initial_tune c b freq_hz mode)
  unfolding apply_initial_tune
  apply_initial_tune-Sound freq_hz mode p h =
      let needs_freq = not (p.1.status.freq.hz == freq_hz) in
      let needs_mode = not (mode_eq p.1.status.mode mode) in
      if-Keeps Sound (not needs_freq && not needs_mode) (λ q. (Outcome.done tt, q))
        (tune c b needs_freq needs_mode freq_hz mode) (λ q k. k)
        (tune-Sound needs_freq needs_mode freq_hz mode) p h

  prime_vfo_state-Sound : Keeps Sound (prime_vfo_state c b)
  unfolding prime_vfo_state
  prime_vfo_state-Sound =
      let read = refresh_state c b in
      let toggle : Call (S × RigState) (Unit {0}) = on_rig b.cat.rig_toggle_vfo in
      let toggled = on_rig-Sound b.cat.rig_toggle_vfo in
      then-Sound (on_rig (ignored b.cat.rig_unlock))
        (read >> (toggle >> (read >> (toggle >> read)))) (on_rig-Sound (ignored b.cat.rig_unlock))
        (then-Sound read (toggle >> (read >> (toggle >> read))) refresh-Sound (
          then-Sound toggle (read >> (toggle >> read)) toggled (
            then-Sound read (toggle >> read) refresh-Sound
              (then-Sound toggle read toggled refresh-Sound))))

  after_wake-Sound :
      (r : Outcome (Unit {0}) × S) (s : RigState) → IsSound info s → Sound (after_wake c b r s).1
  unfolding after_wake
  after_wake-Sound (failed e, st) s h = h
  after_wake-Sound (Outcome.done u, st) s h =
      refresh_after_power_on-IsSound info c b
        (st, record s { control = record s.control { enabled = some true } }) h

  choose :
      (q : Bool) (x y : Bool × (S × RigState))
      → Sound x.1
      → Sound y.1
      → Sound (if q then x else y).1
  choose true x y h k = h
  choose false x y h k = k

  wake-Sound : (p : S × RigState) → Sound p → Sound (wake c b p).1
  unfolding wake
  wake-Sound (st, s) h =
      choose (unwrap_or s.control.enabled false) (false, (st, s))
        (after_wake c b (b.cat.rig_power_on st) s) h (after_wake-Sound (b.cat.rig_power_on st) s h)

  prime-Sound : (q : Bool) (r : Bool × (S × RigState)) → Sound r.1 → Sound (prime c b q r).1
  unfolding prime
  prime-Sound q (was_read, p) h = choose q _ (was_read, p) (prime_vfo_state-Sound p h) h

  tune_once-Sound :
      (k : StartConfig) (r : Bool × (S × RigState)) → Sound r.1 → Sound (tune_once c b k r).1
  unfolding tune_once
  tune_once-Sound k (was_read, p) h =
      choose was_read _ (false, p) (apply_initial_tune-Sound k.initial_freq_hz k.initial_mode p h) h

  first_state-Sound : (k : StartConfig) (st : S) → IsSound info (first_state c b k info st)
  unfolding first_state new_with_metadata apply_mode
  first_state-Sound k st = (refl, omega arith, omega arith, omega arith, omega arith, refl, refl)

  -- Whatever the calls of the rig return, the start ends with an initialized state, the CW
  -- settings in their ranges, no spectrum kept, and the machine in the state desired for it.
  pub start-IsSound :
      (k : StartConfig) (t0 t1 t2 : ℕ) (st : S)
      → let x = start c b k info t0 t1 t2 st in
        IsSound info x.state
        × (x.state.initialized ≡ true)
        × (x.machine.state ≡ desired_machine_state x.state)
  unfolding start
  start-IsSound k t0 t1 t2 st =
      let s0 : RigState = first_state c b k info st in
      let r = tune_once c b k (prime c b k.vfo_prime (wake c b (st, s0))) in
      let m0 : RigStateMachine = sync_machine_state t0 new s0 in
      let m1 : RigStateMachine = if r.0 then sync_machine_state t1 m0 r.1.1 else m0 in
      (
        tune_once-Sound k (prime c b k.vfo_prime (wake c b (st, s0))) (
            prime-Sound k.vfo_prime (wake c b (st, s0))
              (wake-Sound (st, s0) (first_state-Sound k st))),
        refl,
        sync_machine_state-desired t2 m1 (record r.1.1 { initialized = true }),
      )
