-- ===== src/Task/Loop/Invariant.antt =====
-- What holds of the state however long the task runs (src/trx-server/src/rig_task.rs).
use trx_rs.Common.{
  ℕ, Bool, true, false, not, ◌&&◌, Option, none, some, List, [], ◌∷◌, and_then, if◌then◌else◌,
}
use trx_rs.Rig.Types.{F64, RigInfo}
use trx_rs.Rig.Handlers.{Outcome, failed}
use trx_rs.Task.State.{RigState}
use trx_rs.Task.Sync.{is_off}
use trx_rs.Task.Backend.{Backend, TaskConfig}
use trx_rs.Task.Tuning.{set_sig, refresh_state}
use trx_rs.Task.Tuning.Sound.{IsSound, refresh_state-IsSound}
use trx_rs.Task.Process.{Context}
use trx_rs.Task.Batch.Answered.{run_batch-IsSound}
use trx_rs.Task.Start.{StartConfig, start}
use trx_rs.Task.Start.Ready.{start-IsSound}
use trx_rs.Task.Loop.{
  TaskEvent, poll, meter, requests, is_paused, has_moved, after_poll, on_poll, read_meter,
  after_meter, on_meter, task_step, run,
}

module _ {S : Type 0} (info : RigInfo) (c : TaskConfig) (b : Backend S) where
  abbrev Sound : Context S → Type 0
  Sound x = IsSound info x.state

  choose : (q : Bool) (x y : Context S) → Sound x → Sound y → Sound (if q then x else y)
  choose true x y h k = h
  choose false x y h k = k

  after_poll-Sound :
      (now sync_now : ℕ) (r : Outcome (Unit {0}) × (S × RigState)) (x : Context S)
      → IsSound info r.1.1
      → Sound (after_poll c b now sync_now r x)
  unfolding after_poll
  after_poll-Sound now sync_now (failed e, p) x h = h
  after_poll-Sound now sync_now (Outcome.done u, p) x h = h

  on_poll-Sound :
      (now after sync_now : ℕ) (x : Context S) → Sound x → Sound (on_poll c b now after sync_now x)
  unfolding on_poll
  on_poll-Sound now after sync_now x h =
      let y : Context S = record x { poll_pause_until = none } in
      let polled : Context S =
        after_poll c b after sync_now (refresh_state c b (y.rig, y.state)) y in
      choose (is_paused now x.poll_pause_until) x
        (if is_off x.state.control.enabled then y else polled) h
        (choose (is_off x.state.control.enabled) y polled h (
          after_poll-Sound after sync_now (refresh_state c b (y.rig, y.state)) y
            (refresh_state-IsSound info c b (y.rig, y.state) h)))

  after_meter-Sound : (r : Option F64 × S) (x : Context S) → Sound x → Sound (after_meter c b r x)
  unfolding after_meter set_sig
  after_meter-Sound (none, st) x h = h
  after_meter-Sound (some db, st) x h =
      let s : RigState = set_sig db x.state in
      let new : Bool = has_moved c.significant (and_then x.state.status.rx (λ r. r.sig)) db in
      choose new (record x { rig = st; state = s; published = s ∷ x.published })
        (record x { rig = st }) h h

  on_meter-Sound : (now : ℕ) (x : Context S) → Sound x → Sound (on_meter c b now x)
  unfolding on_meter
  on_meter-Sound now x h =
      let r = read_meter c b x.state (b.rig_get_signal_strength_db x.rig) in
      choose
        (not (is_off x.state.control.enabled)
          && (not x.state.status.tx_en && not (is_paused now x.poll_pause_until)))
        (after_meter c b r x) x (after_meter-Sound r x h) h

  task_step-Sound : (e : TaskEvent) (x : Context S) → Sound x → Sound (task_step c b e x)
  unfolding task_step
  task_step-Sound (poll now after sync_now) x h = on_poll-Sound now after sync_now x h
  task_step-Sound (meter now) x h = on_meter-Sound now x h
  task_step-Sound (requests clock batch) x h = run_batch-IsSound c b info clock batch x h

  run-Sound : (es : List TaskEvent) (x : Context S) → Sound x → Sound (run c b es x)
  unfolding run
  run-Sound [] x h = h
  run-Sound (e ∷ es) x h = run-Sound es (task_step c b e x) (task_step-Sound e x h)

  -- Whatever the rig answers and whatever events the loop selects after the start, the rig is
  -- known, the speed and the tone of the CW decoder are in 5 to 40 and 100 to 10000, and the
  -- state keeps no spectrum.
  pub run-start-IsSound :
      (k : StartConfig) (t0 t1 t2 : ℕ) (st : S) (es : List TaskEvent)
      → IsSound info (run c b es (start c b k info t0 t1 t2 st)).state
  run-start-IsSound k t0 t1 t2 st es =
      run-Sound es (start c b k info t0 t1 t2 st) (start-IsSound info c b k t0 t1 t2 st).0
