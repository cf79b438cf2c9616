-- ===== src/Task/Process/Sound.antt =====
-- What every command keeps of the state (`process_command` of src/trx-server/src/rig_task.rs).
use trx_rs.Common.{
  ℕ, ◌+◌, ◌≤◌, Bool, true, false, not, ◌&&◌, Option, none, some, refl, arith, if◌then◌else◌, String,
}
use trx_rs.Rig.Types.{RigInfo}
use trx_rs.Rig.Command.{RigCommand}
use trx_rs.Rig.Handlers.{
  ValidationResult, invalid_params, can_execute, CommandResult, freq_updated, power_updated,
  refresh_required, Outcome, failed, execute, rig_cat_executor, command_from_rig_command, Call,
}
use trx_rs.Rig.Policies.{millis}
use trx_rs.Task.State.{RigState, apply_mode, apply_ptt}
use trx_rs.Task.Backend.{RigSdr, Backend, TaskConfig}
use trx_rs.Task.Tuning.{set_limit, refresh_state, refresh_after_power_on}
use trx_rs.Task.Tuning.Sound.{
  IsSound, retune-IsSound, refresh_state-IsSound, refresh_after_power_on-IsSound,
}
use trx_rs.Task.Route.{
  FilterChange, Route, setting, clearing, sdr, center, spectrum, handled, route, clamp,
}
use trx_rs.Task.Process.{
  Context, Readings, Reply, publish, after_sdr, call_sdr, after_center, call_center, take_spectrum,
  conclude, after_refresh, paused, woken, apply_result, after_execute, once_validated, synced,
  run_handler, needs_rig, is_toggle, follow_route, process_command,
}

-- the state behind a setting or a reset
abbrev set_by : {S : Type 0} → Route S → RigState → RigState
set_by (setting f) s = f s
set_by (clearing h f) s = f s
set_by _ s = s

clamp_bounds : (lo hi v : ℕ) → lo ≤ hi → (lo ≤ clamp lo hi v) × (clamp lo hi v ≤ hi)
unfolding clamp
clamp_bounds lo hi v h = (omega arith, omega arith)

set_by-IsSound :
    (S : Type 0) (info : RigInfo) (cmd : RigCommand) (s : RigState)
    → IsSound info s
    → IsSound info (set_by {S = S} (route cmd) s)
unfolding route
set_by-IsSound S info (RigCommand.set_cw_wpm wpm) s h =
    let r = clamp_bounds 5 40 wpm (omega arith) in (h.0, r.0, r.1, h.3, h.4, h.5, h.6)
set_by-IsSound S info (RigCommand.set_cw_tone_hz hz) s h =
    let r = clamp_bounds 100 10_000 hz (omega arith) in (h.0, h.1, h.2, r.0, r.1, h.5, h.6)
set_by-IsSound S info cmd s h = h

module _ {S : Type 0} (info : RigInfo) (c : TaskConfig) (b : Backend S) where
  -- the state of the context that a reply carries
  abbrev Sound : Reply S → Type 0
  Sound r = IsSound info r.1.state

  call_sdr-Sound :
      (r : Option (RigSdr S)) (name : String) (call : RigSdr S → Call S (Unit {0}))
      (change : FilterChange) (x : Context S)
      → IsSound info x.state
      → Sound (call_sdr c b r name call change x)
  unfolding call_sdr
  call_sdr-Sound none name call change x h = h
  call_sdr-Sound (some r) name call change x h = after (call r x.rig)
    where
      after : (o : Outcome (Unit {0}) × S) → Sound (after_sdr c b name change o x)
      after (Outcome.done u, st) = h
      after (failed e, st) = h

  call_center-Sound :
      (now : ℕ) (r : Option (RigSdr S)) (call : RigSdr S → Call S (Unit {0})) (x : Context S)
      → IsSound info x.state
      → Sound (call_center c b now r call x)
  unfolding call_center after_center
  call_center-Sound now none call x h = h
  call_center-Sound now (some r) call x h = after (call r x.rig)
    where
      after : (o : Outcome (Unit {0}) × S) → Sound (after_center c b now o x)
      after (Outcome.done u, st) = h
      after (failed e, st) = h

  after_refresh-Sound :
      (t : Readings) (o : Outcome (Unit {0}) × (S × RigState)) (then_do : Context S → Context S)
      (x : Context S)
      → ((y : Context S) → IsSound info y.state → IsSound info (then_do y).state)
      → IsSound info o.1.1
      → Sound (after_refresh c b t o then_do x)
  unfolding after_refresh conclude publish
  after_refresh-Sound t (failed e, p) then_do x keep h = h
  after_refresh-Sound t (Outcome.done u, p) then_do x keep h =
      keep (record x { rig = p.0; state = p.1 }) h

  apply_result-Sound :
      (t : Readings) (cmd : RigCommand) (r : CommandResult) (x : Context S)
      → IsSound info x.state
      → Sound (apply_result c b t cmd r x)
  unfolding apply_result conclude publish paused woken apply_mode apply_ptt set_limit
  apply_result-Sound t cmd (freq_updated f) x h = retune-IsSound info f x.state h
  apply_result-Sound t cmd (power_updated true) x h =
      after_refresh-Sound t
        (refresh_after_power_on c b
          (x.rig, record x.state { control = record x.state.control { enabled = some true } }))
        (woken c b t.answered) x (λ y k. k) (refresh_after_power_on-IsSound info c b _ h)
  apply_result-Sound t cmd refresh_required x h =
      after_refresh-Sound t (refresh_state c b (x.rig, x.state)) (λ y. y)
        (if is_toggle cmd then paused c b (t.answered + millis 300) x else x) (λ y k. k)
        (refresh_state-IsSound info c b (x.rig, x.state) h)
  apply_result-Sound t cmd (power_updated false) x h = h
  apply_result-Sound t cmd r x h = h

  after_execute-Sound :
      (t : Readings) (cmd : RigCommand) (o : Outcome CommandResult × S) (x : Context S)
      → IsSound info x.state
      → Sound (after_execute c b t cmd o x)
  unfolding after_execute
  after_execute-Sound t cmd (failed e, st) x h = h
  after_execute-Sound t cmd (Outcome.done r, st) x h =
      apply_result-Sound t cmd r (record x { rig = st }) h

  once_validated-Sound :
      (t : Readings) (cmd : RigCommand) (v : ValidationResult) (x : Context S)
      → IsSound info x.state
      → Sound (once_validated c b t cmd v x)
  unfolding once_validated
  once_validated-Sound t cmd ValidationResult.locked x h = h
  once_validated-Sound t cmd (ValidationResult.invalid_state msg) x h = h
  once_validated-Sound t cmd (invalid_params msg) x h = h
  once_validated-Sound t cmd ValidationResult.ok x h =
      after_execute-Sound t cmd
        (execute (rig_cat_executor b.cat) (command_from_rig_command cmd) x.rig) x h

  run_handler-Sound :
      (t : Readings) (cmd : RigCommand) (x : Context S)
      → IsSound info x.state
      → Sound (run_handler c b t cmd x)
  unfolding run_handler synced
  run_handler-Sound t cmd x h =
      let y : Context S = synced c b t.first_sync x in
      choose (not y.state.initialized && needs_rig cmd) _ _ h (
        once_validated-Sound t cmd (can_execute (command_from_rig_command cmd) y.machine.state) y h)
    where
      choose : (q : Bool) (r r' : Reply S) → Sound r → Sound r' → Sound (if q then r else r')
      choose true r r' h k = h
      choose false r r' h k = k

  follow_route-Sound :
      (t : Readings) (cmd : RigCommand) (r : Route S) (x : Context S)
      → IsSound info (set_by r x.state)
      → IsSound info x.state
      → Sound (follow_route c b t cmd r x)
  unfolding follow_route publish take_spectrum
  follow_route-Sound t cmd (setting f) x k h = k
  follow_route-Sound t cmd (clearing i f) x k h = k
  follow_route-Sound t cmd (sdr name call change) x k h = call_sdr-Sound b.sdr name call change x h
  follow_route-Sound t cmd (center f) x k h =
      call_center-Sound t.answered b.sdr (λ r. r.sdr_set_center_freq f) x h
  follow_route-Sound t cmd spectrum x k h = (h.0, h.1, h.2, h.3, h.4, refl, refl)
  follow_route-Sound t cmd handled x k h = run_handler-Sound t cmd x h

  -- Every command keeps the state sound.
  pub process_command-IsSound :
      (t : Readings) (cmd : RigCommand) (x : Context S)
      → IsSound info x.state
      → IsSound info (process_command c b t cmd x).1.state
  unfolding process_command
  process_command-IsSound t cmd x h =
      follow_route-Sound t cmd (route cmd) x (set_by-IsSound S info cmd x.state h) h
