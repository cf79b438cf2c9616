-- ===== src/Task/Process.antt =====
-- `process_command` of src/trx-server/src/rig_task.rs. Times are in nanoseconds. The emitter of the task
-- has no listener, so its notifications are left out. A timeout that drops the call midway is not
-- modelled.
pub mod Locked
pub mod Sound
pub mod Answers
use Prim.Native.String.{◌++◌}
use trx_rs.Common.{
  ℕ, ◌+◌, String, Bool, true, false, not, ◌&&◌, Option, none, some, List, [], ◌∷◌, and_then,
  if◌then◌else◌,
}
use trx_rs.Rig.Types.{RigError}
use trx_rs.Rig.Command.{RigCommand}
use trx_rs.Rig.Machine.{RigStateMachine, RigMachineState}
use trx_rs.Rig.Handlers.{
  ValidationResult, invalid_params, Handler, can_execute, CommandResult, freq_updated, mode_updated,
  ptt_updated, power_updated, lock_updated, tx_limit_updated, refresh_required, Outcome, failed,
  Call, rig_cat_executor, execute, command_from_rig_command,
}
use trx_rs.Rig.Policies.{millis, communication, permanent_error, invalid_state}
use trx_rs.Task.State.{RigState, RigFilterState, RigSnapshot, snapshot, apply_mode, apply_ptt}
use trx_rs.Task.Sync.{sync_machine_state}
use trx_rs.Task.Backend.{RigSdr, Backend, TaskConfig}
use trx_rs.Task.Tuning.{retune, set_limit, filter_of, refresh_state, refresh_after_power_on}
use trx_rs.Task.Route.{
  History, FilterChange, assign, reread, Route, setting, clearing, sdr, center, spectrum, handled,
  route,
}

pub data RigResult (A : Type 0) : Type 0 where
  replied : A → RigResult A
  refused : RigError → RigResult A

-- `CommandExecContext`, with what was sent on `state_tx` and which histories were cleared, the
-- latest first
pub record Context (S : Type 0) : Type 0 where
  pub rig : S
  pub state : RigState
  pub machine : RigStateMachine
  pub poll_pause_until : Option ℕ
  pub last_power_on : Option ℕ
  pub published : List RigState
  pub cleared : List History

-- the readings of the clock: at the first synchronisation, behind the rig's answer, and at the
-- second synchronisation
pub record Readings : Type 0 where
  pub first_sync : ℕ
  pub answered : ℕ
  pub second_sync : ℕ

abbrev pub Reply : Type 0 → Type 0
Reply S = RigResult RigSnapshot × Context S

unfoldable pub not_supported : String → RigError
unfolding permanent_error
not_supported operation = permanent_error ("operation not supported: " ++ operation)

or_unavailable : Option RigSnapshot → RigResult RigSnapshot
or_unavailable none = refused (invalid_state "Rig info unavailable")
or_unavailable (some n) = replied n

unfoldable pub snapshot_from : TaskConfig → RigState → RigResult RigSnapshot
unfolding or_unavailable snapshot
snapshot_from c s = or_unavailable (snapshot c.label s)

change_filter : Option RigFilterState → FilterChange → Option RigFilterState → Option RigFilterState
change_filter now_there (assign f) old = and_then old (λ v. some (f v))
change_filter now_there reread old = now_there

-- all but the two commands that a rig that is not initialized takes
unfoldable pub needs_rig : RigCommand → Bool
needs_rig RigCommand.power_on = false
needs_rig RigCommand.get_snapshot = false
needs_rig _ = true

is_toggle : RigCommand → Bool
is_toggle RigCommand.toggle_vfo = true
is_toggle _ = false

cat_error : {A : Type 0} → String → RigResult A
cat_error e = refused (communication ("CAT error: " ++ e))

module _ {S : Type 0} (c : TaskConfig) (b : Backend S) where
  unfoldable pub publish : Context S → Reply S
  unfolding snapshot_from
  publish x = (snapshot_from c x.state, record x { published = x.state ∷ x.published })

  after_sdr : String → FilterChange → Outcome (Unit {0}) × S → Context S → Reply S
  unfolding publish change_filter
  after_sdr name change (failed e, st) x =
      (refused (communication (name ++ (": " ++ e))), record x { rig = st })
  after_sdr name change (Outcome.done u, st) x = publish (record x {
    rig = st;
    state = record x.state { filter = change_filter (filter_of b st) change x.state.filter };
  })

  call_sdr :
      Option (RigSdr S)
      → String
      → (RigSdr S → Call S (Unit {0}))
      → FilterChange
      → Context S
      → Reply S
  unfolding after_sdr not_supported
  call_sdr none name call change x = (refused (not_supported name), x)
  call_sdr (some r) name call change x = after_sdr name change (call r x.rig) x

  -- it neither publishes nor changes the filter
  after_center : ℕ → Outcome (Unit {0}) × S → Context S → Reply S
  unfolding snapshot_from
  after_center now (failed e, st) x =
      (refused (communication ("set_center_freq: " ++ e)), record x { rig = st })
  after_center now (Outcome.done u, st) x =
      (snapshot_from c x.state, record x { rig = st; poll_pause_until = some (now + millis 200) })

  call_center : ℕ → Option (RigSdr S) → (RigSdr S → Call S (Unit {0})) → Context S → Reply S
  unfolding after_center not_supported
  call_center now none call x = (refused (not_supported "set_center_freq"), x)
  call_center now (some r) call x = after_center now (call r x.rig) x

  -- the spectrum is in the answer and not in the state that is kept
  take_spectrum : Context S → Reply S
  unfolding snapshot_from
  take_spectrum x = (
    snapshot_from c (record x.state {
      spectrum = and_then b.sdr (λ r. r.sdr_get_spectrum x.rig);
      vchan_rds = and_then b.sdr (λ r. r.sdr_get_vchan_rds x.rig);
    }),
    record x { state = record x.state { spectrum = none; vchan_rds = none } },
  )

  -- the end of a command that the rig has carried out
  unfoldable pub conclude : Readings → Context S → Reply S
  unfolding publish
  conclude t x = publish (record x { machine = sync_machine_state t.second_sync x.machine x.state })

  after_refresh :
      Readings → Outcome (Unit {0}) × (S × RigState) → (Context S → Context S) → Context S → Reply S
  unfolding conclude cat_error
  after_refresh t (failed e, p) then_do x = (cat_error e, record x { rig = p.0; state = p.1 })
  after_refresh t (Outcome.done u, p) then_do x =
      conclude t (then_do (record x { rig = p.0; state = p.1 }))

  paused : ℕ → Context S → Context S
  paused until x = record x { poll_pause_until = some until }

  woken : ℕ → Context S → Context S
  woken now x = record x { poll_pause_until = some (now + millis 3_000); last_power_on = some now }

  -- the `match cmd_result`
  apply_result : Readings → RigCommand → CommandResult → Context S → Reply S
  unfolding conclude after_refresh paused woken retune apply_mode apply_ptt set_limit is_toggle
  apply_result t cmd (freq_updated f) x =
      conclude t (paused (t.answered + millis 200) (record x { state = retune f x.state }))
  apply_result t cmd (mode_updated m) x =
      conclude t (paused (t.answered + millis 200) (record x { state = apply_mode m x.state }))
  apply_result t cmd (ptt_updated p) x = conclude t (record x { state = apply_ptt p x.state })
  apply_result t cmd (power_updated true) x =
      after_refresh t
        (refresh_after_power_on c b
          (x.rig, record x.state { control = record x.state.control { enabled = some true } }))
        (woken t.answered) x
  apply_result t cmd (power_updated false) x = conclude t (record x {
    state = record x.state {
      control = record x.state.control { enabled = some false };
      status = record x.state.status { tx_en = false };
    };
  })
  apply_result t cmd (lock_updated locked) x = conclude t (record x {
    state = record x.state {
      control = record x.state.control { lock = some locked };
      status = record x.state.status { lock = some locked };
    };
  })
  apply_result t cmd (tx_limit_updated l) x = conclude t (record x { state = set_limit l x.state })
  apply_result t cmd refresh_required x =
      after_refresh t (refresh_state c b (x.rig, x.state)) (λ y. y)
        (if is_toggle cmd then paused (t.answered + millis 300) x else x)
  apply_result t cmd CommandResult.done x = conclude t x

  after_execute : Readings → RigCommand → Outcome CommandResult × S → Context S → Reply S
  unfolding apply_result cat_error
  after_execute t cmd (failed e, st) x = (cat_error e, record x { rig = st })
  after_execute t cmd (Outcome.done r, st) x = apply_result t cmd r (record x { rig = st })

  once_validated : Readings → RigCommand → ValidationResult → Context S → Reply S
  unfolding after_execute execute rig_cat_executor command_from_rig_command
  once_validated t cmd ValidationResult.locked x = (refused (invalid_state "panel is locked"), x)
  once_validated t cmd (ValidationResult.invalid_state msg) x = (refused (invalid_state msg), x)
  once_validated t cmd (invalid_params msg) x = (refused (invalid_state msg), x)
  once_validated t cmd ValidationResult.ok x =
      after_execute t cmd (execute (rig_cat_executor b.cat) (command_from_rig_command cmd) x.rig) x

  synced : ℕ → Context S → Context S
  synced now x = record x { machine = sync_machine_state now x.machine x.state }

  -- what follows the first `match`
  unfoldable pub run_handler : Readings → RigCommand → Context S → Reply S
  unfolding once_validated synced needs_rig
  run_handler t cmd x =
      let y = synced t.first_sync x in
      if not y.state.initialized && needs_rig cmd
      then (refused (invalid_state "rig not initialized yet"), y)
      else once_validated t cmd (can_execute (command_from_rig_command cmd) y.machine.state) y

  follow_route : Readings → RigCommand → Route S → Context S → Reply S
  unfolding publish call_sdr call_center take_spectrum run_handler
  follow_route t cmd (setting f) x = publish (record x { state = f x.state })
  follow_route t cmd (clearing h f) x =
      publish (record x { state = f x.state; cleared = h ∷ x.cleared })
  follow_route t cmd (sdr name call change) x = call_sdr b.sdr name call change x
  follow_route t cmd (center f) x = call_center t.answered b.sdr (λ r. r.sdr_set_center_freq f) x
  follow_route t cmd spectrum x = take_spectrum x
  follow_route t cmd handled x = run_handler t cmd x

  unfoldable pub process_command : Readings → RigCommand → Context S → Reply S
  unfolding follow_route route
  process_command t cmd x = follow_route t cmd (route cmd) x
