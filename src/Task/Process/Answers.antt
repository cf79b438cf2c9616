-- ===== src/Task/Process/Answers.antt =====
-- What a command answers, and what it sends to the watchers of the state (`process_command` of
-- src/trx-server/src/rig_task.rs).
use mathlib.Core.Bool.{false≢true}
use trx_rs.Common.{
  ℕ, ◌+◌, String, Bool, true, false, not, ◌&&◌, Option, none, some, List, ◌∷◌, ◌≡◌, refl, sym, ◌∙◌,
  ap, ◌⊎◌, inl, inr, and_then, if◌then◌else◌,
}
use trx_rs.Rig.Types.{RigInfo}
use trx_rs.Rig.Command.{RigCommand}
use trx_rs.Rig.Handlers.{
  ValidationResult, invalid_params, can_execute, CommandResult, freq_updated, mode_updated,
  ptt_updated, power_updated, lock_updated, tx_limit_updated, refresh_required, Outcome, failed,
  execute, rig_cat_executor, command_from_rig_command, Call,
}
use trx_rs.Rig.Policies.{millis}
use trx_rs.Task.State.{RigState, snapshot, snapshot_with}
use trx_rs.Task.Sync.{sync_machine_state, desired_machine_state}
use trx_rs.Task.Sync.Desired.{sync_machine_state-desired}
use trx_rs.Task.Backend.{RigSdr, Backend, TaskConfig}
use trx_rs.Task.Tuning.{refresh_state, refresh_after_power_on}
use trx_rs.Task.Route.{
  FilterChange, Route, setting, clearing, sdr, center, spectrum, handled, route,
}
use trx_rs.Task.Process.{
  replied, refused, Context, Readings, Reply, or_unavailable, publish, after_sdr, call_sdr,
  conclude, after_refresh, apply_result, after_execute, once_validated, run_handler, needs_rig,
  is_toggle, paused, woken, synced, cat_error, follow_route, process_command,
}

-- the commands that send the state: all but a new centre frequency and a spectrum
unfoldable pub publishes : {S : Type 0} → Route S → Bool
publishes (center f) = false
publishes spectrum = false
publishes _ = true

-- An answer is the snapshot of the state that is sent, and the machine follows that state where
-- `follows`; a refusal sends nothing, unless the rig is unknown.
abbrev pub IsTold : {S : Type 0} → TaskConfig → Bool → List RigState → Reply S → Type 0
IsTold c follows sent (replied n, y) =
    (snapshot c.label y.state ≡ some n)
    × (y.published ≡ y.state ∷ sent)
    × (follows ≡ true → y.machine.state ≡ desired_machine_state y.state)
IsTold c follows sent (refused e, y) = (y.published ≡ sent) ⊎ (y.state.rig_info ≡ none)

module _ {S : Type 0} (c : TaskConfig) (b : Backend S) (follows : Bool) (sent : List RigState) where
  abbrev Told : Reply S → Type 0
  Told r = IsTold c follows sent r

  publish-Told :
      (y : Context S)
      → y.published ≡ sent
      → (follows ≡ true → y.machine.state ≡ desired_machine_state y.state)
      → Told (publish c b y)
  unfolding publish
  publish-Told y same step = known y.state.rig_info refl
    where
      known :
          (o : Option RigInfo)
          → y.state.rig_info ≡ o
          → Told (
            or_unavailable (and_then o (λ i. some (snapshot_with c.label y.state i))),
            record y { published = y.state ∷ y.published },
          )
      known none e = inr e
      known (some i) e = (
        ap (λ o. and_then o (λ j. some (snapshot_with c.label y.state j))) e,
        ap (λ l. y.state ∷ l) same,
        step,
      )

  conclude-Told : (t : Readings) (y : Context S) → y.published ≡ sent → Told (conclude c b t y)
  unfolding conclude
  conclude-Told t y same =
      publish-Told (record y { machine = sync_machine_state t.second_sync y.machine y.state }) same
        (λ _. sync_machine_state-desired t.second_sync y.machine y.state)

  call_sdr-Told :
      (r : Option (RigSdr S)) (name : String) (call : RigSdr S → Call S (Unit {0}))
      (change : FilterChange) (x : Context S)
      → follows ≡ false
      → x.published ≡ sent
      → Told (call_sdr c b r name call change x)
  unfolding call_sdr
  call_sdr-Told none name call change x off same = inl same
  call_sdr-Told (some r) name call change x off same = after (call r x.rig)
    where
      after : (o : Outcome (Unit {0}) × S) → Told (after_sdr c b name change o x)
      after (Outcome.done u, st) = publish-Told _ same (λ e. absurd (false≢true (sym off ∙ e)))
      after (failed e, st) = inl same

  after_refresh-Told :
      (t : Readings) (o : Outcome (Unit {0}) × (S × RigState)) (then_do : Context S → Context S)
      (x : Context S)
      → ((y : Context S) → y.published ≡ sent → (then_do y).published ≡ sent)
      → x.published ≡ sent
      → Told (after_refresh c b t o then_do x)
  unfolding after_refresh cat_error
  after_refresh-Told t (failed e, p) then_do x keep same = inl same
  after_refresh-Told t (Outcome.done u, p) then_do x keep same =
      conclude-Told t (then_do (record x { rig = p.0; state = p.1 }))
        (keep (record x { rig = p.0; state = p.1 }) same)

  paused_if-published :
      (q : Bool) (until : ℕ) (x : Context S)
      → x.published ≡ sent
      → (if q then paused c b until x else x).published ≡ sent
  unfolding paused
  paused_if-published true until x same = same
  paused_if-published false until x same = same

  apply_result-Told :
      (t : Readings) (cmd : RigCommand) (r : CommandResult) (x : Context S)
      → x.published ≡ sent
      → Told (apply_result c b t cmd r x)
  unfolding apply_result paused woken
  apply_result-Told t cmd (freq_updated f) x same = conclude-Told t _ same
  apply_result-Told t cmd (mode_updated m) x same = conclude-Told t _ same
  apply_result-Told t cmd (ptt_updated p) x same = conclude-Told t _ same
  apply_result-Told t cmd (power_updated true) x same =
      after_refresh-Told t
        (refresh_after_power_on c b
          (x.rig, record x.state { control = record x.state.control { enabled = some true } }))
        (woken c b t.answered) x (λ y k. k) same
  apply_result-Told t cmd (power_updated false) x same = conclude-Told t _ same
  apply_result-Told t cmd (lock_updated l) x same = conclude-Told t _ same
  apply_result-Told t cmd (tx_limit_updated l) x same = conclude-Told t _ same
  apply_result-Told t cmd refresh_required x same =
      after_refresh-Told t (refresh_state c b (x.rig, x.state)) (λ y. y)
        (if is_toggle cmd then paused c b (t.answered + millis 300) x else x) (λ y k. k)
        (paused_if-published (is_toggle cmd) (t.answered + millis 300) x same)
  apply_result-Told t cmd CommandResult.done x same = conclude-Told t x same

  after_execute-Told :
      (t : Readings) (cmd : RigCommand) (o : Outcome CommandResult × S) (x : Context S)
      → x.published ≡ sent
      → Told (after_execute c b t cmd o x)
  unfolding after_execute cat_error
  after_execute-Told t cmd (failed e, st) x same = inl same
  after_execute-Told t cmd (Outcome.done r, st) x same =
      apply_result-Told t cmd r (record x { rig = st }) same

  once_validated-Told :
      (t : Readings) (cmd : RigCommand) (v : ValidationResult) (x : Context S)
      → x.published ≡ sent
      → Told (once_validated c b t cmd v x)
  unfolding once_validated
  once_validated-Told t cmd ValidationResult.locked x same = inl same
  once_validated-Told t cmd (ValidationResult.invalid_state msg) x same = inl same
  once_validated-Told t cmd (invalid_params msg) x same = inl same
  once_validated-Told t cmd ValidationResult.ok x same =
      after_execute-Told t cmd
        (execute (rig_cat_executor b.cat) (command_from_rig_command cmd) x.rig) x same

  run_handler-Told :
      (t : Readings) (cmd : RigCommand) (x : Context S)
      → x.published ≡ sent
      → Told (run_handler c b t cmd x)
  unfolding run_handler synced
  run_handler-Told t cmd x same =
      let y : Context S = synced c b t.first_sync x in
      choose (not y.state.initialized && needs_rig cmd) _ _ (inl same) (
        once_validated-Told t cmd (can_execute (command_from_rig_command cmd) y.machine.state) y
          same)
    where
      choose : (q : Bool) (r r' : Reply S) → Told r → Told r' → Told (if q then r else r')
      choose true r r' h k = h
      choose false r r' h k = k

-- whether the machine is brought to the new state before it is sent
unfoldable pub syncs : {S : Type 0} → Route S → Bool
syncs handled = true
syncs _ = false

module _ {S : Type 0} (c : TaskConfig) (b : Backend S) where
  follow_route-Told :
      (t : Readings) (cmd : RigCommand) (r : Route S) (x : Context S)
      → publishes r ≡ true
      → IsTold c (syncs r) x.published (follow_route c b t cmd r x)
  unfolding follow_route publishes syncs
  follow_route-Told t cmd (setting f) x h =
      publish-Told c b false x.published (record x { state = f x.state }) refl
        (λ e. absurd (false≢true e))
  follow_route-Told t cmd (clearing i f) x h =
      publish-Told c b false x.published (record x { state = f x.state; cleared = i ∷ x.cleared })
        refl (λ e. absurd (false≢true e))
  follow_route-Told t cmd (sdr name call change) x h =
      call_sdr-Told c b false x.published b.sdr name call change x refl refl
  follow_route-Told t cmd (center f) x h = absurd (false≢true h)
  follow_route-Told t cmd spectrum x h = absurd (false≢true h)
  follow_route-Told t cmd handled x h = run_handler-Told c b true x.published t cmd x refl

  -- A command other than a new centre frequency or a spectrum that is answered has sent the state
  -- that it leaves just once, the answer is the snapshot of that state, and after a command for
  -- the rig the machine is in the state desired for it; one that is refused has sent nothing or
  -- the rig is unknown.
  pub process_command-IsTold :
      (t : Readings) (cmd : RigCommand) (x : Context S)
      → publishes {S = S} (route cmd) ≡ true
      → IsTold c (syncs {S = S} (route cmd)) x.published (process_command c b t cmd x)
  unfolding process_command
  process_command-IsTold t cmd x h = follow_route-Told t cmd (route cmd) x h
