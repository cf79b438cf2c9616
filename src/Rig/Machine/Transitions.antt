-- ===== src/Rig/Machine/Transitions.antt =====
-- One event at a time: which events a state accepts, what is kept, and the pairs of events that
-- undo one another (machine.rs, `process_event` and `next_state`).
use trx_rs.Common.{
  ℕ, true, false, Option, none, some, ◌≡◌, refl, ◌↔◌, ◌⊎◌, inl, inr, arith, is_some, Option-cases,
  if◌then◌else◌,
}
use trx_rs.Rig.Types.{RigInfo}
use trx_rs.Rig.Machine.{
  RigStateError, RigEvent, connected, initialized, powered_on, powered_off, ptt_on, ptt_off,
  recovered, RigMachineState, connecting, initializing, ready, transmitting, ReadyStateData,
  TransmittingStateData, RigStateMachine, state_rig_info, next_state, process_event, enter,
}

-- The events that a state accepts, read off the match of `process_event`. The diagram of
-- docs/Architecture.md has other edges.
pub data Accepts : RigMachineState → RigEvent → Type 0 where
  connect : Accepts RigMachineState.disconnected connected
  initialize : {t : Option ℕ} → Accepts (connecting t) initialized
  first_power : {i : RigInfo} → Accepts (initializing (some i)) powered_on
  power_up : {i : RigInfo} → Accepts (RigMachineState.powered_off i) powered_on
  key_down : {d : ReadyStateData} → Accepts (ready d) ptt_on
  power_down : {d : ReadyStateData} → Accepts (ready d) powered_off
  key_up : {d : TransmittingStateData} → Accepts (transmitting d) ptt_off
  power_cut : {d : TransmittingStateData} → Accepts (transmitting d) powered_off
  fail : {s : RigMachineState} {e : RigStateError} → Accepts s (RigEvent.error e)
  recover :
      {e : RigStateError} {s : RigMachineState} → Accepts (RigMachineState.error e s) recovered
  disconnect : {s : RigMachineState} → Accepts s RigEvent.disconnected

ruleset accept_rules = (
  connect, initialize, first_power, power_up, key_down, power_down, key_up, power_cut, fail,
  recover, disconnect,
)

next_state_accepted :
    (t : ℕ) (s : RigMachineState) (e : RigEvent) {s' : RigMachineState}
    → next_state t s e ≡ some s'
    → Accepts s e
unfolding next_state
next_state_accepted t RigMachineState.disconnected e h = grind (arith, accept_rules)
next_state_accepted t (initializing none) e h = grind (arith, accept_rules)
next_state_accepted t (initializing (some i)) e h = grind (arith, accept_rules)
next_state_accepted t s e h = grind (arith, accept_rules)

next_of_error :
    (t : ℕ) (s : RigMachineState) (x : RigStateError)
    → next_state t s (RigEvent.error x) ≡ some (RigMachineState.error x s)
unfolding next_state
next_of_error t RigMachineState.disconnected x = refl
next_of_error t _ x = refl

next_of_disconnect :
    (t : ℕ) (s : RigMachineState)
    → next_state t s RigEvent.disconnected ≡ some RigMachineState.disconnected
unfolding next_state
next_of_disconnect t RigMachineState.disconnected = refl
next_of_disconnect t _ = refl

is_some-next_state :
    (t : ℕ) {s : RigMachineState} {e : RigEvent} → Accepts s e → is_some (next_state t s e) ≡ true
unfolding next_state
is_some-next_state t connect = refl
is_some-next_state t initialize = refl
is_some-next_state t first_power = refl
is_some-next_state t power_up = refl
is_some-next_state t key_down = refl
is_some-next_state t power_down = refl
is_some-next_state t key_up = refl
is_some-next_state t power_cut = refl
is_some-next_state t (fail {s = s} {e = x}) = rw next_of_error
is_some-next_state t (recover {e = e}) = ground arith
is_some-next_state t (disconnect {s = s}) = rw next_of_disconnect

-- `next_state` stays shut in the two proofs below.
process_event-enter :
    (t now : ℕ) (m : RigStateMachine) (e : RigEvent)
    → process_event t now m e ≡ enter now (next_state t m.state e) m
unfolding process_event
process_event-enter t now m e = refl

accepted_of_true :
    (t now : ℕ) (m : RigStateMachine) (e : RigEvent)
    → (process_event t now m e).1 ≡ true
    → (s : RigMachineState) × (next_state t m.state e ≡ some s)
unfolding enter
accepted_of_true t now m e h = ground (arith, process_event-enter t now m e)

-- `process_event` returns true exactly for the events that `Accepts` lists for the state of the
-- machine, whatever the clocks say.
pub process_event_iff :
    (t now : ℕ) (m : RigStateMachine) (e : RigEvent)
    → ((process_event t now m e).1 ≡ true) ↔ Accepts m.state e
unfolding enter
process_event_iff t now m e = (
  λ h. next_state_accepted t m.state e (accepted_of_true t now m e h).1,
  λ a. ground (arith, process_event-enter t now m e, is_some-next_state t a),
)

-- An event that `Accepts` does not list leaves the machine as it was: state, counter and time.
pub process-event_rejected :
    (t now : ℕ) (m : RigStateMachine) (e : RigEvent)
    → ¬ Accepts m.state e
    → process_event t now m e ≡ (m, false)
unfolding enter
process-event_rejected t now m e no_row = elim (Option-cases (next_state t m.state e)) [
  | inl p ↦ ground (arith, process_event-enter t now m e)
  | inr (s, p) ↦ absurd (no_row (next_state_accepted t m.state e p))
]

-- An error and the recovery from it bring back the state before a recoverable error, and
-- `Disconnected` after a fatal one, from every state, error states included.
pub error-recovered :
    (t now now' : ℕ) (m : RigStateMachine) (x : RigStateError)
    → (process_event t now' (process_event t now m (RigEvent.error x)).0 recovered).0.state
      ≡ (if x.recoverable then m.state else RigMachineState.disconnected)
unfolding process_event
error-recovered t now now' m x = ground (arith, next_of_error t m.state x)

-- `PttOn` followed by `PttOff` brings a ready machine back to the same data, with the receiver
-- status cleared.
pub ptt_on-ptt_off :
    (t now now' : ℕ) (m : RigStateMachine) (d : ReadyStateData)
    → m.state ≡ ready d
    → (process_event t now' (process_event t now m ptt_on).0 ptt_off).0.state
      ≡ ready (record d { rx = none })
unfolding process_event
ptt_on-ptt_off t now now' m d h = ground arith

-- An accepted event either keeps the info of the rig or enters a state that has none.
pub next-state_rig_info :
    (t : ℕ) (s s' : RigMachineState) (e : RigEvent)
    → next_state t s e ≡ some s'
    → (state_rig_info s' ≡ none) ⊎ (state_rig_info s' ≡ state_rig_info s)
unfolding next_state state_rig_info
next-state_rig_info t RigMachineState.disconnected s' e h = ground arith
next-state_rig_info t s s' e h = ground arith
