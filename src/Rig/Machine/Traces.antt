-- ===== src/Rig/Machine/Traces.antt =====
-- What holds after any sequence of events (machine.rs): the transition counter, the states that
-- events alone can reach, and what puts a rig on the air.
use trx_rs.Common.{
  ℕ, ◌+◌, ◌%◌, ◌^◌, Bool, true, false, Option, none, some, List, [], ◌∷◌, ◌≡◌, ◌⊎◌, inl, inr, arith,
  sym, ◌∙◌, if◌then◌else◌,
}
use mathlib.Core.Bool.{false≢true}
use trx_rs.Rig.Machine.{
  RigEvent, ptt_on, RigMachineState, connecting, initializing, powered_off, ready, transmitting,
  RigStateMachine, process_event, Stamped, run,
}

-- how many of the events were accepted
unfoldable pub accepted : RigStateMachine → List Stamped → ℕ
accepted m [] = 0
accepted m (e ∷ es) =
    let (m', took) = process_event e.unix_secs e.now m e.event in
    (if took then 1 else 0) + accepted m' es

count_step :
    (t now : ℕ) (m : RigStateMachine) (e : RigEvent)
    → (process_event t now m e).0.transition_count % 2 ^ 64
      ≡ (m.transition_count + (if (process_event t now m e).1 then 1 else 0)) % 2 ^ 64
unfolding process_event
count_step t now m e = ground arith

-- After any events the counter has grown by the number of accepted ones, modulo 2 ^ 64.
pub run-transition_count :
    (m : RigStateMachine) (es : List Stamped)
    → (run m es).transition_count % 2 ^ 64 ≡ (m.transition_count + accepted m es) % 2 ^ 64
unfolding run accepted
run-transition_count m [] = omega arith
run-transition_count m (e ∷ es) =
    let m' = (process_event e.unix_secs e.now m e.event).0 in
    omega (arith, run-transition_count m' es, count_step e.unix_secs e.now m e.event)

-- Neither powered nor about to be, also under recorded errors.
abbrev NoRig : RigMachineState → Type 0
NoRig RigMachineState.disconnected = Unit
NoRig (connecting _) = Unit
NoRig (initializing none) = Unit
NoRig (initializing (some _)) = ⊥
NoRig (powered_off _) = ⊥
NoRig (ready _) = ⊥
NoRig (transmitting _) = ⊥
NoRig (RigMachineState.error _ s) = NoRig s

-- transmitting now, or after recovery from recorded errors
unfoldable pub on_air : RigMachineState → Bool
on_air (transmitting _) = true
on_air (RigMachineState.error _ s) = on_air s
on_air _ = false

abbrev pub HasPttOn : List Stamped → Type 0
HasPttOn [] = ⊥
HasPttOn (e ∷ es) = (e.event ≡ ptt_on) ⊎ HasPttOn es

on_air_step :
    (t now : ℕ) (s : RigMachineState) (n : ℕ) (l : Option ℕ) (e : RigEvent)
    → on_air s ≡ false
    → (e ≡ ptt_on)
      ⊎ (on_air
            (process_event t now
              (record { state = s; transition_count = n; last_transition = l })
              e).0.state
          ≡ false)
unfolding process_event on_air
on_air_step t now RigMachineState.disconnected n l e h = ground arith
on_air_step t now s n l e h = ground arith

-- A machine that is off the air goes on the air only if one of the events is `PttOn`.
pub on_air_needs_ptt_on :
    (m : RigStateMachine) (es : List Stamped)
    → on_air m.state ≡ false
    → on_air (run m es).state ≡ true
    → HasPttOn es
unfolding run
on_air_needs_ptt_on m [] off on = absurd (false≢true (sym off ∙ on))
on_air_needs_ptt_on m (e ∷ es) off on =
    elim (on_air_step e.unix_secs e.now m.state m.transition_count m.last_transition e.event off) [
      | inl p ↦ inl p
      | inr q ↦ inr (on_air_needs_ptt_on (process_event e.unix_secs e.now m e.event).0 es q on)
    ]
