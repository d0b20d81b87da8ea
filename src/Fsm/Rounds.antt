-- ===== src/Fsm/Rounds.antt =====
-- What one round of the listener of src/LazyFsm.h does.
use cpp_shared.Prelude.{◌≡◌, ◌≢◌, none, some, arith, ℤ, pos, int_key, Map, lookup, All}
use cpp_shared.Fsm.{
  Event, Fsm, fsm_ready, new, set_event, exits, faults, continues, advance, round, start,
}
use cpp_shared.Fsm.Transit.{transit_missing}

module _ {A W : Type 0} (exec : A → W → ℤ × W) where
  -- An event that is registered with an action and set by `setEvent` is the one that the next round
  -- runs; the machine then goes on by `transit` if the action returned 0, and waits if not.
  round-set_event :
      (id : ℤ) (e : Event A) (a : A) (m : Fsm A) (w : W)
      → lookup id m.events ≡ some e
      → e.action ≡ some a
      → round exec (set_event id m) w
        ≡ continues (advance exec (exec a w).0 e.next_state (set_event id m)) (exec a w).1
  unfolding round set_event
  round-set_event id e a m w at act = ground arith

  -- `start` does not select the event of the state that it is given: unless the event that the
  -- machine's memory happened to name is registered, the first round calls through a null pointer.
  start_faults :
      (id s0 state : ℤ) (events : Map ℤ (Event A)) (w : W)
      → lookup id events ≡ none
      → round exec (start state (record (new id s0) { events = events })).0 w ≡ faults
  unfolding round start new
  start_faults id s0 state events w h = ground arith

  -- An action that returns 0 and leads to a state with no event leaves the machine READY on event 0.
  -- Where no event 0 is registered, the round after calls through a null pointer.
  dead_end_faults :
      (e : Event A) (a : A) (m : Fsm A) (w : W)
      → m.status ≡ fsm_ready
      → lookup m.current_event_id m.events ≡ some e
      → e.action ≡ some a
      → (exec a w).0 ≡ pos 0
      → All (λ x. (x.1).state ≢ e.next_state) m.events
      → lookup (pos 0) m.events ≡ none
      → round exec m w ≡ continues (record m { current_event_id = pos 0 }) (exec a w).1
        × (round exec (record m { current_event_id = pos 0 }) (exec a w).1 ≡ faults)
  unfolding round
  dead_end_faults e a m w ready at act zero_ missing no_zero =
      (ground (arith, transit_missing e.next_state m missing), ground arith)

  -- No round ends the loop of `run`: the wait ends only at READY, so the test for TERMINATE that
  -- follows it never succeeds.
  pub round-ne-exits : (m m' : Fsm A) (w : W) → round exec m w ≢ exits m'
  unfolding round
  round-ne-exits m m' w h = ground arith
