-- ===== src/Fsm/Examples.antt =====
-- Runs of src/LazyFsm.h: an action is the number that it returns, and the world counts the calls.
use cpp_shared.Prelude.{
  ℕ, ◌+◌, ◌≡◌, refl, [], ◌∷◌, some, ℤ, pos, int_eq, int_key, lookup, if◌then◌else◌,
}
use cpp_shared.Fsm.{Event, Fsm, fsm_ready, fsm_wait, transit}
use cpp_shared.Fsm.Transit.{IsLeast, transit_found}
use cpp_shared.Fsm.Stopping.{
  System, running, ready_to_call, joining, calls_stop, tests_loop, Reach, here, later, stop,
  stop_loop, join_never_ends,
}

abbrev exec : ℤ → ℕ → ℤ × ℕ
exec a w = (a, w + 1)

abbrev event : ℤ → ℤ → ℤ → Event ℤ
event id state next_state = record {
  id = id;
  state = state;
  next_state = next_state;
  action = some (pos 0);
}

-- Event 1 leads from state 1 to state 2, event 3 from state 2 to state 9, which has no event.
abbrev machine : Fsm ℤ
machine = record {
  status = fsm_ready;
  current_event_id = pos 1;
  current_state = pos 1;
  events = (pos 1, event (pos 1) (pos 1) (pos 2)) ∷ (pos 3, event (pos 3) (pos 2) (pos 9)) ∷ [];
}

transit_found_example :
    (id : ℤ) × ((transit (pos 2) machine).0 ≡ id)
    × ((transit (pos 2) machine).1.current_state ≡ pos 2)
    × ((transit (pos 2) machine).1.status
        ≡ (if int_eq (pos 2) (pos 0) then fsm_wait else fsm_ready))
    × ((e : Event ℤ) × (lookup id machine.events ≡ some e) × (e.state ≡ pos 2))
    × IsLeast (pos 2) id machine.events
unfolding lookup
transit_found_example =
    transit_found (pos 2) (pos 3) (event (pos 3) (pos 2) (pos 9)) machine ((refl, tt), (tt, tt))
      refl refl

abbrev before_stop : System ℤ ℕ
before_stop = record { fsm = machine; world = 0; listener = running; control = ready_to_call }

abbrev stopping : (s : System ℤ ℕ) × Reach exec before_stop s
unfolding stop stop_loop
stopping = (_, later (later here (calls_stop refl)) (tests_loop refl))

join_never_ends_example : stopping.0.control ≡ joining
unfolding stop stop_loop
join_never_ends_example = join_never_ends exec {s = stopping.0} refl refl here
