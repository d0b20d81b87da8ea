-- ===== src/Fsm.antt =====
-- src/LazyFsm.h: a state machine whose events run their actions on a listener thread. An action is a
-- value of `A`, run by `exec` on a world `W` that the source does not show; it is taken not to call
-- the machine back. `none` is the null pointer.
pub mod Transit
pub mod Rounds
pub mod Stopping
mod Examples
use cpp_shared.Prelude.{
  ℕ, ◌≡◌, List, [], ◌∷◌, Option, none, some, Bool, true, false, if◌then◌else◌, ℤ, pos, int_eq,
  int_key, Map, lookup, insert,
}

pub record Event (A : Type 0) : Type 0 where
  pub id : ℤ
  pub state : ℤ
  pub next_state : ℤ
  pub action : Option A

pub data Status : Type 0 where
  fsm_none fsm_ready fsm_wait fsm_terminate : Status

pub record Fsm (A : Type 0) : Type 0 where
  pub status : Status
  pub current_event_id : ℤ
  pub current_state : ℤ
  pub events : Map ℤ (Event A)

-- The constructor sets the status alone: the event and the state have whatever value `event_id` and
-- `state` their memory held.
unfoldable pub new : {A : Type 0} → ℤ → ℤ → Fsm A
new event_id state = record {
  status = fsm_none;
  current_event_id = event_id;
  current_state = state;
  events = [];
}

abbrev pub is_ready : Status → Bool
is_ready fsm_ready = true
is_ready _ = false

abbrev pub is_none : Status → Bool
is_none fsm_none = true
is_none _ = false

abbrev pub is_terminate : Status → Bool
is_terminate fsm_terminate = true
is_terminate _ = false

module _ {A : Type 0} where
  unfoldable pub register_event : ℤ → ℤ → ℤ → Option A → Fsm A → Fsm A
  register_event id state next_state action m = record m {
    events =
        insert id (record { id = id; state = state; next_state = next_state; action = action })
          m.events;
  }

  -- The status is READY afterwards, whether or not it has to be set.
  unfoldable pub set_event : ℤ → Fsm A → Fsm A
  set_event id m = elim (lookup id m.events) [
    | none ↦ m
    | some e ↦ record m { current_event_id = id; status = fsm_ready }
  ]

  -- The loop of `transit`, over the events in the order of their identifiers.
  unfoldable pub find_state : ℤ → Map ℤ (Event A) → Option ℤ
  find_state next_state [] = none
  find_state next_state ((id, e) ∷ m) =
      if int_eq e.state next_state then some id else find_state next_state m

  abbrev enter : ℤ → Fsm A → Fsm A
  enter next_state m = record m {
    current_state = next_state;
    status = if int_eq next_state (pos 0) then fsm_wait else m.status;
  }

  unfoldable pub transit : ℤ → Fsm A → ℤ × Fsm A
  transit next_state m = elim (find_state next_state m.events) [
    | none ↦ (pos 0, m)
    | some id ↦ (id, enter next_state m)
  ]

-- One round of the loop of `run`: it waits, ends the loop, calls through a null pointer, or goes on.
pub data Round (A W : Type 0) : Type 0 where
  waits : Round A W
  exits : Fsm A → Round A W
  faults : Round A W
  continues : Fsm A → W → Round A W

module _ {A W : Type 0} (exec : A → W → ℤ × W) where
  -- After the action has returned `ret`.
  abbrev pub advance : ℤ → ℤ → Fsm A → Fsm A
  advance ret next_state m =
      if int_eq ret (pos 0)
      then (let (id, m') = transit next_state m in record m' { current_event_id = id })
      else record m { status = fsm_wait }

  -- `events[currentEventID]` of an event that is not there is a default one, with no action.
  abbrev run_event : Option (Event A) → Fsm A → W → Round A W
  run_event none m w = faults
  run_event (some e) m w = elim (e.action) [
    | none ↦ faults
    | some a ↦ let (ret, w') = exec a w in continues (advance ret e.next_state m) w'
  ]

  unfoldable pub round : Fsm A → W → Round A W
  unfolding transit
  round m w =
      if is_ready m.status
      then (if is_terminate m.status
          then exits (record m { status = fsm_none })
          else run_event (lookup m.current_event_id m.events) m w)
      else waits

-- `start`, and whether it spawns the listener thread
unfoldable pub start : {A : Type 0} → ℤ → Fsm A → Fsm A × Bool
start state m =
    if is_none m.status
    then (record m { current_state = state; status = fsm_ready }, true)
    else (m, false)

-- The body of the loop of `stop` up to `join`.
unfoldable pub stop_terminate : {A : Type 0} → Fsm A → Fsm A
stop_terminate m = record m { status = fsm_terminate }
