-- ===== src/Pipeline.antt =====
-- src/pipeline.hpp: a queue of items that four worker threads empty. A critical section of the
-- mutex is one function here; the steps of the threads are in Pipeline/System.antt. A handler is
-- known by a value of `H`, since the source only calls it.
pub mod System
pub mod Queueing
pub mod Phases
pub mod Threads
pub mod Workers
pub mod Taking
pub mod Draining
pub mod Stopping
pub mod Handlers
mod Examples
use cpp_shared.Prelude.{
  ℕ, List, [], ◌∷◌, ◌++◌, Option, none, some, Bool, true, false, if◌then◌else◌, Key, Map, lookup,
  insert,
}

pub data State : Type 0 where
  state_none state_idel state_ready state_terminate : State

pub record Pipeline (T : Type 0) : Type 0 where
  pub data_queue : List T
  pub state : State

abbrev pub max_thread_num : ℕ
max_thread_num = 4

abbrev pub new : {T : Type 0} → Pipeline T
new = record { data_queue = []; state = state_none }

abbrev pub is_none : State → Bool
is_none state_none = true
is_none _ = false

-- The test at the head of `dispatch`.
abbrev pub is_closed : State → Bool
is_closed state_none = true
is_closed state_terminate = true
is_closed _ = false

unfoldable pub dispatch : {T : Type 0} → T → Pipeline T → Pipeline T
dispatch v p =
    if is_closed p.state
    then p
    else record { data_queue = p.data_queue ++ (v ∷ []); state = state_ready }

-- What a worker does with the mutex held, from `condit.wait` on: it goes on waiting, leaves its
-- loop, or takes an item. To take from an empty queue is undefined behaviour, `faults`.
pub data Woken (T : Type 0) : Type 0 where
  waits : Woken T
  leaves : Pipeline T → Woken T
  takes : T → Pipeline T → Woken T
  faults : Woken T

-- `front`, `pop`, and the reset of the state when that empties the queue
abbrev take_front : {T : Type 0} → List T → Woken T
take_front [] = faults
take_front (v ∷ []) = takes v (record { data_queue = []; state = state_idel })
take_front (v ∷ w ∷ q) = takes v (record { data_queue = w ∷ q; state = state_ready })

abbrev wake_at : {T : Type 0} → State → List T → Woken T
wake_at state_none q = waits
wake_at state_idel q = waits
wake_at state_ready q = take_front q
wake_at state_terminate q = leaves (record { data_queue = q; state = state_none })

unfoldable pub wake : {T : Type 0} → Pipeline T → Woken T
wake p = wake_at p.state p.data_queue

-- A second handler for a type is ignored.
unfoldable pub register_handler : {K H : Type 0} ⦃k : Key K⦄ → K → H → Map K H → Map K H
register_handler type func mapper = insert type func mapper

-- After the mutex is released: the call that is made for an item, if its type has a handler.
unfoldable pub handle : {T K H : Type 0} ⦃k : Key K⦄ → (T → K) → Map K H → T → Option (H × T)
handle type mapper v = elim (lookup (type v) mapper) [ none ↦ none | some func ↦ some (func, v) ]

-- The thread that calls `start` and `stop`, between their accesses to `state`.
pub data Control : Type 0 where
  ready_to_call : Control
  start_set : Control
  spawning : (index : ℕ) → Control
  stop_test : Control
  stop_set : Control
  joining : Control

-- `start` up to its critical section
unfoldable pub start : State → Control
start s = if is_none s then start_set else ready_to_call

-- the critical section of `start`
unfoldable pub start_idel : {T : Type 0} → Pipeline T → Pipeline T
start_idel p = record p { state = state_idel }

-- `stop` up to its loop
unfoldable pub stop : State → Control
stop s = if is_none s then ready_to_call else stop_test

-- the condition of the loop of `stop`
unfoldable pub stop_loop : State → Control
stop_loop s = if is_none s then joining else stop_set

-- the body of that loop
unfoldable pub stop_terminate : {T : Type 0} → Pipeline T → Pipeline T
stop_terminate p = record p { state = state_terminate }
