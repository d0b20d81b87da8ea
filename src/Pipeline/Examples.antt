-- ===== src/Pipeline/Examples.antt =====
-- Runs of src/pipeline.hpp: items are numbers, their type is the last digit, and handler 7 serves
-- type 1.
use cpp_shared.Prelude.{
  ℕ, ◌+◌, ◌%◌, ◌≡◌, ◌≢◌, refl, [], ◌∷◌, ◌++◌, arith, total, Map, nat_key, lookup,
}
use cpp_shared.Pipeline.{
  state_none, state_idel, state_ready, ready_to_call, max_thread_num, dispatch, wake, faults,
  handle, start, start_idel, stop, stop_loop, stop_terminate,
}
use cpp_shared.Pipeline.System.{
  System, init, dispatches, worker_takes, worker_handles, worker_leaves, calls_start, sets_idel,
  spawns, calls_stop, tests_loop, sets_terminate, Reach, here, later,
}
use cpp_shared.Pipeline.Queueing.{queue_is_fifo, never_faults}
use cpp_shared.Pipeline.Threads.{sum, in_hand, calls_of, handled_once}
use cpp_shared.Pipeline.Draining.{drains}
use cpp_shared.Pipeline.Stopping.{IsStuck, stop_hangs}

abbrev last_digit : ℕ → ℕ
last_digit v = v % 10

abbrev handlers : Map ℕ ℕ
handlers = (1, 7) ∷ []

record Trace : Type 0 where
  last : System ℕ ℕ
  reach : Reach last_digit handlers init last

abbrev spawning_first : Trace
unfolding init start start_idel
spawning_first = record { last = _; reach = later (later here (calls_start refl)) (sets_idel refl) }

abbrev started : Trace
unfolding init start start_idel
started = record {
  last = _;
  reach =
      later
        (later (later (later spawning_first.reach (spawns 0 refl)) (spawns 1 refl)) (spawns 2 refl))
        (spawns 3 refl);
}

-- Item 21 is handled, item 35 is in the hands of worker 1, and item 41 is queued.
abbrev served : Trace
unfolding init start start_idel dispatch wake handle lookup
served = record {
  last = _;
  reach =
      later
        (later
          (later
            (later (later (later started.reach (dispatches 21)) (dispatches 35)) (dispatches 41))
            (worker_takes 0 21 (record { data_queue = 35 ∷ 41 ∷ []; state = _ }) (omega arith) refl
              refl))
          (worker_takes 1 35 (record { data_queue = 41 ∷ []; state = _ }) (omega arith) refl refl))
        (worker_handles 0 21 (omega arith) refl);
}

abbrev terminating : Trace
unfolding init start start_idel stop stop_loop stop_terminate
terminating = record {
  last = _;
  reach =
      later (later (later started.reach (calls_stop refl)) (tests_loop refl)) (sets_terminate refl);
}

served_state :
    (served.last.accepted ≡ 21 ∷ 35 ∷ 41 ∷ [])
    × (served.last.taken ≡ 21 ∷ 35 ∷ [])
    × (served.last.calls ≡ (7, 21) ∷ [])
unfolding init start start_idel dispatch wake handle lookup
served_state = (refl, refl, refl)

served_control : served.last.control ≡ ready_to_call
unfolding init start start_idel dispatch wake handle lookup
served_control = refl

served_ready : served.last.pipe.state ≡ state_ready
unfolding init start start_idel dispatch wake handle lookup
served_ready = refl

queue_is_fifo_example : served.last.taken ++ served.last.pipe.data_queue ≡ served.last.accepted
queue_is_fifo_example = queue_is_fifo last_digit handlers served.reach

never_faults_example : wake served.last.pipe ≢ faults
never_faults_example = never_faults last_digit handlers served.reach

handled_once_example :
    ((f : ℕ → ℕ)
      → sum f served.last.finished + total (in_hand f) max_thread_num served.last.workers
        ≡ sum f served.last.taken)
    × (served.last.calls ≡ calls_of last_digit handlers served.last.finished)
handled_once_example = handled_once last_digit handlers served.reach

-- From there worker 1 finishes item 35, and worker 0 takes and finishes item 41.
drains_example :
    (t : System ℕ ℕ) × Reach last_digit handlers served.last t
    × (t.accepted ≡ served.last.accepted)
    × (t.pipe.data_queue ≡ [])
    × (t.pipe.state ≡ state_idel)
    × ((f : ℕ → ℕ) → sum f t.finished ≡ sum f served.last.accepted)
    × (t.calls ≡ calls_of last_digit handlers t.finished)
drains_example = drains last_digit handlers served.reach served_control served_ready

-- Worker 0 has left, the state is NONE and `stop` joins; then a client calls `dispatch`.
abbrev hanging : Trace
unfolding init start start_idel stop stop_loop stop_terminate wake
hanging = record {
  last = _;
  reach =
      later
        (later terminating.reach (
          worker_leaves 0 (record { data_queue = []; state = state_none }) (omega arith) refl refl))
        (tests_loop refl);
}

hanging-IsStuck : IsStuck 1 hanging.last
unfolding init start start_idel stop stop_loop stop_terminate wake
hanging-IsStuck = record {
  joins_now = refl;
  none_again = refl;
  one_of_four = omega arith;
  still_waits = refl;
}

abbrev dispatched : Trace
dispatched = record { last = _; reach = later hanging.reach (dispatches 21) }

stop_hangs_example : IsStuck 1 dispatched.last
stop_hangs_example =
    stop_hangs last_digit handlers 1 hanging-IsStuck (later {t = hanging.last} here (dispatches 21))
