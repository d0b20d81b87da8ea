-- ===== src/Pipeline/Stopping.antt =====
-- `stop` of src/pipeline.hpp, whose loop ends as soon as one worker has left.
use cpp_shared.Prelude.{ℕ, ◌<◌, ◌≡◌, ◌≢◌, refl, arith, write, Key, Map}
use cpp_shared.Pipeline.{
  Pipeline, state_none, state_terminate, max_thread_num, dispatch, takes, leaves, wake, joining,
  stop_test, stop_loop,
}
use cpp_shared.Pipeline.System.{
  waiting, left, System, Step, dispatches, worker_takes, worker_handles, worker_leaves, calls_start,
  sets_idel, spawns, calls_stop, tests_loop, sets_terminate, joins, Reach, here, later,
}

-- `stop` waits in `join`, the state is back at NONE, and worker `i` waits for another state.
pub record IsStuck {T H : Type 0} (i : ℕ) (s : System T H) : Type 0 where
  pub joins_now : s.control ≡ joining
  pub none_again : s.pipe.state ≡ state_none
  pub one_of_four : i < max_thread_num
  pub still_waits : s.workers i ≡ waiting

no_wake_takes : {T : Type 0} (p q : Pipeline T) (v : T) → p.state ≡ state_none → wake p ≢ takes v q
unfolding wake
no_wake_takes p q v e h = ground arith

no_wake_leaves : {T : Type 0} (p q : Pipeline T) → p.state ≡ state_none → wake p ≢ leaves q
unfolding wake
no_wake_leaves p q e h = ground arith

dispatch-none :
    {T : Type 0} (p : Pipeline T) (v : T) → p.state ≡ state_none → (dispatch v p).state ≡ state_none
unfolding dispatch
dispatch-none p v e = ground arith

module _ {T K H : Type 0} ⦃k : Key K⦄ (type : T → K) (mapper : Map K H) where
  Step-IsStuck : {s t : System T H} (i : ℕ) → Step type mapper s t → IsStuck i s → IsStuck i t
  Step-IsStuck {s} i (dispatches v) q = record {
    joins_now = q.joins_now;
    none_again = dispatch-none s.pipe v q.none_again;
    one_of_four = q.one_of_four;
    still_waits = q.still_waits;
  }
  Step-IsStuck {s} i (worker_takes j v p lt at e) q =
      absurd (no_wake_takes s.pipe p v q.none_again e)
  Step-IsStuck {s} i (worker_handles j v lt at) q = record {
    joins_now = q.joins_now;
    none_again = q.none_again;
    one_of_four = q.one_of_four;
    still_waits = ground (arith, q.still_waits);
  }
  Step-IsStuck {s} i (worker_leaves j p lt at e) q = absurd (no_wake_leaves s.pipe p q.none_again e)
  Step-IsStuck i (calls_start at) q = absurd (cc (q.joins_now))
  Step-IsStuck i (sets_idel at) q = absurd (cc (q.joins_now))
  Step-IsStuck i (spawns j at) q = absurd (cc (q.joins_now))
  Step-IsStuck i (calls_stop at) q = absurd (cc (q.joins_now))
  Step-IsStuck i (tests_loop at) q = absurd (cc (q.joins_now))
  Step-IsStuck i (sets_terminate at) q = absurd (cc (q.joins_now))
  Step-IsStuck i (joins at all) q = absurd (cc (all i q.one_of_four, q.still_waits))

  -- Once the loop of `stop` has ended while some worker still waits, that worker waits and `stop`
  -- stays in `join` in every later state, whatever the clients and the other workers do.
  pub stop_hangs : {s t : System T H} (i : ℕ) → IsStuck i s → Reach type mapper s t → IsStuck i t
  stop_hangs i q here = q
  stop_hangs i q (later r st) = Step-IsStuck i st (stop_hangs i q r)

  -- That state is in reach whenever two workers wait while `stop` tests its condition at TERMINATE:
  -- one of them leaves, and the loop of `stop` ends.
  stop_can_hang :
      (s : System T H) (i j : ℕ)
      → i ≢ j
      → i < max_thread_num
      → j < max_thread_num
      → s.workers i ≡ waiting
      → s.workers j ≡ waiting
      → s.control ≡ stop_test
      → s.pipe.state ≡ state_terminate
      → (t : System T H) × Reach type mapper s t × IsStuck j t
  unfolding wake stop_loop
  stop_can_hang s i j ne lti ltj wi wj c st =
      let p : Pipeline T = record { data_queue = s.pipe.data_queue; state = state_none } in
      let after : System T H = record s { pipe = p; workers = write s.workers i left } in
      let first : Reach type mapper s after =
        later here (worker_leaves i p lti wi (ground arith)) in
      (
        _,
        later first (tests_loop c),
        record {
          joins_now = refl;
          none_again = refl;
          one_of_four = ltj;
          still_waits = ground arith;
        },
      )
