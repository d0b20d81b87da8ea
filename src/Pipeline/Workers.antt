-- ===== src/Pipeline/Workers.antt =====
-- When the four workers of src/pipeline.hpp are there.
use cpp_shared.Prelude.{ℕ, zero, suc, ◌<◌, ◌≡◌, refl, Bool, true, false, arith, write, Key, Map}
use cpp_shared.Pipeline.{
  Pipeline, State, state_none, state_idel, state_ready, state_terminate, max_thread_num, dispatch,
  Control, ready_to_call, start_set, spawning, stop_test, stop_set, joining, start, stop, stop_loop,
  start_idel, stop_terminate,
}
use cpp_shared.Pipeline.System.{
  Worker, absent, waiting, handling, left, spawned, System, init, Step, dispatches, worker_takes,
  worker_handles, worker_leaves, calls_start, sets_idel, spawns, calls_stop, tests_loop,
  sets_terminate, joins, Reach, here, later,
}
use cpp_shared.Pipeline.Queueing.{wakes_state, leaves_queue}
use cpp_shared.Pipeline.Phases.{is_live, Phase}
use cpp_shared.Pipeline.Threads.{IsTracking, Reach-IsTracking, init-IsTracking}

abbrev pub is_present : {T : Type 0} → Worker T → Bool
is_present waiting = true
is_present (handling v) = true
is_present absent = false
is_present left = false

-- `start` has made the workers below its index, and all four are there while the pipeline runs.
abbrev Manned : {T : Type 0} → Control → State → (ℕ → Worker T) → Type 0
Manned ready_to_call st w =
    is_live st ≡ true → (j : ℕ) → j < max_thread_num → is_present (w j) ≡ true
Manned (spawning i) st w = (j : ℕ) → j < i → is_present (w j) ≡ true
Manned _ st w = Unit

-- A worker goes on with another item, or with none.
Manned-write :
    {T : Type 0} (c : Control) (st st' : State) (w : ℕ → Worker T) (i : ℕ) (a : Worker T)
    → is_present a ≡ true
    → (is_live st' ≡ true → is_live st ≡ true)
    → Manned c st w
    → Manned c st' (write w i a)
Manned-write ready_to_call st st' w i a there live m = λ l j lt. ground (arith, m (live l) j lt)
Manned-write start_set st st' w i a there live m = tt
Manned-write (spawning k) st st' w i a there live m = λ j lt. ground (arith, m j lt)
Manned-write stop_test st st' w i a there live m = tt
Manned-write stop_set st st' w i a there live m = tt
Manned-write joining st st' w i a there live m = tt

Manned-state :
    {T : Type 0} (c : Control) (st st' : State) (w : ℕ → Worker T)
    → (is_live st' ≡ true → is_live st ≡ true)
    → Manned c st w
    → Manned c st' w
Manned-state ready_to_call st st' w live m = λ l. m (live l)
Manned-state start_set st st' w live m = tt
Manned-state (spawning k) st st' w live m = m
Manned-state stop_test st st' w live m = tt
Manned-state stop_set st st' w live m = tt
Manned-state joining st st' w live m = tt

Manned-leave :
    {T : Type 0} (c : Control) (st : State) (w w' : ℕ → Worker T)
    → st ≡ state_terminate
    → Phase c st w
    → Manned c state_none w'
Manned-leave ready_to_call st w w' e p = λ l. ground arith
Manned-leave start_set st w w' e p = tt
Manned-leave (spawning k) st w w' e p = λ j lt. ground arith
Manned-leave stop_test st w w' e p = tt
Manned-leave stop_set st w w' e p = tt
Manned-leave joining st w w' e p = tt

Manned-start :
    {T : Type 0} (st : State) (w : ℕ → Worker T)
    → Manned ready_to_call st w
    → (Manned (start st) st w) × (Manned (stop st) st w)
unfolding start stop
Manned-start state_none w m = (tt, m)
Manned-start state_idel w m = (m, tt)
Manned-start state_ready w m = (m, tt)
Manned-start state_terminate w m = (m, tt)

Manned-stop_loop : {T : Type 0} (st : State) (w : ℕ → Worker T) → Manned (stop_loop st) st w
unfolding stop_loop
Manned-stop_loop state_none w = tt
Manned-stop_loop state_idel w = tt
Manned-stop_loop state_ready w = tt
Manned-stop_loop state_terminate w = tt

Manned-spawned :
    {T : Type 0} (st : State) (w : ℕ → Worker T) (i : ℕ)
    → i < max_thread_num
    → Manned (spawning i) st w
    → Manned (spawned i) st (write w i waiting)
Manned-spawned st w zero lt m = λ j lt'. ground (arith, m j)
Manned-spawned st w (suc zero) lt m = λ j lt'. ground (arith, m j)
Manned-spawned st w (suc (suc zero)) lt m = λ j lt'. ground (arith, m j)
Manned-spawned st w (suc (suc (suc zero))) lt m = λ l j lt'. ground (arith, m j)
Manned-spawned st w (suc (suc (suc (suc i)))) lt m = absurd (omega arith)

dispatch_live :
    {T : Type 0} (v : T) (p : Pipeline T)
    → is_live (dispatch v p).state ≡ true
    → is_live p.state ≡ true
unfolding dispatch
dispatch_live v p l = ground arith

module _ {T K H : Type 0} ⦃k : Key K⦄ (type : T → K) (mapper : Map K H) where
  Step-Manned :
      {s t : System T H}
      → Step type mapper s t
      → IsTracking s
      → Manned s.control s.pipe.state s.workers
      → Manned t.control t.pipe.state t.workers
  unfolding start_idel stop_terminate
  Step-Manned {s} (dispatches v) q m =
      Manned-state s.control s.pipe.state _ s.workers (dispatch_live v s.pipe) m
  Step-Manned {s} (worker_takes i v p lt at e) q m =
      let (old, next) = wakes_state s.pipe.state s.pipe.data_queue v p e in
      Manned-write s.control s.pipe.state p.state s.workers i (handling v) refl (λ l. rw old refl) m
  Step-Manned {s} (worker_handles i v lt at) q m =
      Manned-write s.control s.pipe.state s.pipe.state s.workers i waiting refl (λ l. l) m
  Step-Manned {s} (worker_leaves i p lt at e) q m =
      let (same, st, old) = leaves_queue s.pipe.state s.pipe.data_queue p e in
      rw st (Manned-leave s.control s.pipe.state s.workers (write s.workers i left) old q.phase)
  Step-Manned {s} (calls_start at) q m = (Manned-start s.pipe.state s.workers (rw at at m)).0
  Step-Manned (sets_idel at) q m = λ j lt. absurd (omega arith)
  Step-Manned {s} (spawns i at) q m =
      let p : Phase (spawning i) s.pipe.state s.workers = rw at at q.phase in
      Manned-spawned s.pipe.state s.workers i p.1 (rw at at m)
  Step-Manned {s} (calls_stop at) q m = (Manned-start s.pipe.state s.workers (rw at at m)).1
  Step-Manned {s} (tests_loop at) q m = Manned-stop_loop s.pipe.state s.workers
  Step-Manned (sets_terminate at) q m = tt
  Step-Manned {s} (joins at all) q m =
      let p : s.pipe.state ≡ state_none = rw at at q.phase in λ l. ground arith

  Reach-Manned :
      {s : System T H} → Reach type mapper init s → Manned s.control s.pipe.state s.workers
  unfolding init
  Reach-Manned here = λ l. ground arith
  Reach-Manned (later r st) =
      Step-Manned st (Reach-IsTracking type mapper init-IsTracking r) (Reach-Manned r)

  -- While the pipeline runs, the four workers are there: none has left, and `start` has made them all.
  pub all_present :
      {s : System T H} (i : ℕ)
      → Reach type mapper init s
      → s.control ≡ ready_to_call
      → is_live s.pipe.state ≡ true
      → i < max_thread_num
      → is_present (s.workers i) ≡ true
  all_present {s} i r at live lt =
      let m : Manned ready_to_call s.pipe.state s.workers = rw at at (Reach-Manned r) in m live i lt
