-- ===== src/Pipeline/System.antt =====
-- The threads of src/pipeline.hpp, interleaved in any order: any number of clients that call
-- `dispatch`, four workers in `impl`, and one thread that calls `start` and `stop`.
use cpp_shared.Prelude.{
  ℕ, suc, ◌<◌, ◌≡◌, List, [], ◌∷◌, ◌++◌, Option, none, some, if◌then◌else◌, ltb, write, Key, Map,
}
use cpp_shared.Pipeline.{
  Pipeline, max_thread_num, new, is_closed, dispatch, leaves, takes, wake, handle, Control,
  ready_to_call, start_set, spawning, stop_test, stop_set, joining, start, start_idel, stop,
  stop_loop, stop_terminate,
}

pub data Worker (T : Type 0) : Type 0 where
  absent : Worker T
  waiting : Worker T
  handling : (value : T) → Worker T
  left : Worker T

-- `accepted`, `taken`, `finished` and `calls` record what was queued, what was taken from the queue,
-- what the workers are done with and which handlers were called, oldest first.
pub record System (T H : Type 0) : Type 0 where
  pub pipe : Pipeline T
  pub workers : ℕ → Worker T
  pub control : Control
  pub accepted : List T
  pub taken : List T
  pub finished : List T
  pub calls : List (H × T)

unfoldable pub init : {T H : Type 0} → System T H
init = record {
  pipe = new;
  workers = λ _. absent;
  control = ready_to_call;
  accepted = [];
  taken = [];
  finished = [];
  calls = [];
}

-- The handler calls of one item: one at most.
abbrev pub call_list : {T H : Type 0} → Option (H × T) → List (H × T)
call_list none = []
call_list (some c) = c ∷ []

-- `threads[i] = std::thread(...)`, then `i++`
abbrev pub spawned : ℕ → Control
spawned i = if ltb (suc i) max_thread_num then spawning (suc i) else ready_to_call

module _ {T K H : Type 0} ⦃k : Key K⦄ (type : T → K) (mapper : Map K H) where
  pub data Step (s : System T H) : System T H → Type 0 where
    dispatches :
        (v : T)
        → Step s (record s {
          pipe = dispatch v s.pipe;
          accepted = if is_closed s.pipe.state then s.accepted else s.accepted ++ (v ∷ []);
        })
    worker_takes :
        (i : ℕ) (v : T) (p : Pipeline T)
        → i < max_thread_num
        → s.workers i ≡ waiting
        → wake s.pipe ≡ takes v p
        → Step s (record s {
          pipe = p;
          workers = write s.workers i (handling v);
          taken = s.taken ++ (v ∷ []);
        })
    worker_handles :
        (i : ℕ) (v : T)
        → i < max_thread_num
        → s.workers i ≡ handling v
        → Step s (record s {
          workers = write s.workers i waiting;
          finished = s.finished ++ (v ∷ []);
          calls = s.calls ++ call_list (handle type mapper v);
        })
    worker_leaves :
        (i : ℕ) (p : Pipeline T)
        → i < max_thread_num
        → s.workers i ≡ waiting
        → wake s.pipe ≡ leaves p
        → Step s (record s { pipe = p; workers = write s.workers i left })
    calls_start : s.control ≡ ready_to_call → Step s (record s { control = start s.pipe.state })
    sets_idel :
        s.control ≡ start_set → Step s (record s { pipe = start_idel s.pipe; control = spawning 0 })
    spawns :
        (i : ℕ)
        → s.control ≡ spawning i
        → Step s (record s { workers = write s.workers i waiting; control = spawned i })
    calls_stop : s.control ≡ ready_to_call → Step s (record s { control = stop s.pipe.state })
    tests_loop : s.control ≡ stop_test → Step s (record s { control = stop_loop s.pipe.state })
    sets_terminate :
        s.control ≡ stop_set
        → Step s (record s { pipe = stop_terminate s.pipe; control = stop_test })
    joins :
        s.control ≡ joining
        → ((i : ℕ) → i < max_thread_num → s.workers i ≡ left)
        → Step s (record s { workers = λ _. absent; control = ready_to_call })

  pub data Reach (s : System T H) : System T H → Type 0 where
    here : Reach s s
    later : {t u : System T H} → Reach s t → Step t u → Reach s u
