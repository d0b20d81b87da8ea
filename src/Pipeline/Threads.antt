-- ===== src/Pipeline/Threads.antt =====
-- What the threads of src/pipeline.hpp do with the items that they take.
use cpp_shared.Prelude.{
  Option-cases, none, some, inl, lookup, ℕ, ◌+◌, ◌<◌, ◌≤◌, ◌≡◌, inr, refl, sym, append-nil,
  append_assoc, ap, ◌∙◌, List, [], ◌∷◌, ◌++◌, arith, total, write, total-write, total-eq-zero, Key,
  Map,
}
use cpp_shared.Pipeline.{max_thread_num, handle, start_set, spawning, start_idel, stop_terminate}
use cpp_shared.Pipeline.System.{
  Worker, absent, waiting, handling, left, System, init, call_list, Step, dispatches, worker_takes,
  worker_handles, worker_leaves, calls_start, sets_idel, spawns, calls_stop, tests_loop,
  sets_terminate, joins, Reach, here, later,
}
use cpp_shared.Pipeline.Queueing.{wakes_state, leaves_queue}
use cpp_shared.Pipeline.Phases.{
  Phase, Phase-write, Phase-dispatch, Phase-leave, Phase-start, Phase-stop, Phase-stop_loop,
  Phase-spawned,
}

-- The items weighed one by one, and the one that a worker holds.
unfoldable pub sum : {T : Type 0} → (T → ℕ) → List T → ℕ
sum f [] = 0
sum f (v ∷ l) = f v + sum f l

abbrev pub in_hand : {T : Type 0} → (T → ℕ) → Worker T → ℕ
in_hand f (handling v) = f v
in_hand f absent = 0
in_hand f waiting = 0
in_hand f left = 0

sum-append : {T : Type 0} (f : T → ℕ) (l : List T) (v : T) → sum f (l ++ (v ∷ [])) ≡ sum f l + f v
unfolding sum
sum-append f [] v = omega arith
sum-append f (x ∷ l) v = omega (arith, sum-append f l v)

-- `f`, the weight of an item, is arbitrary: the items finished and those in the hands of the workers
-- are those taken, each as often.
pub record IsTracking {T H : Type 0} (s : System T H) : Type 0 where
  pub phase : Phase s.control s.pipe.state s.workers
  pub tally :
      (f : T → ℕ) → sum f s.finished + total (in_hand f) max_thread_num s.workers ≡ sum f s.taken

pub init-IsTracking : {T H : Type 0} → IsTracking (init {T = T} {H = H})
unfolding init sum
init-IsTracking = record {
  phase = inr (refl, λ j. refl);
  tally = λ f. omega (arith, total-eq-zero (in_hand f) max_thread_num (λ _. absent) (λ i lt. refl));
}

module _ {T K H : Type 0} ⦃k : Key K⦄ (type : T → K) (mapper : Map K H) where
  -- One call for each item whose type has a handler, of that handler on the item.
  unfoldable pub calls_of : List T → List (H × T)
  calls_of [] = []
  calls_of (v ∷ l) = elim (lookup (type v) mapper) [
    | none ↦ calls_of l
    | some f ↦ (f, v) ∷ calls_of l
  ]

  calls_of_one :
      (v : T) (l : List T) → calls_of (v ∷ l) ≡ call_list (handle type mapper v) ++ calls_of l
  unfolding calls_of handle
  calls_of_one v l = elim (Option-cases (lookup (type v) mapper)) [
    | inl missing ↦ rw (calls_of, handle, missing) refl
    | inr (f, found) ↦ rw (calls_of, handle, found) refl
  ]

  calls_of-append :
      (l : List T) (v : T)
      → calls_of (l ++ (v ∷ [])) ≡ calls_of l ++ call_list (handle type mapper v)
  unfolding calls_of
  calls_of-append [] v = calls_of_one v [] ∙ append-nil _
  calls_of-append (x ∷ l) v =
      calls_of_one x (l ++ (v ∷ []))
      ∙ ap (λ c. call_list (handle type mapper x) ++ c) (calls_of-append l v)
      ∙ sym (append_assoc (call_list (handle type mapper x)) _ _)
      ∙ ap (λ c. c ++ call_list (handle type mapper v)) (sym (calls_of_one x l))

  pub Step-IsTracking : {s t : System T H} → Step type mapper s t → IsTracking s → IsTracking t
  unfolding start_idel stop_terminate
  Step-IsTracking {s} (dispatches v) q = record {
    phase = Phase-dispatch s.control s.pipe v s.workers q.phase;
    tally = q.tally;
  }
  Step-IsTracking {s} (worker_takes i v p lt at e) q =
      let (old, next) = wakes_state s.pipe.state s.pipe.data_queue v p e in
      record {
        phase =
            Phase-write s.control s.pipe.state p.state s.workers i (handling v) (λ a. cc)
              (λ l. ground arith) (λ n. cc) q.phase;
        tally = λ f. ground (
          arith,
          q.tally f,
          total-write (in_hand f) max_thread_num s.workers i (handling v) lt,
          sum-append f s.taken v,
        );
      }
  Step-IsTracking {s} (worker_handles i v lt at) q = record {
    phase =
        Phase-write s.control s.pipe.state s.pipe.state s.workers i waiting (λ a. cc) (λ l. l)
          (λ n. n) q.phase;
    tally = λ f. ground (
      arith,
      q.tally f,
      total-write (in_hand f) max_thread_num s.workers i waiting lt,
      sum-append f s.finished v,
    );
  }
  Step-IsTracking {s} (worker_leaves i p lt at e) q =
      let (same, st, old) = leaves_queue s.pipe.state s.pipe.data_queue p e in
      record {
        phase =
            rw st
              (Phase-leave s.control s.pipe.state s.workers (write s.workers i left) old q.phase);
        tally = λ f.
            ground (arith, q.tally f, total-write (in_hand f) max_thread_num s.workers i left lt);
      }
  Step-IsTracking {s} (calls_start at) q = record {
    phase = Phase-start s.pipe.state s.workers (rw at at q.phase);
    tally = q.tally;
  }
  Step-IsTracking {s} (sets_idel at) q =
      let p : Phase start_set s.pipe.state s.workers = rw at at q.phase in
      record { phase = (refl, omega arith, λ j le. p.1 j); tally = q.tally }
  Step-IsTracking {s} (spawns i at) q =
      let p : Phase (spawning i) s.pipe.state s.workers = rw at at q.phase in
      record {
        phase = Phase-spawned s.pipe.state s.workers i p;
        tally = λ f. ground (
          arith,
          q.tally f,
          p.2 i,
          total-write (in_hand f) max_thread_num s.workers i waiting p.1,
        );
      }
  Step-IsTracking {s} (calls_stop at) q = record {
    phase = Phase-stop s.pipe.state s.workers (rw at at q.phase);
    tally = q.tally;
  }
  Step-IsTracking {s} (tests_loop at) q = record {
    phase = Phase-stop_loop s.pipe.state s.workers;
    tally = q.tally;
  }
  Step-IsTracking (sets_terminate at) q = record { phase = tt; tally = q.tally }
  Step-IsTracking {s} (joins at all) q = record {
    phase = inr (rw at at q.phase, λ j. refl);
    tally = λ f. ground (
      arith,
      q.tally f,
      total-eq-zero (in_hand f) max_thread_num s.workers (λ i lt. rw (all i lt)),
      total-eq-zero (in_hand f) max_thread_num (λ _. absent) (λ i lt. refl),
    );
  }

  pub Reach-IsTracking : {s t : System T H} → IsTracking s → Reach type mapper s t → IsTracking t
  Reach-IsTracking q here = q
  Reach-IsTracking q (later r st) = Step-IsTracking st (Reach-IsTracking q r)

  Step-calls :
      {s t : System T H}
      → Step type mapper s t
      → s.calls ≡ calls_of s.finished
      → t.calls ≡ calls_of t.finished
  Step-calls {s} (worker_handles i v lt at) e =
      ap (λ c. c ++ call_list (handle type mapper v)) e ∙ sym (calls_of-append s.finished v)
  Step-calls (dispatches v) e = e
  Step-calls (worker_takes i v p lt at w) e = e
  Step-calls (worker_leaves i p lt at w) e = e
  Step-calls (calls_start at) e = e
  Step-calls (sets_idel at) e = e
  Step-calls (spawns i at) e = e
  Step-calls (calls_stop at) e = e
  Step-calls (tests_loop at) e = e
  Step-calls (sets_terminate at) e = e
  Step-calls (joins at all) e = e

  Reach-calls :
      {s t : System T H}
      → s.calls ≡ calls_of s.finished
      → Reach type mapper s t
      → t.calls ≡ calls_of t.finished
  Reach-calls e here = e
  Reach-calls e (later r st) = Step-calls st (Reach-calls e r)

  -- In every reachable state the items that are finished or in the hands of one of the four workers
  -- are the items taken, each as often (for every weight `f` of the items), and the calls made are
  -- one for each finished item whose type has a handler, of that handler on the item, in the order of
  -- the items.
  pub handled_once :
      {s : System T H}
      → Reach type mapper init s
      → ((f : T → ℕ)
          → sum f s.finished + total (in_hand f) max_thread_num s.workers ≡ sum f s.taken)
        × (s.calls ≡ calls_of s.finished)
  unfolding init calls_of
  handled_once r = ((Reach-IsTracking init-IsTracking r).tally, Reach-calls refl r)

  -- `start` never assigns to the `std::thread` of a worker that is still there, which would end the
  -- program: whenever it spawns worker `i`, that worker and all after it are absent.
  spawns_absent :
      {s : System T H} (i : ℕ)
      → Reach type mapper init s
      → s.control ≡ spawning i
      → (i < max_thread_num) × ((j : ℕ) → i ≤ j → s.workers j ≡ absent)
  spawns_absent {s} i r at =
      let p : Phase (spawning i) s.pipe.state s.workers =
        rw at at (Reach-IsTracking init-IsTracking r).phase in
      (p.1, p.2)
