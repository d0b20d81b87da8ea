-- ===== src/Fsm/Stopping.antt =====
-- The threads of src/LazyFsm.h in any interleaving: the listener, clients that call `setEvent`, and
-- one thread that calls `start` and `stop`, which joins the listener with the mutex held. `join` of a
-- thread that was never made throws, which ends the program.
use cpp_shared.Prelude.{refl, ◌≡◌, Bool, true, false, arith, ℤ, if◌then◌else◌}
use cpp_shared.Fsm.{Fsm, is_none, set_event, exits, continues, round, start, stop_terminate}
use cpp_shared.Fsm.Rounds.{round-ne-exits}

pub data Listener : Type 0 where
  absent : Listener
  running : Listener
  finished : Listener

pub data Control : Type 0 where
  ready_to_call : Control
  stop_test : Control
  joining : Control
  ended : Control

-- Neither is the mutex held in `join`, nor has the program ended by its exception.
abbrev pub is_free : Control → Bool
is_free ready_to_call = true
is_free stop_test = true
is_free joining = false
is_free ended = false

pub record System (A W : Type 0) : Type 0 where
  pub fsm : Fsm A
  pub world : W
  pub listener : Listener
  pub control : Control

-- `stop` up to its loop, and the condition of that loop.
unfoldable pub stop : {A : Type 0} → Fsm A → Control
stop m = if is_none m.status then ready_to_call else stop_test

unfoldable pub stop_loop : {A : Type 0} → Fsm A → Control × Fsm A
stop_loop m = if is_none m.status then (ready_to_call, m) else (joining, stop_terminate m)

abbrev pub spawned : Bool → Listener → Listener
spawned true l = running
spawned false l = l

module _ {A W : Type 0} (exec : A → W → ℤ × W) where
  pub data Step (s : System A W) : System A W → Type 0 where
    runs :
        (m : Fsm A) (w : W)
        → is_free s.control ≡ true
        → s.listener ≡ running
        → round exec s.fsm s.world ≡ continues m w
        → Step s (record s { fsm = m; world = w })
    ends :
        (m : Fsm A)
        → is_free s.control ≡ true
        → s.listener ≡ running
        → round exec s.fsm s.world ≡ exits m
        → Step s (record s { fsm = m; listener = finished })
    sets_event :
        (id : ℤ) → is_free s.control ≡ true → Step s (record s { fsm = set_event id s.fsm })
    calls_start :
        (state : ℤ)
        → s.control ≡ ready_to_call
        → Step s (record s {
          fsm = (start state s.fsm).0;
          listener = spawned (start state s.fsm).1 s.listener;
        })
    calls_stop : s.control ≡ ready_to_call → Step s (record s { control = stop s.fsm })
    tests_loop :
        s.control ≡ stop_test
        → Step s (record s { fsm = (stop_loop s.fsm).1; control = (stop_loop s.fsm).0 })
    joins :
        s.control ≡ joining
        → s.listener ≡ finished
        → Step s (record s { listener = absent; control = stop_test })
    joins_absent : s.control ≡ joining → s.listener ≡ absent → Step s (record s { control = ended })

  pub data Reach (s : System A W) : System A W → Type 0 where
    here : Reach s s
    later : {t u : System A W} → Reach s t → Step t u → Reach s u

  -- A listener that runs goes on, and `stop` stays in its `join`.
  Step-running : {s t : System A W} → Step s t → s.listener ≡ running → t.listener ≡ running
  unfolding start
  Step-running (runs m w free at e) h = h
  Step-running {s} (ends m free at e) h = absurd (round-ne-exits exec s.fsm m s.world e)
  Step-running (sets_event id free) h = h
  Step-running {s} (calls_start state at) h = ground arith
  Step-running (calls_stop at) h = h
  Step-running (tests_loop at) h = h
  Step-running (joins at done) h = cc
  Step-running (joins_absent at none_) h = h

  Step-joining :
      {s t : System A W}
      → Step s t
      → s.listener ≡ running
      → s.control ≡ joining
      → t.control ≡ joining
  Step-joining (runs m w free at e) h j = j
  Step-joining (ends m free at e) h j = j
  Step-joining (sets_event id free) h j = j
  Step-joining (calls_start state at) h j = j
  Step-joining (calls_stop at) h j = cc
  Step-joining (tests_loop at) h j = cc
  Step-joining (joins at done) h j = cc
  Step-joining (joins_absent at none_) h j = cc

  Reach-running : {s t : System A W} → s.listener ≡ running → Reach s t → t.listener ≡ running
  Reach-running h here = h
  Reach-running h (later r st) = Step-running st (Reach-running h r)

  -- Once `stop` has begun to join a listener that runs, it stays in `join` in every later state: the
  -- listener cannot end its loop, and `stop` holds the mutex.
  pub join_never_ends :
      {s t : System A W}
      → s.listener ≡ running
      → s.control ≡ joining
      → Reach s t
      → t.control ≡ joining
  join_never_ends h j here = j
  join_never_ends h j (later r st) = Step-joining st (Reach-running h r) (join_never_ends h j r)

  -- A `stop` before `start`, after a `setEvent` of a registered event, ends the program: there is no
  -- thread to join.
  stop_before_start :
      (s : System A W)
      → s.listener ≡ absent
      → s.control ≡ ready_to_call
      → is_none s.fsm.status ≡ false
      → (t : System A W) × Reach s t × (t.control ≡ ended)
  unfolding stop stop_loop
  stop_before_start s none_ at set = (
    _,
    later (later (later here (calls_stop at)) (tests_loop (rw set refl)))
        (joins_absent (rw set refl) none_),
    refl,
  )
