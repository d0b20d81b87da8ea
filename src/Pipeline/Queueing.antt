-- ===== src/Pipeline/Queueing.antt =====
-- What the queue of src/pipeline.hpp promises in every interleaving.
use cpp_shared.Prelude.{
  ◌≡◌, ◌≢◌, ◌⊎◌, refl, sym, ap, ◌∙◌, List, [], ◌∷◌, ◌++◌, append_assoc, arith, inl, inr,
  if◌then◌else◌, Bool-cases, Key, Map,
}
use cpp_shared.Pipeline.{
  Pipeline, State, state_none, state_idel, state_ready, state_terminate, dispatch, is_closed,
  faults, takes, leaves, wake, start_idel, stop_terminate,
}
use cpp_shared.Pipeline.System.{
  System, init, Step, dispatches, worker_takes, worker_handles, worker_leaves, calls_start,
  sets_idel, spawns, calls_stop, tests_loop, sets_terminate, joins, Reach, here, later,
}

-- What is queued was accepted and not yet taken, in the order of its arrival; the state is READY
-- only while there is something to take.
pub record IsQueueing {T H : Type 0} (s : System T H) : Type 0 where
  pub filled : s.pipe.state ≡ state_ready → s.pipe.data_queue ≢ []
  pub fifo : s.taken ++ s.pipe.data_queue ≡ s.accepted

wakes_front :
    {T : Type 0} (st : State) (l : List T) (v : T) (q : Pipeline T)
    → wake (record { data_queue = l; state = st }) ≡ takes v q
    → (l ≡ v ∷ q.data_queue) × (q.state ≡ state_ready → q.data_queue ≢ [])
unfolding wake
wakes_front state_none l v q e = cc
wakes_front state_idel l v q e = cc
wakes_front state_ready [] v q e = cc
wakes_front state_ready (x ∷ []) v q e = ground arith
wakes_front state_ready (x ∷ y ∷ l) v q e = ground arith
wakes_front state_terminate l v q e = cc

pub wakes_state :
    {T : Type 0} (st : State) (l : List T) (v : T) (q : Pipeline T)
    → wake (record { data_queue = l; state = st }) ≡ takes v q
    → (st ≡ state_ready) × ((q.state ≡ state_idel) ⊎ (q.state ≡ state_ready))
unfolding wake
wakes_state state_none l v q e = cc
wakes_state state_idel l v q e = cc
wakes_state state_ready [] v q e = cc
wakes_state state_ready (x ∷ []) v q e = ground arith
wakes_state state_ready (x ∷ y ∷ l) v q e = ground arith
wakes_state state_terminate l v q e = cc

pub leaves_queue :
    {T : Type 0} (st : State) (l : List T) (q : Pipeline T)
    → wake (record { data_queue = l; state = st }) ≡ leaves q
    → (q.data_queue ≡ l) × (q.state ≡ state_none) × (st ≡ state_terminate)
unfolding wake
leaves_queue state_none l q e = cc
leaves_queue state_idel l q e = cc
leaves_queue state_ready [] q e = cc
leaves_queue state_ready (x ∷ []) q e = cc
leaves_queue state_ready (x ∷ y ∷ l) q e = cc
leaves_queue state_terminate l q e = ground arith

append-ne-nil : {T : Type 0} (l : List T) (v : T) → l ++ (v ∷ []) ≢ []
append-ne-nil [] v e = cc
append-ne-nil (x ∷ l) v e = cc

faults_empty :
    {T : Type 0} (st : State) (l : List T)
    → (st ≡ state_ready → l ≢ [])
    → wake (record { data_queue = l; state = st }) ≢ faults
unfolding wake
faults_empty state_none l h e = cc
faults_empty state_idel l h e = cc
faults_empty state_ready [] h e = h refl refl
faults_empty state_ready (x ∷ []) h e = cc
faults_empty state_ready (x ∷ y ∷ l) h e = cc
faults_empty state_terminate l h e = cc

init-IsQueueing : {T H : Type 0} → IsQueueing (init {T = T} {H = H})
unfolding init
init-IsQueueing = record { filled = λ e. cc; fifo = refl }

dispatch-IsQueueing :
    {T H : Type 0} (s : System T H) (v : T)
    → IsQueueing s
    → IsQueueing (record s {
      pipe = dispatch v s.pipe;
      accepted = if is_closed s.pipe.state then s.accepted else s.accepted ++ (v ∷ []);
    })
unfolding dispatch
dispatch-IsQueueing s v q = elim (Bool-cases (is_closed s.pipe.state)) [
  | inl closed ↦ rw closed q
  | inr open_ ↦ rw open_ (record {
    filled = λ e. append-ne-nil s.pipe.data_queue v;
    fifo = sym (append_assoc s.taken s.pipe.data_queue (v ∷ [])) ∙ ap (λ l. l ++ (v ∷ [])) q.fifo;
  })
]

module _ {T K H : Type 0} ⦃k : Key K⦄ (type : T → K) (mapper : Map K H) where
  pub Step-IsQueueing : {s t : System T H} → Step type mapper s t → IsQueueing s → IsQueueing t
  unfolding start_idel stop_terminate
  Step-IsQueueing {s} (dispatches v) q = dispatch-IsQueueing s v q
  Step-IsQueueing {s} (worker_takes i v p lt at e) q =
      let (front, more) = wakes_front s.pipe.state s.pipe.data_queue v p e in
      record {
        filled = more;
        fifo =
            append_assoc s.taken (v ∷ []) p.data_queue
            ∙ ap (λ l. s.taken ++ l) (sym front)
            ∙ q.fifo;
      }
  Step-IsQueueing (worker_handles i v lt at) q = record { filled = q.filled; fifo = q.fifo }
  Step-IsQueueing {s} (worker_leaves i p lt at e) q =
      let (same, st, old) = leaves_queue s.pipe.state s.pipe.data_queue p e in
      record { filled = λ r. cc; fifo = ap (λ l. s.taken ++ l) same ∙ q.fifo }
  Step-IsQueueing (calls_start at) q = record { filled = q.filled; fifo = q.fifo }
  Step-IsQueueing (sets_idel at) q = record { filled = λ e. cc; fifo = q.fifo }
  Step-IsQueueing (spawns i at) q = record { filled = q.filled; fifo = q.fifo }
  Step-IsQueueing (calls_stop at) q = record { filled = q.filled; fifo = q.fifo }
  Step-IsQueueing (tests_loop at) q = record { filled = q.filled; fifo = q.fifo }
  Step-IsQueueing (sets_terminate at) q = record { filled = λ e. cc; fifo = q.fifo }
  Step-IsQueueing (joins at all) q = record { filled = q.filled; fifo = q.fifo }

  Reach-IsQueueing : {s t : System T H} → IsQueueing s → Reach type mapper s t → IsQueueing t
  Reach-IsQueueing q here = q
  Reach-IsQueueing q (later r st) = Step-IsQueueing st (Reach-IsQueueing q r)

  -- In every reachable state the items taken so far, followed by those still queued, are the items
  -- accepted by `dispatch`, in the order of their acceptance: none is lost, doubled or overtaken in
  -- the queue.
  pub queue_is_fifo :
      {s : System T H} → Reach type mapper init s → s.taken ++ s.pipe.data_queue ≡ s.accepted
  queue_is_fifo r = (Reach-IsQueueing init-IsQueueing r).fifo

  -- No worker of a reachable state takes from an empty queue, also where several of them were woken
  -- for one item.
  pub never_faults : {s : System T H} → Reach type mapper init s → wake s.pipe ≢ faults
  never_faults {s} r e =
      faults_empty s.pipe.state s.pipe.data_queue (Reach-IsQueueing init-IsQueueing r).filled e
