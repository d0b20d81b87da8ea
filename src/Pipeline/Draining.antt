-- ===== src/Pipeline/Draining.antt =====
-- Nothing that src/pipeline.hpp has accepted is stuck: while it runs, its workers can finish it all.
use cpp_shared.Prelude.{
  ℕ, zero, suc, ◌<◌, ◌≤◌, ◌≡◌, ◌≢◌, inl, inr, refl, sym, ap, ◌∙◌, append-nil, List, [], ◌∷◌, ◌++◌,
  arith, total, total-write, total-eq-zero, dec_lt, write, Key, Map,
}
use cpp_shared.Pipeline.{
  Pipeline, state_idel, state_ready, max_thread_num, takes, faults, wake, ready_to_call,
}
use cpp_shared.Pipeline.System.{
  Worker, waiting, handling, System, init, worker_takes, worker_handles, Reach, here, later,
}
use cpp_shared.Pipeline.Queueing.{queue_is_fifo, never_faults}
use cpp_shared.Pipeline.Threads.{sum, in_hand, calls_of, handled_once}
use cpp_shared.Pipeline.Taking.{
  worker_cases, idle_waits, hands_below, wake_empty, take_last, take_one,
}
use cpp_shared.Pipeline.Workers.{is_present, all_present}

module _ {T K H : Type 0} ⦃k : Key K⦄ (type : T → K) (mapper : Map K H) where
  Reach-trans :
      {s t u : System T H} → Reach type mapper s t → Reach type mapper t u → Reach type mapper s u
  Reach-trans r here = r
  Reach-trans r (later more st) = later (Reach-trans r more) st

  -- The first `n` workers have finished what they had in their hands, and nothing else has changed.
  record IsEmptied (n : ℕ) (s t : System T H) : Type 0 where
    reached : Reach type mapper s t
    same_pipe : t.pipe ≡ s.pipe
    same_accepted : t.accepted ≡ s.accepted
    present : (j : ℕ) → is_present (t.workers j) ≡ is_present (s.workers j)
    empty : (j : ℕ) → j < n → (f : T → ℕ) → in_hand f (t.workers j) ≡ 0

  finish_hands : (n : ℕ) (s : System T H) → n ≤ max_thread_num → (t : System T H) × IsEmptied n s t
  finish_hands zero s le = (
    s,
    record {
      reached = here;
      same_pipe = refl;
      same_accepted = refl;
      present = λ j. refl;
      empty = λ j lt. absurd (omega arith);
    },
  )
  finish_hands (suc n) s le =
      let (t, e) = finish_hands n s (omega arith) in
      elim (worker_cases (t.workers n)) [
        | inl (v, at) ↦ (
          _,
          record {
            reached = later e.reached (worker_handles n v (omega arith) at);
            same_pipe = e.same_pipe;
            same_accepted = e.same_accepted;
            present = λ j. ground (arith, e.present j);
            empty = λ j lt f. hands_below t.workers n j f lt (λ below. e.empty j below f);
          },
        )
        | inr idle ↦ (
          t,
          record {
            reached = e.reached;
            same_pipe = e.same_pipe;
            same_accepted = e.same_accepted;
            present = e.present;
            empty = λ j lt f. elim (dec_lt j n) [
              | yes below ↦ e.empty j below f
              | no above ↦ let same : j ≡ n = omega arith in rw same (idle f)
            ];
          },
        )
      ]

  -- Worker 0 has taken an item and finished it.
  record IsServed (s t : System T H) (p : Pipeline T) : Type 0 where
    reached : Reach type mapper s t
    pipe_after : t.pipe ≡ p
    waits : t.workers 0 ≡ waiting
    same_accepted : t.accepted ≡ s.accepted
    same_hands :
        (f : T → ℕ)
        → total (in_hand f) max_thread_num t.workers ≡ total (in_hand f) max_thread_num s.workers

  serve_one :
      (v : T) (s : System T H) (p : Pipeline T)
      → s.workers 0 ≡ waiting
      → wake s.pipe ≡ takes v p
      → (t : System T H) × IsServed s t p
  serve_one v s p at woken =
      let holding : ℕ → Worker T = write s.workers 0 (handling v) in
      (
        _,
        record {
          reached =
              later (later here (worker_takes 0 v p (omega arith) at woken))
                (worker_handles 0 v (omega arith) refl);
          pipe_after = refl;
          waits = refl;
          same_accepted = refl;
          same_hands = λ f. ground (
            arith,
            at,
            total-write (in_hand f) max_thread_num s.workers 0 (handling v),
            total-write (in_hand f) max_thread_num holding 0 waiting,
          );
        },
      )

  -- Worker 0 has taken and finished the whole queue.
  record IsDrained (s t : System T H) : Type 0 where
    reached : Reach type mapper s t
    drained : t.pipe.data_queue ≡ []
    idel : t.pipe.state ≡ state_idel
    same_accepted : t.accepted ≡ s.accepted
    same_hands :
        (f : T → ℕ)
        → total (in_hand f) max_thread_num t.workers ≡ total (in_hand f) max_thread_num s.workers

  serve_queue :
      (l : List T) (v : T) (s : System T H)
      → s.pipe.data_queue ≡ v ∷ l
      → s.pipe.state ≡ state_ready
      → s.workers 0 ≡ waiting
      → (t : System T H) × IsDrained s t
  serve_queue [] v s q ready at =
      let p : Pipeline T = record { data_queue = []; state = state_idel } in
      let (t, served) = serve_one v s p at (take_last s.pipe v ready q) in
      (
        t,
        record {
          reached = served.reached;
          drained = ap (λ p'. p'.data_queue) served.pipe_after;
          idel = ap (λ p'. p'.state) served.pipe_after;
          same_accepted = served.same_accepted;
          same_hands = served.same_hands;
        },
      )
  serve_queue (w ∷ l) v s q ready at =
      let p : Pipeline T = record { data_queue = w ∷ l; state = state_ready } in
      let (t, served) = serve_one v s p at (take_one s.pipe v w l ready q) in
      let (u, rest) =
        serve_queue l w t (ap (λ p'. p'.data_queue) served.pipe_after)
          (ap (λ p'. p'.state) served.pipe_after) served.waits in
      (
        u,
        record {
          reached = Reach-trans served.reached rest.reached;
          drained = rest.drained;
          idel = rest.idel;
          same_accepted = rest.same_accepted ∙ served.same_accepted;
          same_hands = λ f. rest.same_hands f ∙ served.same_hands f;
        },
      )

  serve :
      (l : List T) (s : System T H)
      → s.pipe.data_queue ≡ l
      → s.pipe.state ≡ state_ready
      → s.workers 0 ≡ waiting
      → wake s.pipe ≢ faults
      → (t : System T H) × IsDrained s t
  serve [] s q ready at safe = absurd (safe (wake_empty s.pipe ready q))
  serve (v ∷ l) s q ready at safe = serve_queue l v s q ready at

  -- The thread that calls `start` and `stop` has started the pipeline and is outside both: from any
  -- state in which an item is to be taken, steps of the workers lead to one in which the queue is
  -- empty, the state IDEL, and every item that `dispatch` has accepted is finished, as often as it was
  -- accepted; the handlers called are those registered for the finished items.
  pub drains :
      {s : System T H}
      → Reach type mapper init s
      → s.control ≡ ready_to_call
      → s.pipe.state ≡ state_ready
      → (t : System T H) × Reach type mapper s t
        × (t.accepted ≡ s.accepted)
        × (t.pipe.data_queue ≡ [])
        × (t.pipe.state ≡ state_idel)
        × ((f : T → ℕ) → sum f t.finished ≡ sum f s.accepted)
        × (t.calls ≡ calls_of type mapper t.finished)
  drains {s} r at ready =
      let (t, e) = finish_hands max_thread_num s (omega arith) in
      let waits : t.workers 0 ≡ waiting =
        idle_waits (t.workers 0)
          (e.present 0 ∙ all_present type mapper 0 r at (rw ready refl) (omega arith))
          (e.empty 0 (omega arith) (λ v. 1)) in
      let reached : Reach type mapper init t = Reach-trans r e.reached in
      let (u, d) =
        serve t.pipe.data_queue t refl (ap (λ p. p.state) e.same_pipe ∙ ready) waits
          (never_faults type mapper reached) in
      let all : Reach type mapper init u = Reach-trans reached d.reached in
      let (tally, calls) = handled_once type mapper all in
      let same : u.accepted ≡ s.accepted = d.same_accepted ∙ e.same_accepted in
      let taken : u.taken ≡ s.accepted =
        sym (append-nil u.taken)
        ∙ ap (λ l. u.taken ++ l) (sym d.drained)
        ∙ queue_is_fifo type mapper all
        ∙ same in
      (
        u,
        Reach-trans e.reached d.reached,
        same,
        d.drained,
        d.idel,
        λ f. omega (
          arith,
          tally f,
          ap (sum f) taken,
          d.same_hands f,
          total-eq-zero (in_hand f) max_thread_num t.workers (λ j lt. e.empty j lt f),
        ),
        calls,
      )
