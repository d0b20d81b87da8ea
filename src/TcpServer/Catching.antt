-- ===== src/TcpServer/Catching.antt =====
-- That the thread in `process` of tcpserver/src/tcpserver.cpp can catch up with what is received.
use cpp_shared.TcpServer.{TcpServer, selecting, state_dataready}
use cpp_shared.TcpServer.Process.{takes, take_packet, give_back, pop_queue}
use cpp_shared.TcpServer.System.{
  Processor, waiting, handling, returning, left, System, started, Step, processor_takes,
  processor_handles, processor_gives_back, after_handler, Reach, here, later,
}
use cpp_shared.TcpServer.Safety.{returning_never_faults, Reach-trans}
use cpp_shared.TcpServer.Carrying.{gives_back_keeps}
use cpp_shared.TcpServer.Contents.{messages_intact}
use cpp_shared.TcpServer.Serving.{Reach-IsAwake}
use cpp_shared.Prelude.{
  ℕ, ◌≡◌, ◌≢◌, refl, sym, ◌∙◌, List, [], ◌∷◌, ◌++◌, append-nil, true, ℤ, arith, Option-cases, inl,
  inr,
}

-- The thread in `process` has come to the head of its loop, with `l` in the queue.
record IsRound (s t : System) (l : List ℕ) : Type 0 where
  reached : Reach s t
  waits : t.processor ≡ waiting
  queued_then : t.server.data_queue ≡ l
  same_receiver : t.server.receiver ≡ s.server.receiver
  same_received : t.received ≡ s.received

gives_back-IsRound :
    (count_ fd : ℤ) (s : System) (packet : ℕ)
    → Reach (started count_ fd) s
    → s.processor ≡ returning packet
    → (t : System) × IsRound s t s.server.data_queue
gives_back-IsRound count_ fd s packet r at = elim (Option-cases (give_back packet s.server)) [
  | inl stuck ↦ absurd (returning_never_faults count_ fd packet r at stuck)
  | inr (t, e) ↦
      let (queue, receiver, contents) = gives_back_keeps packet s.server t e in
      (
        _,
        record {
          reached = later here (processor_gives_back packet t at e);
          waits = refl;
          queued_then = queue;
          same_receiver = receiver;
          same_received = refl;
        },
      )
]

handles-IsRound :
    (count_ fd : ℤ) (s : System) (packet : ℕ)
    → Reach (started count_ fd) s
    → s.processor ≡ handling packet
    → (t : System) × IsRound s t s.server.data_queue
handles-IsRound count_ fd s packet r at =
    let handled_ : Step s (after_handler packet [] s) = processor_handles packet [] at in
    let (t, e) =
      gives_back-IsRound count_ fd (after_handler packet [] s) packet (later r handled_) refl in
    (
      t,
      record {
        reached = Reach-trans (later here handled_) e.reached;
        waits = e.waits;
        queued_then = e.queued_then;
        same_receiver = e.same_receiver;
        same_received = e.same_received;
      },
    )

finishes-IsRound :
    (count_ fd : ℤ) (s : System) (p : Processor)
    → Reach (started count_ fd) s
    → s.processor ≡ p
    → p ≢ left
    → (t : System) × IsRound s t s.server.data_queue
finishes-IsRound count_ fd s waiting r at there = (
  s,
  record {
    reached = here;
    waits = at;
    queued_then = refl;
    same_receiver = refl;
    same_received = refl;
  },
)
finishes-IsRound count_ fd s (handling packet) r at there = handles-IsRound count_ fd s packet r at
finishes-IsRound count_ fd s (returning packet) r at there =
    gives_back-IsRound count_ fd s packet r at
finishes-IsRound count_ fd s left r at there = absurd (there refl)

take_front_of :
    (s : TcpServer) (packet : ℕ) (l : List ℕ)
    → s.state ≡ state_dataready
    → s.data_queue ≡ packet ∷ l
    → take_packet s ≡ takes packet (pop_queue l s)
unfolding take_packet
take_front_of s packet [] ready front = ground arith
take_front_of s packet (p ∷ l) ready front = ground arith

pop_queue_lem :
    (l : List ℕ) (s : TcpServer)
    → ((pop_queue l s).data_queue ≡ l) × ((pop_queue l s).receiver ≡ s.receiver)
pop_queue_lem [] s = (refl, refl)
pop_queue_lem (p ∷ l) s = (refl, refl)

serves_all :
    (count_ fd : ℤ) (s : System) (l : List ℕ)
    → Reach (started count_ fd) s
    → s.processor ≡ waiting
    → s.server.data_queue ≡ l
    → (t : System) × IsRound s t []
serves_all count_ fd s [] r at none_ = (
  s,
  record {
    reached = here;
    waits = at;
    queued_then = none_;
    same_receiver = refl;
    same_received = refl;
  },
)
serves_all count_ fd s (packet ∷ l) r at front =
    let ready : s.server.state ≡ state_dataready =
      (Reach-IsAwake count_ fd r).awake packet l front in
    let taken_ : System = record s {
      server = pop_queue l s.server;
      processor = handling packet;
      taken = s.taken ++ (packet ∷ []);
    } in
    let took : Step s taken_ =
      processor_takes packet (pop_queue l s.server) at
        (take_front_of s.server packet l ready front) in
    let (queue, receiver) = pop_queue_lem l s.server in
    let (t, one) = handles-IsRound count_ fd taken_ packet (later r took) refl in
    let first : Reach s t = Reach-trans (later here took) one.reached in
    let (u, rest) =
      serves_all count_ fd t l (Reach-trans r first) one.waits (one.queued_then ∙ queue) in
    (
      u,
      record {
        reached = Reach-trans first rest.reached;
        waits = rest.waits;
        queued_then = rest.queued_then;
        same_receiver = rest.same_receiver ∙ one.same_receiver ∙ receiver;
        same_received = rest.same_received ∙ one.same_received;
      },
    )

-- While the server runs and `run` is in its call of `select`, a state is in reach in which nothing
-- more was received, the thread in `process` waits, the queue is empty, and the bytes of every packet
-- that was received, with the name of its sender, have gone to the look-up of their handler, in the
-- order in which they came.
pub catches_up :
    (count_ fd : ℤ) {s : System}
    → Reach (started count_ fd) s
    → s.server.is_running ≡ true
    → s.server.receiver ≡ selecting
    → (t : System) × Reach s t
      × (t.processor ≡ waiting)
      × (t.server.data_queue ≡ [])
      × (t.received ≡ s.received)
      × (t.handled ≡ s.received)
catches_up count_ fd {s} r on at =
    let (t, one) =
      finishes-IsRound count_ fd s s.processor r refl ((Reach-IsAwake count_ fd r).stays on) in
    let (u, all) =
      serves_all count_ fd t t.server.data_queue (Reach-trans r one.reached) one.waits refl in
    let reached : Reach s u = Reach-trans one.reached all.reached in
    let received_ : u.received ≡ s.received = all.same_received ∙ one.same_received in
    let receiver : u.server.receiver ≡ selecting = all.same_receiver ∙ one.same_receiver ∙ at in
    let whole : u.received ≡ u.handled =
      messages_intact count_ fd (Reach-trans r reached)
      ∙ rw (all.waits, all.queued_then, receiver) (append-nil u.handled) in
    (u, reached, all.waits, all.queued_then, received_, sym whole ∙ received_)
