-- ===== src/TcpServer/Order.antt =====
-- The queue and the state of the server of tcpserver/src/tcpserver.cpp in every interleaving.
use cpp_shared.TcpServer.{
  TcpServer, state_dataready, state_terminate, Client, select_round, visit, receive, queue_packet,
  is_terminate,
}
use cpp_shared.TcpServer.Process.{takes, breaks, undefined, take_packet, give_back}
use cpp_shared.TcpServer.System.{
  Processor, waiting, handling, returning, left, System, started, Step, selects, receiver_returns,
  visits, receives, queues, processor_takes, processor_breaks, processor_handles,
  processor_gives_back, processor_leaves, stops, Reach, here, later,
}
use cpp_shared.Prelude.{
  ℕ, ◌≡◌, ◌≢◌, refl, sym, ap, ◌∙◌, List, [], ◌∷◌, ◌++◌, append_assoc, Option, some, Bool, false,
  if◌then◌else◌, Bytes, ℤ, arith,
}

-- STATE_TERMINATE is never reached, the state is DATAREADY only while the queue has packets, and the
-- queue is what was put on it and not yet taken.
pub record IsQueueing (s : System) : Type 0 where
  pub unterminated : s.server.state ≢ state_terminate
  pub filled : s.server.state ≡ state_dataready → s.server.data_queue ≢ []
  pub fifo : s.taken ++ s.server.data_queue ≡ s.queued

-- What of a server this is about does not change.
abbrev Keeps : TcpServer → TcpServer → Type 0
Keeps s t = (t.state ≡ s.state) × (t.data_queue ≡ s.data_queue)

selects-Keeps :
    (num : ℤ) (ready : ℤ → Bool) (accepted : Option Client) (s : TcpServer)
    → Keeps s (select_round num ready accepted s)
unfolding select_round
selects-Keeps num ready accepted s = ground arith

visits-Keeps : (i : ℕ) (s t : TcpServer) → visit i s ≡ some t → Keeps s t
unfolding visit
visits-Keeps i s t e = ground arith

receives-Keeps :
    (i packet : ℕ) (len : ℤ) (b : Bytes) (s : TcpServer) → Keeps s (receive len b i packet s)
unfolding receive
receives-Keeps i packet len b s = ground arith

gives_back-Keeps : (packet : ℕ) (s t : TcpServer) → give_back packet s ≡ some t → Keeps s t
unfolding give_back
gives_back-Keeps packet s t e = ground arith

Keeps-IsQueueing :
    (s : System) (t : TcpServer) (p : Processor) (received handled : List Bytes)
    → Keeps s.server t
    → IsQueueing s
    → IsQueueing (record s { server = t; processor = p; received = received; handled = handled })
Keeps-IsQueueing s t p received handled k q = record {
  unterminated = λ e. q.unterminated (ground arith);
  filled = λ e f. q.filled (ground arith) (ground arith);
  fifo = rw (k.1) q.fifo;
}

append-ne-nil : {T : Type 0} (l : List T) (v : T) → l ++ (v ∷ []) ≢ []
append-ne-nil [] v e = cc
append-ne-nil (x ∷ l) v e = cc

queues-IsQueueing :
    (s : System) (i packet : ℕ)
    → IsQueueing s
    → IsQueueing (record s {
      server = queue_packet i packet s.server;
      queued = if is_terminate s.server.state then s.queued else s.queued ++ (packet ∷ []);
    })
unfolding queue_packet
queues-IsQueueing s i packet q =
    let open_ : is_terminate s.server.state ≡ false = ground (arith, q.unterminated) in
    rw open_ (record {
      unterminated = λ e. cc;
      filled = λ e. append-ne-nil s.server.data_queue packet;
      fifo =
          sym (append_assoc s.taken s.server.data_queue (packet ∷ []))
          ∙ ap (λ l. l ++ (packet ∷ [])) q.fifo;
    })

takes_front :
    (s t : TcpServer) (packet : ℕ)
    → take_packet s ≡ takes packet t
    → s.state ≢ state_terminate
    → (s.data_queue ≡ packet ∷ t.data_queue)
      × (t.state ≢ state_terminate)
      × (t.state ≡ state_dataready → t.data_queue ≢ [])
unfolding take_packet
takes_front s t packet e never = ground arith

takes-IsQueueing :
    (s : System) (packet : ℕ) (t : TcpServer)
    → take_packet s.server ≡ takes packet t
    → IsQueueing s
    → IsQueueing
        (record s { server = t; processor = handling packet; taken = s.taken ++ (packet ∷ []) })
takes-IsQueueing s packet t e q =
    let (front, open_, more) = takes_front s.server t packet e q.unterminated in
    record {
      unterminated = open_;
      filled = more;
      fifo =
          append_assoc s.taken (packet ∷ []) t.data_queue
          ∙ ap (λ l. s.taken ++ l) (sym front)
          ∙ q.fifo;
    }

pub never_breaks : (s t : TcpServer) → s.state ≢ state_terminate → take_packet s ≢ breaks t
unfolding take_packet
never_breaks s t never e = ground arith

Step-IsQueueing : {s t : System} → Step s t → IsQueueing s → IsQueueing t
Step-IsQueueing {s} (selects num ready accepted at on) q =
    Keeps-IsQueueing s _ s.processor _ _ (selects-Keeps num ready accepted s.server) q
Step-IsQueueing {s} (receiver_returns at off) q =
    Keeps-IsQueueing s _ s.processor _ _ (refl, refl) q
Step-IsQueueing {s} (visits i t at e) q =
    Keeps-IsQueueing s _ s.processor _ _ (visits-Keeps i s.server t e) q
Step-IsQueueing {s} (receives i packet len b at) q =
    Keeps-IsQueueing s _ s.processor _ _ (receives-Keeps i packet len b s.server) q
Step-IsQueueing {s} (queues i packet at) q = queues-IsQueueing s i packet q
Step-IsQueueing {s} (processor_takes packet t at e) q = takes-IsQueueing s packet t e q
Step-IsQueueing {s} (processor_breaks t at e) q = absurd (never_breaks s.server t q.unterminated e)
Step-IsQueueing {s} (processor_handles packet b at) q =
    Keeps-IsQueueing s _ (returning packet) _ _ (refl, refl) q
Step-IsQueueing {s} (processor_gives_back packet t at e) q =
    Keeps-IsQueueing s t waiting _ _ (gives_back-Keeps packet s.server t e) q
Step-IsQueueing {s} (processor_leaves at off) q = Keeps-IsQueueing s _ left _ _ (refl, refl) q
Step-IsQueueing {s} stops q = Keeps-IsQueueing s _ s.processor _ _ (refl, refl) q

started-IsQueueing : (count fd : ℤ) → IsQueueing (started count fd)
unfolding started
started-IsQueueing count fd = record { unterminated = λ e. cc; filled = λ e. cc; fifo = refl }

pub Reach-IsQueueing : (count fd : ℤ) {s : System} → Reach (started count fd) s → IsQueueing s
Reach-IsQueueing count fd here = started-IsQueueing count fd
Reach-IsQueueing count fd (later r st) = Step-IsQueueing st (Reach-IsQueueing count fd r)

-- In every reachable state of the server the packets taken by the thread in `process`, followed by
-- those that are queued, are the packets that `run` queued, in their order.
packets_in_order :
    (count fd : ℤ) {s : System}
    → Reach (started count fd) s
    → s.taken ++ s.server.data_queue ≡ s.queued
packets_in_order count fd r = (Reach-IsQueueing count fd r).fifo

-- The thread in `process` never takes the front of an empty queue, and it never leaves its loop by
-- the `break`: STATE_TERMINATE, which is tested there and by `run`, is never set.
pub take_never_faults :
    (count fd : ℤ) {s : System} (t : TcpServer)
    → Reach (started count fd) s
    → (take_packet s.server ≢ undefined)
      × (take_packet s.server ≢ breaks t)
      × (s.server.state ≢ state_terminate)
unfolding take_packet
take_never_faults count fd {s} t r =
    let q : IsQueueing s = Reach-IsQueueing count fd r in
    (
      λ e. ground (arith, q.unterminated, q.filled),
      never_breaks s.server t q.unterminated,
      q.unterminated,
    )
