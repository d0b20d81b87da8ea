-- ===== src/TcpServer/System.antt =====
-- The two threads of the server of tcpserver/src/tcpserver.cpp, interleaved in any order. A handler
-- may write to the packet that it is given and to nothing else; `broadcast` and `getClient` change
-- nothing here.
use cpp_shared.Memory.{Heap}
use cpp_shared.PacketPool.{new}
use cpp_shared.TcpServer.{
  TcpServer, state_idel, Client, selecting, visiting, receiving, queueing, returned, select_round,
  visit, receive, queue_packet, is_terminate, store, is_positive, stamp,
}
use cpp_shared.TcpServer.Process.{takes, breaks, take_packet, give_back}
use cpp_shared.Prelude.{
  ℕ, ◌≡◌, List, [], ◌∷◌, ◌++◌, Option, none, some, Bool, true, false, if◌then◌else◌, Bytes, ℤ, pos,
  int_eq, get_elem?,
}

pub data Processor : Type 0 where
  waiting : Processor
  handling : (packet : ℕ) → Processor
  returning : (packet : ℕ) → Processor
  left : Processor

-- `queued` and `taken` record the packets that were put on the queue and taken from it. `received`
-- records the bytes of each packet at the end of its receiving, with the name of the sender in them,
-- and `handled` the bytes of each packet at the moment where `process` looks up its handler.
pub record System : Type 0 where
  pub server : TcpServer
  pub processor : Processor
  pub queued : List ℕ
  pub taken : List ℕ
  pub received : List Bytes
  pub handled : List Bytes

abbrev pub no_packets : Heap
no_packets = record { next = 0; sizes = λ p. none }

-- A server whose `start` has come to the loop of `run`, over the descriptor `fd`.
unfoldable pub started : ℤ → ℤ → System
started count fd = record {
  server = record {
    fd = fd;
    is_running = true;
    clients = [];
    state = state_idel;
    data_queue = [];
    object_pool = new count no_packets (λ p. []);
    fdset = λ g. int_eq g fd;
    fdset_ = λ g. false;
    max_fd = fd;
    receiver = selecting;
    lost = [];
  };
  processor = waiting;
  queued = [];
  taken = [];
  received = [];
  handled = [];
}

-- What a call of `recv` adds to the bytes received.
abbrev pub arrived_from : ℤ → Bytes → Option (Bytes × Client) → List Bytes
arrived_from len b none = []
arrived_from len b (some (key, c)) = if is_positive len then stamp c.name b ∷ [] else []

abbrev pub arrived : ℤ → Bytes → ℕ → TcpServer → List Bytes
arrived len b i s = arrived_from len b (get_elem? s.clients i)

abbrev pub after_receive : ℤ → Bytes → ℕ → ℕ → System → System
after_receive len b i packet s = record s {
  server = receive len b i packet s.server;
  received = s.received ++ arrived len b i s.server;
}

-- `b` is what the handler leaves in its packet. A handler is taken to write to that packet only, which
-- the one that is registered does not keep to: TcpServer/Show.antt has its write past the end.
abbrev pub after_handler : ℕ → Bytes → System → System
after_handler packet b s = record s {
  server = record (s.server) { object_pool = store packet b s.server.object_pool };
  processor = returning packet;
  handled = s.handled ++ (s.server.object_pool.contents packet ∷ []);
}

pub data Step (s : System) : System → Type 0 where
  selects :
      (num : ℤ) (ready : ℤ → Bool) (accepted : Option Client)
      → s.server.receiver ≡ selecting
      → s.server.is_running ≡ true
      → Step s (record s { server = select_round num ready accepted s.server })
  receiver_returns :
      s.server.receiver ≡ selecting
      → s.server.is_running ≡ false
      → Step s (record s { server = record (s.server) { receiver = returned (pos 0) } })
  visits :
      (i : ℕ) (t : TcpServer)
      → s.server.receiver ≡ visiting i
      → visit i s.server ≡ some t
      → Step s (record s { server = t })
  receives :
      (i packet : ℕ) (len : ℤ) (b : Bytes)
      → s.server.receiver ≡ receiving i packet
      → Step s (after_receive len b i packet s)
  queues :
      (i packet : ℕ)
      → s.server.receiver ≡ queueing i packet
      → Step s (record s {
        server = queue_packet i packet s.server;
        queued = if is_terminate s.server.state then s.queued else s.queued ++ (packet ∷ []);
      })
  processor_takes :
      (packet : ℕ) (t : TcpServer)
      → s.processor ≡ waiting
      → take_packet s.server ≡ takes packet t
      → Step s
          (record s { server = t; processor = handling packet; taken = s.taken ++ (packet ∷ []) })
  processor_breaks :
      (t : TcpServer)
      → s.processor ≡ waiting
      → take_packet s.server ≡ breaks t
      → Step s (record s { server = t; processor = left })
  processor_handles :
      (packet : ℕ) (b : Bytes) → s.processor ≡ handling packet → Step s (after_handler packet b s)
  processor_gives_back :
      (packet : ℕ) (t : TcpServer)
      → s.processor ≡ returning packet
      → give_back packet s.server ≡ some t
      → Step s (record s { server = t; processor = waiting })
  processor_leaves :
      s.processor ≡ waiting → s.server.is_running ≡ false → Step s (record s { processor = left })
  stops : Step s (record s { server = record (s.server) { is_running = false } })

pub data Reach (s : System) : System → Type 0 where
  here : Reach s s
  later : {t u : System} → Reach s t → Step t u → Reach s u
