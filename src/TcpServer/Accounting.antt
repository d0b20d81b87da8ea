-- ===== src/TcpServer/Accounting.antt =====
-- Where the packets of the server of tcpserver/src/tcpserver.cpp are.
use cpp_shared.Memory.{Heap}
use cpp_shared.Memory.Addresses.{count, count-append, is_live}
use cpp_shared.PacketPool.{ObjectPool, get, push}
use cpp_shared.TcpServer.{
  TcpServer, Client, Receiver, selecting, visiting, receiving, queueing, select_round, visit,
  receive, queue_packet, store,
}
use cpp_shared.TcpServer.Process.{takes, take_packet, give_back}
use cpp_shared.TcpServer.System.{Processor, waiting, handling, returning, System, started}
use cpp_shared.Prelude.{
  ℕ, ◌+◌, ◌≤◌, ◌≡◌, refl, List, [], ◌∷◌, Option, none, some, Bool, Bytes, ℤ, arith, Option-cases,
  inl, inr,
}

-- The packets that the thread in `run` holds, and those that the thread in `process` holds.
abbrev pub receiver_hand : Receiver → List ℕ
receiver_hand (receiving i packet) = packet ∷ []
receiver_hand (queueing i packet) = packet ∷ []
receiver_hand _ = []

abbrev pub processor_hand : Processor → List ℕ
processor_hand (handling packet) = packet ∷ []
processor_hand (returning packet) = packet ∷ []
processor_hand _ = []

abbrev pub places : ℕ → System → ℕ
places p s =
    count p s.server.object_pool.pool
    + count p s.server.data_queue
    + count p (receiver_hand s.server.receiver)
    + count p (processor_hand s.processor)
    + count p s.server.lost

abbrev pub IsFresh : Heap → Type 0
IsFresh h = (p : ℕ) → h.next ≤ p → h.sizes p ≡ none

pub record IsAccounted (s : System) : Type 0 where
  pub unused : IsFresh s.server.object_pool.heap
  pub placed : (p : ℕ) → is_live (s.server.object_pool.heap.sizes p) ≡ places p s

get_accounts :
    (p p' : ObjectPool) (o q : ℕ)
    → IsFresh p.heap
    → get p ≡ some (o, p')
    → is_live (p'.heap.sizes q) + count q p.pool
      ≡ is_live (p.heap.sizes q) + count q p'.pool + count q (o ∷ [])
unfolding get
get_accounts p p' o q f e = ground (arith, f q)

get-IsFresh : (p p' : ObjectPool) (o : ℕ) → IsFresh p.heap → get p ≡ some (o, p') → IsFresh p'.heap
unfolding get
get-IsFresh p p' o f e q h = ground (arith, f q)

push_accounts :
    (p p' : ObjectPool) (o q : ℕ) (o' : Option ℕ)
    → push (some o) p ≡ some (o', p')
    → is_live (p'.heap.sizes q) + count q p.pool + count q (o ∷ [])
      ≡ is_live (p.heap.sizes q) + count q p'.pool
unfolding push
push_accounts p p' o q o' e = ground (arith, count-append q p.pool (o ∷ []))

push-IsFresh :
    (p p' : ObjectPool) (o : ℕ) (o' : Option ℕ)
    → IsFresh p.heap
    → push (some o) p ≡ some (o', p')
    → IsFresh p'.heap
unfolding push
push-IsFresh p p' o o' f e q h = ground (arith, f q)

pub selects-IsAccounted :
    (s : System) (num : ℤ) (ready : ℤ → Bool) (accepted : Option Client)
    → s.server.receiver ≡ selecting
    → IsAccounted s
    → IsAccounted (record s { server = select_round num ready accepted s.server })
unfolding select_round
selects-IsAccounted s num ready accepted at a = record {
  unused = λ p h. ground (arith, a.unused p);
  placed = λ p. ground (arith, a.placed p);
}

pub visits-IsAccounted :
    (s : System) (i : ℕ) (t : TcpServer)
    → s.server.receiver ≡ visiting i
    → visit i s.server ≡ some t
    → IsAccounted s
    → IsAccounted (record s { server = t })
unfolding visit
visits-IsAccounted s i t at e a = elim (Option-cases (get s.server.object_pool)) [
  | inl stuck ↦ record {
    unused = λ p h. ground (arith, a.unused p);
    placed = λ p. ground (arith, a.placed p);
  }
  | inr ((o, pool), got) ↦ record {
    unused =
        λ p h. ground (arith, a.unused p, get-IsFresh s.server.object_pool pool o a.unused got p);
    placed =
        λ p. ground (arith, a.placed p, get_accounts s.server.object_pool pool o p a.unused got);
  }
]

pub receives-IsAccounted :
    (s : System) (i packet : ℕ) (len : ℤ) (b : Bytes) (l : List Bytes)
    → s.server.receiver ≡ receiving i packet
    → IsAccounted s
    → IsAccounted (record s { server = receive len b i packet s.server; received = l })
unfolding receive
receives-IsAccounted s i packet len b l at a = record {
  unused = λ p h. ground (arith, a.unused p);
  placed = λ p. ground (arith, a.placed p);
}

pub queues-IsAccounted :
    (s : System) (i packet : ℕ) (l : List ℕ)
    → s.server.receiver ≡ queueing i packet
    → IsAccounted s
    → IsAccounted (record s { server = queue_packet i packet s.server; queued = l })
unfolding queue_packet
queues-IsAccounted s i packet l at a = record {
  unused = λ p h. ground (arith, a.unused p);
  placed = λ p. ground (arith, a.placed p, count-append p s.server.data_queue (packet ∷ []));
}

pub takes-IsAccounted :
    (s : System) (packet : ℕ) (t : TcpServer) (l : List ℕ)
    → s.processor ≡ waiting
    → take_packet s.server ≡ takes packet t
    → IsAccounted s
    → IsAccounted (record s { server = t; processor = handling packet; taken = l })
unfolding take_packet
takes-IsAccounted s packet t l at e a = record {
  unused = λ p h. ground (arith, a.unused p);
  placed = λ p. ground (arith, a.placed p);
}

pub gives_back-IsAccounted :
    (s : System) (packet : ℕ) (t : TcpServer)
    → s.processor ≡ returning packet
    → give_back packet s.server ≡ some t
    → IsAccounted s
    → IsAccounted (record s { server = t; processor = waiting })
unfolding give_back
gives_back-IsAccounted s packet t at e a =
    elim (Option-cases (push (some packet) s.server.object_pool)) [
      | inl stuck ↦ ground arith
      | inr ((o, pool), kept) ↦ record {
        unused =
            λ p h. ground (arith, push-IsFresh s.server.object_pool pool packet o a.unused kept p);
        placed = λ p.
            ground (arith, a.placed p, push_accounts s.server.object_pool pool packet p o kept);
      }
    ]

pub handles-IsAccounted :
    (s : System) (packet : ℕ) (b : Bytes) (l : List Bytes)
    → s.processor ≡ handling packet
    → IsAccounted s
    → IsAccounted (record s {
      server = record (s.server) { object_pool = store packet b s.server.object_pool };
      processor = returning packet;
      handled = l;
    })
handles-IsAccounted s packet b l at a = record {
  unused = λ p h. a.unused p h;
  placed = λ p. ground (arith, a.placed p);
}

pub started-IsAccounted : (count_ fd : ℤ) → IsAccounted (started count_ fd)
unfolding started
started-IsAccounted count_ fd = record { unused = λ p h. refl; placed = λ p. refl }
