-- ===== src/TcpServer/Safety.antt =====
-- What becomes of the packets of the server of tcpserver/src/tcpserver.cpp in every interleaving.
use cpp_shared.Memory.Addresses.{count, is_live}
use cpp_shared.PacketPool.{ObjectPool, get, push}
use cpp_shared.TcpServer.{
  TcpServer, Client, receiving, select_round, visit, receive, queue_packet, is_positive,
}
use cpp_shared.TcpServer.Process.{takes, take_packet, give_back}
use cpp_shared.TcpServer.System.{
  Processor, waiting, handling, left, returning, System, started, Step, selects, receiver_returns,
  visits, receives, queues, processor_takes, processor_breaks, processor_handles,
  processor_gives_back, processor_leaves, stops, after_receive, Reach, here, later,
}
use cpp_shared.TcpServer.Order.{IsQueueing, Reach-IsQueueing, never_breaks}
use cpp_shared.TcpServer.Accounting.{
  receiver_hand, processor_hand, places, IsAccounted, selects-IsAccounted, visits-IsAccounted,
  receives-IsAccounted, queues-IsAccounted, takes-IsAccounted, gives_back-IsAccounted,
  handles-IsAccounted, started-IsAccounted,
}
use cpp_shared.Prelude.{
  ℕ, ◌+◌, ◌≤◌, ◌<◌, ◌≡◌, ◌≢◌, refl, List, [], ◌∷◌, Option, none, some, Bool, false, Bytes, ℤ, arith,
  get_elem?,
}

Step-IsAccounted : {s t : System} → Step s t → IsQueueing s → IsAccounted s → IsAccounted t
Step-IsAccounted {s} (selects num ready accepted at on) q a =
    selects-IsAccounted s num ready accepted at a
Step-IsAccounted {s} (receiver_returns at off) q a = record {
  unused = a.unused;
  placed = λ p. ground (arith, a.placed p);
}
Step-IsAccounted {s} (visits i t at e) q a = visits-IsAccounted s i t at e a
Step-IsAccounted {s} (receives i packet len b at) q a = receives-IsAccounted s i packet len b _ at a
Step-IsAccounted {s} (queues i packet at) q a = queues-IsAccounted s i packet _ at a
Step-IsAccounted {s} (processor_takes packet t at e) q a = takes-IsAccounted s packet t _ at e a
Step-IsAccounted {s} (processor_breaks t at e) q a =
    absurd (never_breaks s.server t q.unterminated e)
Step-IsAccounted {s} (processor_handles packet b at) q a = handles-IsAccounted s packet b _ at a
Step-IsAccounted {s} (processor_gives_back packet t at e) q a =
    gives_back-IsAccounted s packet t at e a
Step-IsAccounted {s} (processor_leaves at off) q a = record {
  unused = a.unused;
  placed = λ p. ground (arith, a.placed p);
}
Step-IsAccounted {s} stops q a = record { unused = a.unused; placed = a.placed }

pub Reach-IsAccounted : (count_ fd : ℤ) {s : System} → Reach (started count_ fd) s → IsAccounted s
Reach-IsAccounted count_ fd here = started-IsAccounted count_ fd
Reach-IsAccounted count_ fd (later r st) =
    Step-IsAccounted st (Reach-IsQueueing count_ fd r) (Reach-IsAccounted count_ fd r)

-- In every reachable state a packet that `new` has made and `delete` has not deleted is in one place
-- exactly, the pool, the queue, the hand of one of the two threads or among those that are lost, and
-- an address that is not live is in none.
pub packets_accounted :
    (count_ fd : ℤ) {s : System} (p : ℕ)
    → Reach (started count_ fd) s
    → is_live (s.server.object_pool.heap.sizes p)
      ≡ count p s.server.object_pool.pool
        + count p s.server.data_queue
        + count p (receiver_hand s.server.receiver)
        + count p (processor_hand s.processor)
        + count p s.server.lost
packets_accounted count_ fd p r = (Reach-IsAccounted count_ fd r).placed p

get_defined_at :
    (p : ObjectPool) (l : List ℕ)
    → p.pool ≡ l
    → ((q : ℕ) → count q l ≤ is_live (p.heap.sizes q))
    → get p ≢ none
unfolding get
get_defined_at p [] same h e = ground arith
get_defined_at p (o ∷ l) same h e = ground (arith, h o)

push_defined : (p : ObjectPool) (o : ℕ) → is_live (p.heap.sizes o) ≡ 1 → push (some o) p ≢ none
unfolding push
push_defined p o h e = ground arith

-- The packet in the hand of the thread in `process` can be pushed.
abbrev pub CanGiveBack : TcpServer → Processor → Type 0
CanGiveBack s (handling packet) = give_back packet s ≢ none
CanGiveBack s (returning packet) = give_back packet s ≢ none
CanGiveBack s waiting = Unit {0}
CanGiveBack s left = Unit {0}

can_give_back :
    (packet : ℕ) (s : System)
    → IsAccounted s
    → 0 < count packet (processor_hand s.processor)
    → give_back packet s.server ≢ none
unfolding give_back
can_give_back packet s a held e =
    let live : is_live (s.server.object_pool.heap.sizes packet) ≡ 1 =
      ground (arith, a.placed packet) in
    push_defined s.server.object_pool packet live (ground arith)

hand-CanGiveBack :
    (s : System) (p : Processor) → IsAccounted s → s.processor ≡ p → CanGiveBack s.server p
hand-CanGiveBack s waiting a at = tt
hand-CanGiveBack s (handling packet) a at = can_give_back packet s a (ground arith)
hand-CanGiveBack s (returning packet) a at = can_give_back packet s a (ground arith)
hand-CanGiveBack s left a at = tt

-- In every reachable state the pool can be asked for a packet, and where the thread in `process` has
-- a packet, handled or not, it can push it, without touching one that is not live.
pub pool_never_faults :
    (count_ fd : ℤ) {s : System}
    → Reach (started count_ fd) s
    → (get s.server.object_pool ≢ none) × CanGiveBack s.server s.processor
pool_never_faults count_ fd {s} r =
    let a : IsAccounted s = Reach-IsAccounted count_ fd r in
    (
      get_defined_at s.server.object_pool _ refl (λ q. omega (arith, a.placed q)),
      hand-CanGiveBack s s.processor a refl,
    )

-- The same where the packet is handled.
pub returning_never_faults :
    (count_ fd : ℤ) {s : System} (packet : ℕ)
    → Reach (started count_ fd) s
    → s.processor ≡ returning packet
    → give_back packet s.server ≢ none
returning_never_faults count_ fd {s} packet r at =
    hand-CanGiveBack s (returning packet) (Reach-IsAccounted count_ fd r) at

visit_lost : (i : ℕ) (s t : TcpServer) → visit i s ≡ some t → t.lost ≡ s.lost
unfolding visit
visit_lost i s t e = ground arith

select_round_lost :
    (num : ℤ) (ready : ℤ → Bool) (accepted : Option Client) (s : TcpServer)
    → (select_round num ready accepted s).lost ≡ s.lost
unfolding select_round
select_round_lost num ready accepted s = ground arith

receive_lost :
    (p i packet : ℕ) (len : ℤ) (b : Bytes) (s : TcpServer)
    → count p s.lost ≤ count p ((receive len b i packet s).lost)
unfolding receive
receive_lost p i packet len b s = ground arith

queue_lost :
    (p i packet : ℕ) (s : TcpServer) → count p s.lost ≤ count p ((queue_packet i packet s).lost)
unfolding queue_packet
queue_lost p i packet s = ground arith

take_lost : (s t : TcpServer) (packet : ℕ) → take_packet s ≡ takes packet t → t.lost ≡ s.lost
unfolding take_packet
take_lost s t packet e = ground arith

give_back_lost : (s t : TcpServer) (packet : ℕ) → give_back packet s ≡ some t → t.lost ≡ s.lost
unfolding give_back
give_back_lost s t packet e = ground arith

Step-lost :
    {s t : System} (p : ℕ) → Step s t → IsQueueing s → count p s.server.lost ≤ count p t.server.lost
Step-lost {s} p (selects num ready accepted at on) q =
    rw (select_round_lost num ready accepted s.server) (omega arith)
Step-lost {s} p (receiver_returns at off) q = omega arith
Step-lost {s} p (visits i t at e) q = rw (visit_lost i s.server t e) (omega arith)
Step-lost {s} p (receives i packet len b at) q = receive_lost p i packet len b s.server
Step-lost {s} p (queues i packet at) q = queue_lost p i packet s.server
Step-lost {s} p (processor_takes packet t at e) q = rw (take_lost s.server t packet e) (omega arith)
Step-lost {s} p (processor_breaks t at e) q = absurd (never_breaks s.server t q.unterminated e)
Step-lost {s} p (processor_handles packet b at) q = omega arith
Step-lost {s} p (processor_gives_back packet t at e) q =
    rw (give_back_lost s.server t packet e) (omega arith)
Step-lost {s} p (processor_leaves at off) q = omega arith
Step-lost {s} p stops q = omega arith

pub Reach-trans : {s t u : System} → Reach s t → Reach t u → Reach s u
Reach-trans r here = r
Reach-trans r (later more st) = later (Reach-trans r more) st

Reach-lost :
    (count_ fd : ℤ) {s t : System} (p : ℕ)
    → Reach (started count_ fd) s
    → Reach s t
    → count p s.server.lost ≤ count p t.server.lost
Reach-lost count_ fd p r here = omega arith
Reach-lost count_ fd p r (later more st) = omega (
  arith,
  Reach-lost count_ fd p r more,
  Step-lost p st (Reach-IsQueueing count_ fd (Reach-trans r more)),
)

-- A packet whose `recv` fails or ends is never deleted and never reused: in every later state it is
-- live, and in neither the pool, the queue nor a hand.
pub failed_receive_leaks :
    (count_ fd : ℤ) {s t : System} (i packet : ℕ) (len : ℤ) (b : Bytes) (client : Bytes × Client)
    → Reach (started count_ fd) s
    → s.server.receiver ≡ receiving i packet
    → get_elem? s.server.clients i ≡ some client
    → is_positive len ≡ false
    → Reach (after_receive len b i packet s) t
    → (is_live (t.server.object_pool.heap.sizes packet) ≡ 1)
      × (count packet t.server.object_pool.pool ≡ 0)
      × (count packet t.server.data_queue ≡ 0)
      × (count packet (receiver_hand t.server.receiver) ≡ 0)
      × (count packet (processor_hand t.processor) ≡ 0)
unfolding receive
failed_receive_leaks count_ fd {s} {t} i packet len b (key, c) r at there failed more =
    let first : Reach (started count_ fd) (after_receive len b i packet s) =
      later r (receives i packet len b at) in
    let lost : 0 < count packet ((receive len b i packet s.server).lost) = ground arith in
    let still : count packet ((receive len b i packet s.server).lost) ≤ count packet t.server.lost =
      Reach-lost count_ fd packet first more in
    let whole : is_live (t.server.object_pool.heap.sizes packet) ≡ places packet t =
      packets_accounted count_ fd packet (Reach-trans first more) in
    ground arith
