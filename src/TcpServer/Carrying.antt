-- ===== src/TcpServer/Carrying.antt =====
-- The packets of the server of tcpserver/src/tcpserver.cpp that are on their way from `recv` to a
-- handler, and what writes to none of them.
use cpp_shared.Memory.Addresses.{count, count-append, is_live}
use cpp_shared.PacketPool.{ObjectPool, get, push}
use cpp_shared.TcpServer.{
  TcpServer, Client, Receiver, selecting, visiting, queueing, select_round, visit, state_terminate,
}
use cpp_shared.TcpServer.Process.{takes, take_packet, give_back}
use cpp_shared.TcpServer.System.{Processor, handling, System}
use cpp_shared.TcpServer.Accounting.{receiver_hand, IsAccounted, IsFresh}
use cpp_shared.Prelude.{
  ℕ, ◌+◌, ◌≡◌, ◌≢◌, refl, ap, ◌∙◌, List, [], ◌∷◌, ◌++◌, Option, some, Bool, Bytes, ℤ, arith,
  Option-cases, inl, inr, map,
}

-- The bytes of the packet that is in the hand of `run` after its receiving, and of the one for which
-- `process` has not yet looked up the handler.
abbrev pub unqueued : Receiver → List ℕ
unqueued (queueing i packet) = packet ∷ []
unqueued _ = []

abbrev pub unhandled : Processor → List ℕ
unhandled (handling packet) = packet ∷ []
unhandled _ = []

abbrev pub under_way : System → List ℕ
under_way s = unhandled s.processor ++ (s.server.data_queue ++ unqueued s.server.receiver)

pub record IsIntact (s : System) : Type 0 where
  pub intact : s.received ≡ s.handled ++ map s.server.object_pool.contents (under_way s)

-- Contents that agree on the addresses of a list.
pub map-agrees :
    (c c' : ℕ → Bytes) (l : List ℕ) → ((p : ℕ) → count p l ≢ 0 → c p ≡ c' p) → map c l ≡ map c' l
map-agrees c c' [] h = refl
map-agrees c c' (p ∷ l) h =
    ground (arith, h p (λ e. ground arith), map-agrees c c' l (λ q f. h q (λ e. f (ground arith))))

count-under_way :
    (p : ℕ) (s : System)
    → count p (under_way s)
      ≡ count p (unhandled s.processor)
        + (count p s.server.data_queue + count p (unqueued s.server.receiver))
count-under_way p s =
    count-append p (unhandled s.processor) (s.server.data_queue ++ unqueued s.server.receiver)
    ∙ ap (λ n. count p (unhandled s.processor) + n)
        (count-append p s.server.data_queue (unqueued s.server.receiver))

-- A packet that is under way is live, and it is in no other place.
pub under_way-IsAccounted :
    (p : ℕ) (s : System)
    → IsAccounted s
    → count p (under_way s) ≢ 0
    → (is_live (s.server.object_pool.heap.sizes p) ≡ 1)
      × (count p s.server.object_pool.pool ≡ 0)
      × (count p (unqueued s.server.receiver) ≡ count p (receiver_hand s.server.receiver))
under_way-IsAccounted p s a there = ground (arith, a.placed p, count-under_way p s)

-- A step that moves no packet and writes to none that is under way.
pub moves_none-IsIntact :
    (s t : System)
    → t.received ≡ s.received
    → t.handled ≡ s.handled
    → under_way t ≡ under_way s
    → ((p : ℕ)
        → count p (under_way s) ≢ 0
        → t.server.object_pool.contents p ≡ s.server.object_pool.contents p)
    → IsIntact s
    → IsIntact t
moves_none-IsIntact s t same_received same_handled same_packets same w = record {
  intact =
      rw
        (
          same_received,
          same_handled,
          same_packets,
          map-agrees t.server.object_pool.contents s.server.object_pool.contents (under_way s) same,
        )
        w.intact;
}

pub selects_keeps :
    (num : ℤ) (ready : ℤ → Bool) (accepted : Option Client) (s : TcpServer)
    → s.receiver ≡ selecting
    → ((select_round num ready accepted s).object_pool ≡ s.object_pool)
      × ((select_round num ready accepted s).data_queue ≡ s.data_queue)
      × (unqueued (select_round num ready accepted s).receiver ≡ unqueued s.receiver)
unfolding select_round
selects_keeps num ready accepted s at = ground arith

get_writes :
    (p p' : ObjectPool) (o q : ℕ)
    → IsFresh p.heap
    → get p ≡ some (o, p')
    → is_live (p.heap.sizes q) ≡ 1
    → count q p.pool ≡ 0
    → p'.contents q ≡ p.contents q
unfolding get
get_writes p p' o q f e live free = ground (arith, f q)

pub visits_keeps :
    (i : ℕ) (s t : TcpServer)
    → s.receiver ≡ visiting i
    → visit i s ≡ some t
    → (t.data_queue ≡ s.data_queue) × (unqueued t.receiver ≡ unqueued s.receiver)
unfolding visit
visits_keeps i s t at e = ground arith

pub visits_writes :
    (i q : ℕ) (s t : TcpServer)
    → visit i s ≡ some t
    → IsFresh s.object_pool.heap
    → is_live (s.object_pool.heap.sizes q) ≡ 1
    → count q s.object_pool.pool ≡ 0
    → t.object_pool.contents q ≡ s.object_pool.contents q
unfolding visit
visits_writes i q s t e f live free = elim (Option-cases (get s.object_pool)) [
  | inl stuck ↦ ground arith
  | inr ((o, pool), got) ↦ ground (arith, get_writes s.object_pool pool o q f got live free)
]

pub gives_back_keeps :
    (packet : ℕ) (s t : TcpServer)
    → give_back packet s ≡ some t
    → (t.data_queue ≡ s.data_queue)
      × (t.receiver ≡ s.receiver)
      × (t.object_pool.contents ≡ s.object_pool.contents)
unfolding give_back push
gives_back_keeps packet s t e = ground arith

pub takes_keeps :
    (packet : ℕ) (s t : TcpServer)
    → take_packet s ≡ takes packet t
    → s.state ≢ state_terminate
    → (s.data_queue ≡ packet ∷ t.data_queue)
      × (t.receiver ≡ s.receiver)
      × (t.object_pool ≡ s.object_pool)
unfolding take_packet
takes_keeps packet s t e never = ground arith
