-- ===== src/TcpServer/Contents.antt =====
-- What the handlers of the server of tcpserver/src/tcpserver.cpp are given: the bytes that were
-- received. The two threads share the packets through `objectPool` and `dataQueue`.
use cpp_shared.Memory.Addresses.{count, count-append}
use cpp_shared.TcpServer.{
  TcpServer, Client, receiving, queueing, keep_packet, stamp, is_positive, receive, queue_packet,
  store, is_terminate, state_terminate,
}
use cpp_shared.TcpServer.Process.{takes, take_packet}
use cpp_shared.TcpServer.System.{
  waiting, handling, returning, System, started, Step, selects, receiver_returns, visits, receives,
  queues, processor_takes, processor_breaks, processor_handles, processor_gives_back,
  processor_leaves, stops, after_receive, arrived, Reach, here, later,
}
use cpp_shared.TcpServer.Order.{IsQueueing, Reach-IsQueueing, never_breaks}
use cpp_shared.TcpServer.Accounting.{IsAccounted}
use cpp_shared.TcpServer.Safety.{Reach-IsAccounted}
use cpp_shared.TcpServer.Carrying.{
  unqueued, unhandled, under_way, IsIntact, map-agrees, under_way-IsAccounted, moves_none-IsIntact,
  selects_keeps, visits_keeps, visits_writes, gives_back_keeps, takes_keeps,
}
use cpp_shared.Prelude.{
  ℕ, ◌≡◌, ◌≢◌, refl, sym, ap, ◌∙◌, List, [], ◌∷◌, ◌++◌, append_assoc, none, some, map-append,
  append-nil, true, false, Bytes, ℤ, arith, Bool-cases, Option-cases, inl, inr, get_elem?, map,
}

-- A step by which the bytes of one more packet are received.
appends-IsIntact :
    (s t : System) (p : ℕ) (b : Bytes)
    → t.received ≡ s.received ++ (b ∷ [])
    → t.handled ≡ s.handled
    → under_way t ≡ under_way s ++ (p ∷ [])
    → t.server.object_pool.contents p ≡ b
    → ((q : ℕ)
        → count q (under_way s) ≢ 0
        → t.server.object_pool.contents q ≡ s.server.object_pool.contents q)
    → IsIntact s
    → IsIntact t
appends-IsIntact s t p b more same_handled one_more written same w =
    let c : ℕ → Bytes = t.server.object_pool.contents in
    record {
      intact =
          more
          ∙ ap (λ l. l ++ (b ∷ [])) w.intact
          ∙ append_assoc s.handled (map s.server.object_pool.contents (under_way s)) (b ∷ [])
          ∙ rw
              (
                same_handled,
                one_more,
                map-append c (under_way s) (p ∷ []),
                map-agrees c s.server.object_pool.contents (under_way s) same,
                written,
              )
              refl;
    }

appended : (l m : List ℕ) (p : ℕ) → l ++ (m ++ (p ∷ [])) ≡ (l ++ (m ++ [])) ++ (p ∷ [])
appended l m p = rw (append-nil m) (sym (append_assoc l m (p ∷ [])))

-- What `recv` and the copy of the name write is in the packet that is then queued.
receive_stores :
    (i packet : ℕ) (len : ℤ) (b key : Bytes) (c : Client) (s : TcpServer)
    → get_elem? s.clients i ≡ some (key, c)
    → is_positive len ≡ true
    → (receive len b i packet s ≡ keep_packet i packet b c s)
      × (arrived len b i s ≡ stamp c.name b ∷ [])
unfolding receive
receive_stores i packet len b key c s there good =
    (rw (receive, there, good) refl, rw (there, good) refl)

receive_drops :
    (i packet : ℕ) (len : ℤ) (b : Bytes) (s : TcpServer)
    → s.receiver ≡ receiving i packet
    → is_positive len ≡ false
    → ((receive len b i packet s).object_pool ≡ s.object_pool)
      × ((receive len b i packet s).data_queue ≡ s.data_queue)
      × (unqueued (receive len b i packet s).receiver ≡ unqueued s.receiver)
      × (arrived len b i s ≡ [])
unfolding receive
receive_drops i packet len b s at failed = ground arith

receive_absent :
    (i packet : ℕ) (len : ℤ) (b : Bytes) (s : TcpServer)
    → get_elem? s.clients i ≡ none
    → (receive len b i packet s ≡ s) × (arrived len b i s ≡ [])
unfolding receive
receive_absent i packet len b s absent = (rw (receive, absent) refl, rw absent refl)

receives-IsIntact :
    (s : System) (i packet : ℕ) (len : ℤ) (b : Bytes)
    → s.server.receiver ≡ receiving i packet
    → IsAccounted s
    → IsIntact s
    → IsIntact (after_receive len b i packet s)
receives-IsIntact s i packet len b at a w =
    let elsewhere : (q : ℕ) → count q (under_way s) ≢ 0 → q ≢ packet =
      λ q there. λ e. ground (arith, under_way-IsAccounted q s a there) in
    elim (Option-cases (get_elem? s.server.clients i)) [
      | inl absent ↦
          let (same, nothing) = receive_absent i packet len b s.server absent in
          moves_none-IsIntact s _ (rw nothing (append-nil s.received)) refl (rw same refl)
            (λ q there. rw same refl) w
      | inr ((key, c), there) ↦ elim (Bool-cases (is_positive len)) [
        | inl good ↦
            let (same, one) = receive_stores i packet len b key c s.server there good in
            appends-IsIntact s _ packet (stamp c.name b) (rw one refl) refl
              (rw (same, at) (appended (unhandled s.processor) s.server.data_queue packet))
              (rw same (ground arith)) (λ q other. rw same (ground (arith, elsewhere q other))) w
        | inr failed ↦
            let (pool, queue, hand, nothing) = receive_drops i packet len b s.server at failed in
            moves_none-IsIntact s _ (rw nothing (append-nil s.received)) refl
              (rw (queue, hand) refl) (λ q other. rw pool refl) w
      ]
    ]

queues-IsIntact :
    (s : System) (i packet : ℕ) (l : List ℕ)
    → s.server.receiver ≡ queueing i packet
    → s.server.state ≢ state_terminate
    → IsIntact s
    → IsIntact (record s { server = queue_packet i packet s.server; queued = l })
unfolding queue_packet
queues-IsIntact s i packet l at never w =
    let open_ : is_terminate s.server.state ≡ false = ground arith in
    moves_none-IsIntact s _ refl refl
      (rw (open_, at, append-nil (s.server.data_queue ++ (packet ∷ []))) refl)
      (λ p there. rw open_ refl) w

takes-IsIntact :
    (s : System) (packet : ℕ) (t : TcpServer) (l : List ℕ)
    → s.processor ≡ waiting
    → take_packet s.server ≡ takes packet t
    → s.server.state ≢ state_terminate
    → IsIntact s
    → IsIntact (record s { server = t; processor = handling packet; taken = l })
takes-IsIntact s packet t l at e never w =
    let (front, here_, pool) = takes_keeps packet s.server t e never in
    moves_none-IsIntact s _ refl refl (rw (at, front, here_) refl) (λ p there. rw pool refl) w

handles-IsIntact :
    (s : System) (packet : ℕ) (b : Bytes)
    → s.processor ≡ handling packet
    → IsAccounted s
    → IsIntact s
    → IsIntact (record s {
      server = record (s.server) { object_pool = store packet b s.server.object_pool };
      processor = returning packet;
      handled = s.handled ++ (s.server.object_pool.contents packet ∷ []);
    })
handles-IsIntact s packet b at a w =
    let c : ℕ → Bytes = s.server.object_pool.contents in
    let c' : ℕ → Bytes = (store packet b s.server.object_pool).contents in
    let rest : List ℕ = s.server.data_queue ++ unqueued s.server.receiver in
    let alone : (q : ℕ) → count q rest ≢ 0 → q ≢ packet = λ q there. λ e.
      ground (arith, a.placed q, count-append q s.server.data_queue (unqueued s.server.receiver)) in
    record {
      intact =
          w.intact
          ∙ rw at (
              ap (λ l. s.handled ++ (c packet ∷ l))
                (sym (map-agrees c' c rest (λ q there. ground (arith, alone q there)))))
          ∙ sym (append_assoc s.handled (c packet ∷ []) _);
    }

Step-IsIntact : {s t : System} → Step s t → IsQueueing s → IsAccounted s → IsIntact s → IsIntact t
Step-IsIntact {s} (selects num ready accepted at on) q a w =
    let (pool, queue, hand) = selects_keeps num ready accepted s.server at in
    moves_none-IsIntact s _ refl refl (rw (queue, hand) refl) (λ p there. rw pool refl) w
Step-IsIntact {s} (receiver_returns at off) q a w =
    moves_none-IsIntact s _ refl refl (rw at refl) (λ p there. refl) w
Step-IsIntact {s} (visits i t at e) q a w =
    let (queue, hand) = visits_keeps i s.server t at e in
    moves_none-IsIntact s _ refl refl (rw (queue, hand) refl)
      (λ p there.
        let (live, free, here_) = under_way-IsAccounted p s a there in
        visits_writes i p s.server t e a.unused live free)
      w
Step-IsIntact {s} (receives i packet len b at) q a w = receives-IsIntact s i packet len b at a w
Step-IsIntact {s} (queues i packet at) q a w = queues-IsIntact s i packet _ at q.unterminated w
Step-IsIntact {s} (processor_takes packet t at e) q a w =
    takes-IsIntact s packet t _ at e q.unterminated w
Step-IsIntact {s} (processor_breaks t at e) q a w =
    absurd (never_breaks s.server t q.unterminated e)
Step-IsIntact {s} (processor_handles packet b at) q a w = handles-IsIntact s packet b at a w
Step-IsIntact {s} (processor_gives_back packet t at e) q a w =
    let (queue, hand, same) = gives_back_keeps packet s.server t e in
    moves_none-IsIntact s _ refl refl (rw (at, queue, hand) refl) (λ p there. rw same refl) w
Step-IsIntact {s} (processor_leaves at off) q a w =
    moves_none-IsIntact s _ refl refl (rw at refl) (λ p there. refl) w
Step-IsIntact {s} stops q a w = moves_none-IsIntact s _ refl refl refl (λ p there. refl) w

started-IsIntact : (count_ fd : ℤ) → IsIntact (started count_ fd)
unfolding started
started-IsIntact count_ fd = record { intact = refl }

-- In every reachable state of the server the packets that `recv` has filled, byte for byte and with
-- the name of the sender in them, are in their order those for which `process` has looked up the
-- handler, then the one that it has just taken, those in the queue, and the one that `run` is about
-- to queue: none is lost, doubled, reordered or overwritten on the way.
pub messages_intact :
    (count_ fd : ℤ) {s : System}
    → Reach (started count_ fd) s
    → s.received
      ≡ s.handled
        ++ map s.server.object_pool.contents
            (unhandled s.processor ++ (s.server.data_queue ++ unqueued s.server.receiver))
messages_intact count_ fd r = (go r).intact
  where
    go : {s : System} → Reach (started count_ fd) s → IsIntact s
    go here = started-IsIntact count_ fd
    go (later r st) =
        Step-IsIntact st (Reach-IsQueueing count_ fd r) (Reach-IsAccounted count_ fd r) (go r)
