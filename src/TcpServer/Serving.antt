-- ===== src/TcpServer/Serving.antt =====
-- That the thread in `process` of tcpserver/src/tcpserver.cpp can finish all that it is given.
use cpp_shared.TcpServer.{
  TcpServer, state_dataready, state_terminate, Client, select_round, visit, receive, queue_packet,
}
use cpp_shared.TcpServer.Process.{takes, take_packet, give_back}
use cpp_shared.TcpServer.System.{
  left, System, started, Step, selects, receiver_returns, visits, receives, queues, processor_takes,
  processor_breaks, processor_handles, processor_gives_back, processor_leaves, stops, Reach, here,
  later,
}
use cpp_shared.TcpServer.Order.{IsQueueing, Reach-IsQueueing, never_breaks}
use cpp_shared.Prelude.{
  ℕ, ◌≡◌, ◌≢◌, refl, sym, ◌∙◌, List, ◌∷◌, Option, some, Bool, true, Bytes, ℤ, arith,
}

-- While there is something in the queue the state is DATAREADY, and while the server runs the thread
-- in `process` has not left its loop.
pub record IsAwake (s : System) : Type 0 where
  pub awake : (p : ℕ) (l : List ℕ) → s.server.data_queue ≡ p ∷ l → s.server.state ≡ state_dataready
  pub stays : s.server.is_running ≡ true → s.processor ≢ left

-- What of a server this is about does not change.
abbrev Same : TcpServer → TcpServer → Type 0
Same s t = (t.state ≡ s.state) × (t.data_queue ≡ s.data_queue) × (t.is_running ≡ s.is_running)

selects-Same :
    (num : ℤ) (ready : ℤ → Bool) (accepted : Option Client) (s : TcpServer)
    → Same s (select_round num ready accepted s)
unfolding select_round
selects-Same num ready accepted s = ground arith

visits-Same : (i : ℕ) (s t : TcpServer) → visit i s ≡ some t → Same s t
unfolding visit
visits-Same i s t e = ground arith

receives-Same :
    (i packet : ℕ) (len : ℤ) (b : Bytes) (s : TcpServer) → Same s (receive len b i packet s)
unfolding receive
receives-Same i packet len b s = ground arith

gives_back-Same : (packet : ℕ) (s t : TcpServer) → give_back packet s ≡ some t → Same s t
unfolding give_back
gives_back-Same packet s t e = ground arith

Same-IsAwake :
    (s t : System)
    → Same s.server t.server
    → (s.processor ≢ left → t.processor ≢ left)
    → IsAwake s
    → IsAwake t
Same-IsAwake s t (state, queue, running) stays w = record {
  awake = λ p l e. state ∙ w.awake p l (sym queue ∙ e);
  stays = λ on. stays (w.stays (sym running ∙ on));
}

takes-IsAwake :
    (s t : TcpServer) (packet p : ℕ) (l : List ℕ)
    → take_packet s ≡ takes packet t
    → s.state ≢ state_terminate
    → t.data_queue ≡ p ∷ l
    → t.state ≡ state_dataready
unfolding take_packet
takes-IsAwake s t packet p l e never more = ground arith

queues_wakes :
    (i packet : ℕ) (s : TcpServer)
    → s.state ≢ state_terminate
    → ((queue_packet i packet s).state ≡ state_dataready)
      × ((queue_packet i packet s).is_running ≡ s.is_running)
unfolding queue_packet
queues_wakes i packet s never = ground arith

Step-IsAwake : {s t : System} → Step s t → IsQueueing s → IsAwake s → IsAwake t
Step-IsAwake {s} (selects num ready accepted at on) q w =
    Same-IsAwake s _ (selects-Same num ready accepted s.server) (λ h. h) w
Step-IsAwake {s} (receiver_returns at off) q w = Same-IsAwake s _ (refl, refl, refl) (λ h. h) w
Step-IsAwake {s} (visits i t at e) q w = Same-IsAwake s _ (visits-Same i s.server t e) (λ h. h) w
Step-IsAwake {s} (receives i packet len b at) q w =
    Same-IsAwake s _ (receives-Same i packet len b s.server) (λ h. h) w
Step-IsAwake {s} (queues i packet at) q w =
    let (ready, running) = queues_wakes i packet s.server q.unterminated in
    record { awake = λ p l e. ready; stays = λ on. w.stays (sym running ∙ on) }
Step-IsAwake {s} (processor_takes packet t at e) q w = record {
  awake = λ p l more. takes-IsAwake s.server t packet p l e q.unterminated more;
  stays = λ on h. cc;
}
Step-IsAwake {s} (processor_breaks t at e) q w = absurd (never_breaks s.server t q.unterminated e)
Step-IsAwake {s} (processor_handles packet b at) q w =
    Same-IsAwake s _ (refl, refl, refl) (λ h e. cc) w
Step-IsAwake {s} (processor_gives_back packet t at e) q w =
    Same-IsAwake s _ (gives_back-Same packet s.server t e) (λ h e'. cc) w
Step-IsAwake {s} (processor_leaves at off) q w = record {
  awake = w.awake;
  stays = λ on. absurd (ground arith);
}
Step-IsAwake {s} stops q w = record { awake = w.awake; stays = λ on. absurd (ground arith) }

pub Reach-IsAwake : (count_ fd : ℤ) {s : System} → Reach (started count_ fd) s → IsAwake s
unfolding started
Reach-IsAwake count_ fd here = record { awake = λ p l e. ground arith; stays = λ on e. cc }
Reach-IsAwake count_ fd (later r st) =
    Step-IsAwake st (Reach-IsQueueing count_ fd r) (Reach-IsAwake count_ fd r)
