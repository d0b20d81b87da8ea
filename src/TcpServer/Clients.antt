-- ===== src/TcpServer/Clients.antt =====
-- The clients of the server of tcpserver/src/tcpserver.cpp: what becomes of one whose connection has
-- ended, and `stop`.
use cpp_shared.Memory.Addresses.{count, count-append, is_live}
use cpp_shared.PacketPool.{ObjectPool, push}
use cpp_shared.TcpServer.{
  TcpServer, Client, visiting, select_round, visit, receive, is_positive, destroy, remove_at,
  replace_at, is_negative,
}
use cpp_shared.TcpServer.Process.{drain, stop, destroyed, destroy_all}
use cpp_shared.TcpServer.System.{left, System, started, Reach}
use cpp_shared.TcpServer.Accounting.{receiver_hand}
use cpp_shared.TcpServer.Safety.{packets_accounted}
use cpp_shared.Prelude.{
  ℕ, zero, suc, ◌+◌, ◌≤◌, ◌<◌, ◌≡◌, refl, List, [], ◌∷◌, Option, none, some, Bool, true, false,
  Bytes, ℤ, arith, Option-cases, inl, inr, get_elem?, if◌then◌else◌, length, Map,
}

get_elem?-replace_at :
    {A : Type 0} (i : ℕ) (b : A) (l : List A) {a : A}
    → get_elem? l i ≡ some a
    → (get_elem? (replace_at i b l) i ≡ some b) × (length (replace_at i b l) ≡ length l)
get_elem?-replace_at i b [] e = ground arith
get_elem?-replace_at zero b (x ∷ l) e = ground arith
get_elem?-replace_at (suc i) b (x ∷ l) e = ground (arith, get_elem?-replace_at i b l e)

get_elem?-remove_at :
    {A : Type 0} (i : ℕ) (l : List A)
    → get_elem? (remove_at i l) (suc i) ≡ get_elem? l (suc (suc i))
get_elem?-remove_at i [] = ground arith
get_elem?-remove_at zero (x ∷ l) = ground arith
get_elem?-remove_at (suc i) (x ∷ l) = get_elem?-remove_at i l

pub destroy-is_negative :
    (c : Client) → is_positive c.fd ≡ true → is_negative ((destroy c).fd) ≡ true
unfolding destroy
destroy-is_negative c e = rw e refl

replaced-get :
    (i packet : ℕ) (len : ℤ) (b key : Bytes) (c : Client) (s : TcpServer)
    → get_elem? s.clients i ≡ some (key, c)
    → is_positive len ≡ false
    → (get_elem? (receive len b i packet s).clients i ≡ some (key, destroy c))
      × (length (receive len b i packet s).clients ≡ length s.clients)
      × ((receive len b i packet s).fd ≡ s.fd)
unfolding receive
replaced-get i packet len b key c s there failed =
    rw (receive, there, failed)
      (
        (get_elem?-replace_at i (key, destroy c) s.clients there).0,
        (get_elem?-replace_at i (key, destroy c) s.clients there).1,
        refl,
      )

keeps_clients :
    (num : ℤ) (ready : ℤ → Bool) (s : TcpServer)
    → ready s.fd ≡ false
    → (select_round num ready none s).clients ≡ s.clients
unfolding select_round
keeps_clients num ready s quiet = ground arith

pub visit_dead_last :
    (i : ℕ) (s : TcpServer) (key : Bytes) (c : Client)
    → get_elem? s.clients i ≡ some (key, c)
    → is_negative c.fd ≡ true
    → suc i ≡ length s.clients
    → visit i s ≡ none
unfolding visit
visit_dead_last i s key c there dead last = ground arith

-- Where the last client of the map disconnects, the loop of the next round is undefined behaviour
-- if no connection has come: it erases that client and increments the iterator `end()`.
dead_last_faults :
    (i packet : ℕ) (len num : ℤ) (ready : ℤ → Bool) (b key : Bytes) (c : Client) (s : TcpServer)
    → get_elem? s.clients i ≡ some (key, c)
    → suc i ≡ length s.clients
    → is_positive c.fd ≡ true
    → is_positive len ≡ false
    → ready s.fd ≡ false
    → visit i (select_round num ready none (receive len b i packet s)) ≡ none
dead_last_faults i packet len num ready b key c s there last open_ failed quiet =
    let (found, same, fd) = replaced-get i packet len b key c s there failed in
    let kept : _ = keeps_clients num ready (receive len b i packet s) (rw fd quiet) in
    visit_dead_last i _ key (destroy c) (rw kept found) (destroy-is_negative c open_)
      (rw kept (omega arith))

-- Where a dead client is not the last one, the client behind it is passed over: the loop goes on
-- with the one after that.
erase_skips :
    (i : ℕ) (key : Bytes) (c : Client) (s : TcpServer)
    → get_elem? s.clients i ≡ some (key, c)
    → is_negative c.fd ≡ true
    → suc i < length s.clients
    → (t : TcpServer) × (visit i s ≡ some t)
      × (t.receiver ≡ visiting (suc i))
      × (get_elem? t.clients (suc i) ≡ get_elem? s.clients (suc (suc i)))
unfolding visit
erase_skips i key c s there dead more = (
  record s { clients = remove_at i s.clients; receiver = visiting (suc i) },
  ground arith,
  refl,
  get_elem?-remove_at i s.clients,
)

push_stored :
    (p : ObjectPool) (o : ℕ)
    → is_live (p.heap.sizes o) ≡ 1
    → (o' : Option ℕ) × (p' : ObjectPool) × (push (some o) p ≡ some (o', p'))
      × ((q : ℕ)
          → is_live (p'.heap.sizes q) + count q p.pool + count q (o ∷ [])
            ≡ is_live (p.heap.sizes q) + count q p'.pool)
unfolding push
push_stored p o live = elim (Option-cases (push (some o) p)) [
  | inl none_ ↦ absurd (ground arith)
  | inr ((o', p'), e) ↦ (o', p', e, λ q. ground (arith, count-append q p.pool (o ∷ [])))
]

drain_accounts :
    (l : List ℕ) (p : ObjectPool)
    → ((q : ℕ) → count q p.pool + count q l ≤ is_live (p.heap.sizes q))
    → (p' : ObjectPool) × (drain l p ≡ some p')
      × ((q : ℕ)
          → is_live (p'.heap.sizes q) + count q p.pool + count q l
            ≡ is_live (p.heap.sizes q) + count q p'.pool)
unfolding drain
drain_accounts [] p h = (p, refl, λ q. omega arith)
drain_accounts (o ∷ l) p h =
    let (o', p1, e, one) = push_stored p o (ground (arith, h o)) in
    let (p2, rest, all) = drain_accounts l p1 (λ q. ground (arith, h q, one q)) in
    (p2, ground arith, λ q. ground (arith, one q, all q))

unfoldable pub no_positive : Map Bytes Client → Bool
no_positive [] = true
no_positive ((key, c) ∷ m) = if is_positive c.fd then false else no_positive m

destroy_all_closes : (m : Map Bytes Client) → no_positive (destroy_all m) ≡ true
unfolding no_positive destroy
destroy_all_closes [] = refl
destroy_all_closes ((key, c) ∷ m) = ground (arith, destroy_all_closes m)

-- Once the thread in `process` has ended, `stop` is defined: it closes every client, empties the
-- queue, and every packet that is live then is in the pool, in the hand of `run`, or lost.
pub stop_drains :
    (count_ fd : ℤ) {s : System}
    → Reach (started count_ fd) s
    → s.processor ≡ left
    → (t : TcpServer) × (stop s.server ≡ some t)
      × (t.data_queue ≡ [])
      × (no_positive t.clients ≡ true)
      × ((p : ℕ)
          → is_live (t.object_pool.heap.sizes p)
            ≡ count p t.object_pool.pool
              + count p (receiver_hand s.server.receiver)
              + count p s.server.lost)
unfolding stop
stop_drains count_ fd {s} r at =
    let (pool, e, all) =
      drain_accounts s.server.data_queue s.server.object_pool
        (λ q. omega (arith, packets_accounted count_ fd q r)) in
    let t : TcpServer = record (s.server) {
      is_running = false;
      fd = destroyed s.server.fd;
      clients = destroy_all s.server.clients;
      data_queue = [];
      object_pool = pool;
    } in
    (
      t,
      ground (arith, e),
      refl,
      destroy_all_closes s.server.clients,
      λ p. ground (arith, all p, packets_accounted count_ fd p r),
    )
