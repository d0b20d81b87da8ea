-- ===== src/TcpServer.antt =====
-- `TcpServer` of tcpserver/src/tcpserver.h and tcpserver/src/tcpserver.cpp: one thread in `run`
-- accepts clients and queues the packets that it receives, another in `process` hands them to the
-- handlers. A critical section, a member function of the pool, or a system call is one function
-- here; the steps of the threads are in TcpServer/System.antt. The results of the system calls and
-- what `recv` leaves in a packet are arguments.
pub mod Process
pub mod System
pub mod Accounting
pub mod Order
pub mod Safety
pub mod Carrying
pub mod Contents
pub mod Delivery
pub mod Serving
pub mod Catching
pub mod Clients
pub mod Show
pub mod Program
pub mod Finishing
pub mod Ending
mod ReadExamples
mod StopExamples
mod Examples
use cpp_shared.Memory.{Heap}
use cpp_shared.PacketPool.{ObjectPool, get, push}
use cpp_shared.Prelude.{
  ℕ, zero, suc, List, [], ◌∷◌, ◌++◌, Option, none, some, Bool, true, false, if◌then◌else◌, length,
  get_elem?, take, drop, replicate, ◌==◌, ltb, ◌+◌, Bytes, codes, ℤ, pos, negsuc, int_eq, int_lt,
  Map, lookup, insert, int_key, bytes_key,
}

pub data State : Type 0 where
  state_none state_idel state_dataready state_handling state_terminate : State

-- A shared socket object: `name` is what `getName` returns.
pub record Client : Type 0 where
  pub fd : ℤ
  pub name : Bytes

-- Where the thread in `run` is: in its call of `select`, at the client with an index, about to
-- receive from it into a packet, about to queue that packet, or out of the function.
pub data Receiver : Type 0 where
  selecting : Receiver
  visiting : (index : ℕ) → Receiver
  receiving : (index packet : ℕ) → Receiver
  queueing : (index packet : ℕ) → Receiver
  returned : (result : ℤ) → Receiver

-- `fdset`, `fdset_` and `max_fd` are local to `run`, and `lost` has the packets that no variable
-- names any more.
pub record TcpServer : Type 0 where
  pub fd : ℤ
  pub is_running : Bool
  pub clients : Map Bytes Client
  pub state : State
  pub data_queue : List ℕ
  pub object_pool : ObjectPool
  pub fdset : ℤ → Bool
  pub fdset_ : ℤ → Bool
  pub max_fd : ℤ
  pub receiver : Receiver
  pub lost : List ℕ

abbrev pub max_int : ℤ → ℤ → ℤ
max_int a b = if int_lt a b then b else a

abbrev pub is_positive : ℤ → Bool
is_positive (pos zero) = false
is_positive (pos (suc n)) = true
is_positive (negsuc n) = false

-- `Socket::destroy` of tcpserver/src/socket.hpp
unfoldable pub destroy : Client → Client
destroy c = record { fd = if is_positive c.fd then negsuc 0 else c.fd; name = codes ":0" }

abbrev pub set_fd : (ℤ → Bool) → ℤ → Bool → ℤ → Bool
set_fd s fd b g = if int_eq g fd then b else s g

-- A client that `accepting` returned. Its descriptor is taken to be below FD_SETSIZE, without which
-- FD_SET is undefined.
abbrev pub add_client : Client → TcpServer → TcpServer
add_client c s = record s {
  fdset = set_fd s.fdset c.fd true;
  max_fd = max_int s.max_fd c.fd;
  clients = insert c.name c s.clients;
  receiver = visiting 0;
}

abbrev pub accept : Option Client → TcpServer → TcpServer
accept none s = record s { receiver = returned (negsuc 0) }
accept (some c) s = add_client c s

-- One round of `run` up to its loop over the clients: `num` and `ready` are what `select` returned.
unfoldable pub select_round : ℤ → (ℤ → Bool) → Option Client → TcpServer → TcpServer
select_round num ready accepted s =
    if is_positive num
    then if ready s.fd
      then accept accepted (record s { fdset_ = ready })
      else record s { fdset_ = ready; receiver = visiting 0 }
    else s

abbrev pub remove_at : {A : Type 0} → ℕ → List A → List A
remove_at i [] = []
remove_at zero (e ∷ m) = m
remove_at (suc i) (e ∷ m) = e ∷ remove_at i m

abbrev pub replace_at : {A : Type 0} → ℕ → A → List A → List A
replace_at i b [] = []
replace_at zero b (e ∷ m) = b ∷ m
replace_at (suc i) b (e ∷ m) = e ∷ replace_at i b m

abbrev pub is_negative : ℤ → Bool
is_negative (pos n) = false
is_negative (negsuc n) = true

-- `it = clients.erase(it); continue;`, and then `it++`: undefined behaviour at `end()`
abbrev pub erase_client : ℕ → TcpServer → Option TcpServer
erase_client i s =
    if suc i == length s.clients
    then none
    else some (record s { clients = remove_at i s.clients; receiver = visiting (suc i) })

abbrev pub got_packet : ℕ → TcpServer → Option (ℕ × ObjectPool) → Option TcpServer
got_packet i s none = none
got_packet i s (some (packet, pool)) =
    some (record s { object_pool = pool; receiver = receiving i packet })

abbrev pub visit_client : ℕ → TcpServer → Option (Bytes × Client) → Option TcpServer
visit_client i s none = some (record s { receiver = selecting })
visit_client i s (some (key, c)) =
    if is_negative c.fd
    then erase_client i s
    else if s.fdset_ c.fd
    then got_packet i s (get s.object_pool)
    else some (record s { receiver = visiting (suc i) })

-- The loop over the clients, at the one with index `i`, up to its call of `recv`; `none` is undefined
-- behaviour.
unfoldable pub visit : ℕ → TcpServer → Option TcpServer
visit i s = visit_client i s (get_elem? s.clients i)

-- `memset(packet->src, 0, 32)` and the copy of the name to `src`, at 6
unfoldable pub stamp : Bytes → Bytes → Bytes
stamp name b =
    let cleared = take 6 b ++ (replicate 32 0 ++ drop 38 b) in
    take 6 cleared ++ (name ++ drop (6 + length name) cleared)

abbrev pub store : ℕ → Bytes → ObjectPool → ObjectPool
store packet b p = record p { contents = λ q. if q == packet then b else p.contents q }

abbrev pub drop_client : ℕ → ℕ → Bytes → Client → TcpServer → TcpServer
drop_client i packet key c s = record s {
  fdset = set_fd s.fdset c.fd false;
  clients = replace_at i (key, destroy c) s.clients;
  receiver = visiting (suc i);
  lost = packet ∷ s.lost;
}

abbrev pub keep_packet : ℕ → ℕ → Bytes → Client → TcpServer → TcpServer
keep_packet i packet b c s = record s {
  object_pool = store packet (stamp c.name b) s.object_pool;
  receiver = queueing i packet;
}

-- `recv` and what depends on its result: `len` is the result, `b` the bytes of the packet after it.
unfoldable pub receive : ℤ → Bytes → ℕ → ℕ → TcpServer → TcpServer
receive len b i packet s = elim (get_elem? s.clients i) [
  | none ↦ s
  | some (key, c) ↦
      if is_positive len then keep_packet i packet b c s else drop_client i packet key c s
]

abbrev pub is_terminate : State → Bool
is_terminate state_terminate = true
is_terminate _ = false

-- the critical section at the end of the loop over the clients
unfoldable pub queue_packet : ℕ → ℕ → TcpServer → TcpServer
queue_packet i packet s =
    if is_terminate s.state
    then record s { receiver = visiting (suc i); lost = packet ∷ s.lost }
    else record s {
      data_queue = s.data_queue ++ (packet ∷ []);
      state = state_dataready;
      receiver = visiting (suc i);
    }
