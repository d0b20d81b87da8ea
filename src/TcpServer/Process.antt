-- ===== src/TcpServer/Process.antt =====
-- The thread in `process`, and `init`, `start`, `stop`, `broadcast` and `getClient`, of
-- tcpserver/src/tcpserver.cpp.
use cpp_shared.Packet.{short_at}
use cpp_shared.PacketPool.{ObjectPool, push}
use cpp_shared.Sending.{done, faults, runs_on, send_data}
use cpp_shared.TcpServer.{
  TcpServer, State, state_none, state_idel, state_dataready, state_terminate, Client, selecting,
  destroy, is_terminate, is_negative,
}
use cpp_shared.Prelude.{
  ℕ, List, [], ◌∷◌, Option, none, some, Bool, true, false, if◌then◌else◌, Bytes, ℤ, pos, negsuc,
  int_eq, Map, lookup, int_key, bytes_key,
}

-- What the thread does with the mutex held: the predicate of `wait_for` fails, so that it has no
-- packet; it takes one; or it leaves its loop. `front` of an empty queue is undefined behaviour.
pub data Taken : Type 0 where
  nothing : Taken
  takes : (packet : ℕ) → TcpServer → Taken
  breaks : TcpServer → Taken
  undefined : Taken

abbrev pub is_ready : State → Bool
is_ready state_dataready = true
is_ready state_terminate = true
is_ready _ = false

-- `pop`, with the reset of the state where that empties the queue
abbrev pub pop_queue : List ℕ → TcpServer → TcpServer
pop_queue [] s = record s { data_queue = []; state = state_idel }
pop_queue (packet ∷ q) s = record s { data_queue = packet ∷ q }

abbrev pub break_with : Option (Option ℕ × ObjectPool) → TcpServer → Taken
break_with none s = undefined
break_with (some (packet, pool)) s = breaks (record s { object_pool = pool; state = state_none })

-- the test of STATE_TERMINATE after the wait
abbrev pub take_or_break : ℕ → TcpServer → Taken
take_or_break packet s =
    if is_terminate s.state then break_with (push (some packet) s.object_pool) s else takes packet s

abbrev pub take_front : List ℕ → TcpServer → Taken
take_front [] s = undefined
take_front (packet ∷ q) s = take_or_break packet (pop_queue q s)

unfoldable pub take_packet : TcpServer → Taken
take_packet s = if is_ready s.state then take_front s.data_queue s else nothing

-- `packet->type`, an unsigned short at 2 with its low byte first
abbrev pub packet_type : Bytes → ℤ
packet_type b = pos (short_at b 2)

-- The handler that is called for a packet, if there is one for its type.
unfoldable pub route : {H : Type 0} → Map ℤ H → Bytes → Option H
route router b = lookup (packet_type b) router

-- The push of the packet that ends a round of `process`.
abbrev pub with_pool : TcpServer → Option (Option ℕ × ObjectPool) → Option TcpServer
with_pool s none = none
with_pool s (some (packet, pool)) = some (record s { object_pool = pool })

unfoldable pub give_back : ℕ → TcpServer → Option TcpServer
give_back packet s = with_pool s (push (some packet) s.object_pool)

-- The results of `socket`, `bind` and `listen`.
pub record Setup : Type 0 where
  pub socket_fd : ℤ
  pub bound : ℤ
  pub listened : ℤ

-- `throws` is the `std::runtime_error` of `Socket::tcp`.
pub data Returned : Type 0 where
  throws : Returned
  returns : (result : ℤ) → (fd : ℤ) → Returned

-- The descriptor after `socket.destroy()`.
abbrev pub destroyed : ℤ → ℤ
destroyed fd = (destroy (record { fd = fd; name = [] })).fd

unfoldable pub init : Setup → Returned
init u =
    if is_negative u.socket_fd
    then throws
    else if int_eq u.bound (pos 0)
    then if int_eq u.listened (pos 0)
      then returns (pos 0) u.socket_fd
      else returns (negsuc 2) (destroyed u.socket_fd)
    else returns (negsuc 1) (destroyed u.socket_fd)

-- `start` up to its call of `run`, or its result -1.
pub data Started : Type 0 where
  start_throws : Started
  refused : TcpServer → Started
  runs : TcpServer → Started

abbrev pub running_with : TcpServer → Returned → Started
running_with s throws = start_throws
running_with s (returns result fd) =
    if int_eq result (pos 0)
    then runs (record s {
      fd = fd;
      state = state_idel;
      fdset = λ g. int_eq g fd;
      max_fd = fd;
      receiver = selecting;
    })
    else refused (record s { fd = fd })

unfoldable pub start : Setup → TcpServer → Started
start u s = running_with s (init u)

-- the last loop of `stop`, which empties the queue into the pool
unfoldable pub drain : List ℕ → ObjectPool → Option ObjectPool
drain [] p = some p
drain (packet ∷ q) p = elim (push (some packet) p) [ none ↦ none | some (o, p') ↦ drain q p' ]

abbrev pub destroy_all : Map Bytes Client → Map Bytes Client
destroy_all [] = []
destroy_all ((key, c) ∷ m) = (key, destroy c) ∷ destroy_all m

-- `stop`, from where the thread in `process` has been joined.
unfoldable pub stop : TcpServer → Option TcpServer
stop s = elim (drain s.data_queue s.object_pool) [
  | none ↦ none
  | some pool ↦ some (record s {
    is_running = false;
    fd = destroyed s.fd;
    clients = destroy_all s.clients;
    data_queue = [];
    object_pool = pool;
  })
]

-- `broadcast` over the `send` of each descriptor; `none` where a call does not return.
unfoldable pub broadcast :
    {W : Type 0} → (ℤ → Bytes → W → ℤ × W) → ℕ → Bytes → Map Bytes Client → W → Option W
broadcast send fuel data_ [] w = some w
broadcast send fuel data_ ((key, c) ∷ m) w = elim (send_data (send c.fd) fuel data_ w) [
  | done at w' ↦ broadcast send fuel data_ m w'
  | faults ↦ none
  | runs_on ↦ none
]

unfoldable pub get_client : Bytes → Map Bytes Client → Option Client
get_client name clients = lookup name clients
