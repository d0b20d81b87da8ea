-- ===== src/Pipe.antt =====
-- `TcpServer`, `TcpClient` and `TcpPipe` of src/tcppipe.hpp, over the system calls: who starts which
-- thread, and what a client sends. An assignment to a thread that is joinable, `join` on one that
-- is not in a destructor, and an exception end the program.
pub mod Threads
pub mod Texts
mod Examples
use cpp_shared.Net.{Calls, Held, is_negative}
use cpp_shared.Net.PipeSocket
use cpp_shared.Net.Setup
use cpp_shared.Net.Connecting
use cpp_shared.Protocol.{build}
use cpp_shared.Sending
use cpp_shared.Prelude.{
  ℕ, zero, suc, List, [], ◌∷◌, ◌++◌, Option, none, some, Bool, true, false, if◌then◌else◌, Bytes,
  codes, ℤ, negsuc,
}

-- `ended` is `std::terminate`, or an exception that nothing catches.
pub data Outcome (A : Type 0) : Type 0 where
  ended : Outcome A
  goes_on : (after : A) → Outcome A

abbrev pub and_then : {A B : Type 0} → Outcome A → (A → Outcome B) → Outcome B
and_then ended f = ended
and_then (goes_on a) f = f a

-- The server's socket, the flag of its base class, and whether `ioThread` can be joined.
pub record TcpServer (c : Calls) : Type 0 where
  pub socket : Held c
  pub is_running : Bool
  pub has_thread : Bool

-- A client's socket and whether `recvThread` can be joined. `none` is the flag that the constructor
-- does not initialise.
pub record TcpClient (c : Calls) : Type 0 where
  pub socket : Held c
  pub is_running : Option Bool
  pub has_thread : Bool

module _ (c : Calls) where
  abbrev pub on_state : c.State → Held c → Held c
  on_state s h = record h { state = s }

  unfoldable pub new_server : c.State → TcpServer c
  unfolding PipeSocket.new
  new_server s = record { socket = PipeSocket.new c s; is_running = false; has_thread = false }

  abbrev pub started : TcpServer c → Option (Unit {0}) × Held c → Outcome (TcpServer c)
  started v (none, h) = ended
  started v (some u, h) = goes_on (record v { socket = h })

  -- `TcpServer::start`, which is `AbstractServer::start`
  unfoldable pub start : Bytes → ℕ → TcpServer c → Outcome (TcpServer c)
  start host port v =
      if v.is_running then goes_on v else started v (Setup.start c host port v.socket)

  -- `TcpServer::run`
  unfoldable pub run : TcpServer c → Outcome (TcpServer c)
  run v =
      if v.is_running
      then goes_on v
      else if v.has_thread
      then ended
      else goes_on (record v { has_thread = true })

  -- The first statements of `Epoll::run` and `Select::run`, in the thread.
  unfoldable pub enter : TcpServer c → TcpServer c
  enter v = record v { is_running = true }

  -- `~TcpServer`, once the thread has ended
  unfoldable pub destroy_server : TcpServer c → Outcome (TcpServer c)
  destroy_server v = if v.has_thread then goes_on (record v { has_thread = false }) else ended

  unfoldable pub new_client : c.State → TcpClient c
  unfolding PipeSocket.new
  new_client s = record { socket = PipeSocket.new c s; is_running = none; has_thread = false }

  -- The thread that `connectHost` starts, if it connected; `none` is an exception of `tcp`.
  abbrev pub connected : TcpClient c → Option Bool × Held c → Outcome (TcpClient c)
  connected v (none, h) = ended
  connected v (some false, h) = goes_on (record v { socket = h })
  connected v (some true, h) =
      if v.has_thread
      then ended
      else goes_on (record { socket = h; is_running = some true; has_thread = true })

  -- `TcpClient::connectHost`
  unfoldable pub connect_host : Bytes → ℕ → TcpClient c → Outcome (TcpClient c)
  connect_host host port v = connected v (Connecting.connect_host c host port v.socket)

  -- `~TcpClient`, once the thread has ended
  unfoldable pub destroy_client : TcpClient c → Outcome (TcpClient c)
  destroy_client v =
      if v.has_thread
      then goes_on (record v { is_running = some false; has_thread = false })
      else ended

  -- A round of `TcpClient::receive`: what it prints, after what was printed before
  unfoldable pub receive_round : TcpClient c → List Bytes → List Bytes × TcpClient c
  unfolding PipeSocket.recv_message
  receive_round v out =
      let (content, h) = PipeSocket.recv_message c v.socket in
      (
        elim content [
          | none ↦ out
          | some [] ↦ out
          | some (b ∷ bs) ↦ out ++ ((codes "message:" ++ (b ∷ bs)) ∷ [])
        ],
        record v { socket = h },
      )

  -- The loop of `TcpClient::receive`, over the number of its rounds before `isRunning` is false.
  unfoldable pub receive_rounds : ℕ → TcpClient c → List Bytes → List Bytes × TcpClient c
  unfolding receive_round
  receive_rounds zero v out = (out, v)
  receive_rounds (suc n) v out = let (out', v') = receive_round v out in receive_rounds n v' out'

  unfoldable pub receive : ℕ → TcpClient c → List Bytes × TcpClient c
  unfolding receive_rounds
  receive n v =
      let (out, v') = receive_rounds n v (codes "client enter" ∷ []) in
      (out ++ (codes "client leave" ∷ []), v')

  abbrev pub join_with : TcpServer c → Outcome (TcpClient c) → Outcome (TcpServer c × TcpClient c)
  join_with s ended = ended
  join_with s (goes_on v) = goes_on (s, v)

  -- `TcpPipe()`: the server, which all pipes share, is started and run, and the client connects.
  unfoldable pub new_pipe : Bytes → ℕ → TcpServer c → Outcome (TcpServer c × TcpClient c)
  unfolding start run new_client connect_host
  new_pipe host port v = and_then (start host port v) (λ v1.
      and_then (run v1) (λ v2. join_with v2 (connect_host host port (new_client v2.socket.state))))

-- `TcpPipe::host` and `TcpPipe::port`
abbrev pub host : Bytes
host = codes "127.0.0.1"

abbrev pub port : ℕ
port = 8081

-- `TcpClient::send` to a destination, and `TcpPipe::push`, which is the other `send`; `socket` is
-- the network behind the descriptor.
module _ {W : Type 0} (socket : Bytes → W → ℤ × W) where
  unfoldable pub push : ℕ → Bytes → W → Option (Bool × W)
  push fuel message w = Sending.send_message socket fuel message w

  unfoldable pub send_to : ℕ → Bytes → Bytes → Bytes → W → Option (Bool × W)
  unfolding build
  send_to fuel address destination data_ w =
      elim (build (codes "forward" ∷ address ∷ destination ∷ data_ ∷ [])) [
        | none ↦ none
        | some msg ↦ Sending.send_message socket fuel msg w
      ]
