-- ===== src/Client.antt =====
-- `TcpClient` of tcpserver/src/tcpclient.h and tcpserver/src/tcpclient.cpp. The results of the system
-- calls, what `recv` writes, and the handlers are arguments. A handler is known by a value of `H`.
pub mod Delivery
pub mod Program
pub mod Greeting
pub mod Session
mod Examples
use cpp_shared.Sending.{Sent, send_data}
use cpp_shared.TcpServer.{is_positive, is_negative}
use cpp_shared.TcpServer.Process.{packet_type, destroyed}
use cpp_shared.Prelude.{
  ℕ, List, [], ◌∷◌, ◌++◌, Option, none, some, Bool, true, false, if◌then◌else◌, drop, length,
  replicate, Bytes, ℤ, pos, negsuc, int_eq, Map, lookup, int_key,
}

-- `has_thread` says whether `recvThread` can be joined.
pub record TcpClient : Type 0 where
  pub fd : ℤ
  pub is_running : Bool
  pub has_thread : Bool

abbrev pub new : TcpClient
new = record { fd = negsuc 0; is_running = true; has_thread = false }

-- The results of `socket` and `connect`.
pub record Setup : Type 0 where
  pub socket_fd : ℤ
  pub connected : ℤ

-- `none` is the exception of `Socket::tcp`.
unfoldable pub connect_to : Setup → TcpClient → Option (ℤ × TcpClient)
connect_to u c =
    let c' : TcpClient = record c { fd = u.socket_fd } in
    if is_negative u.socket_fd
    then none
    else if int_eq u.connected (pos 0)
    then some (pos 0, c')
    else some (negsuc 1, c')

abbrev pub spawn : Option (ℤ × TcpClient) → Option (ℤ × TcpClient)
spawn none = none
spawn (some (ret, c)) =
    if int_eq ret (pos 0) then some (pos 0, record c { has_thread = true }) else some (negsuc 0, c)

unfoldable pub start : Setup → TcpClient → Option (ℤ × TcpClient)
unfolding connect_to
start u c = spawn (connect_to u c)

abbrev pub close : TcpClient → TcpClient
close c = record c { fd = destroyed c.fd }

-- What a call of `stop` comes to: `throws` is the exception of `join` on a thread that is not joinable,
-- and `blocks` a `join` that does not return.
pub data Stopping : Type 0 where
  throws : Stopping
  blocks : Stopping
  stops : (after : TcpClient) → Stopping

-- `ends` says whether the thread in `run` comes to its end once `isRunning` is false. It waits in `recv`
-- until the peer sends something or hangs up, which `stop` does nothing about before `join`.
unfoldable pub stop : Bool → TcpClient → Stopping
stop ends c =
    if c.is_running
    then if c.has_thread
      then if ends
        then stops (close (record c { is_running = false; has_thread = false }))
        else blocks
      else throws
    else stops (close c)

-- The buffer after `memset` and a `recv` that wrote `b`.
abbrev pub received : Bytes → Bytes
received b = b ++ drop (length b) (replicate 1024 0)

-- A round of `run`: the call that it makes, if the type of the packet has a handler.
unfoldable pub run_round : {H : Type 0} → Map ℤ H → ℤ → Bytes → Option (H × Bytes)
run_round {H} router len b =
    let call : Option (H × Bytes) = elim (lookup (packet_type (received b)) router) [
      | none ↦ none
      | some h ↦ some (h, received b)
    ] in
    if is_positive len then call else none

-- The calls of all the rounds of `run`, until `isRunning` is false: each `recv` is given by its result
-- and what it wrote.
abbrev pub then_calls : {C : Type 0} → Option C → List C → List C
then_calls none calls = calls
then_calls (some c) calls = c ∷ calls

unfoldable pub run : {H : Type 0} → Map ℤ H → List (ℤ × Bytes) → List (H × Bytes)
unfolding run_round
run router [] = []
run router ((len, b) ∷ rounds) = then_calls (run_round router len b) (run router rounds)

unfoldable pub send_message :
    {W : Type 0} → (ℤ → Bytes → W → ℤ × W) → ℕ → Bytes → TcpClient → W → Sent W
send_message send fuel data_ c w = send_data (send c.fd) fuel data_ w
