-- ===== src/Client/Program.antt =====
-- The client program, tcpserver/src/clientd.cpp, with `Packet` of tcpserver/src/packet.h and the
-- handler of tcpserver/src/clienthandler.cpp. The bytes of the packet that `main` does not set are an
-- argument, and so is the number of rounds before a signal ends the loop.
use cpp_shared.Buffer.{memcpy_at}
use cpp_shared.Client.{
  TcpClient, new, Setup, start, Stopping, throws, blocks, stops, stop, send_message,
}
use cpp_shared.Packet.{short_bytes}
use cpp_shared.Sending.{Sent, done, faults, runs_on}
use cpp_shared.TcpServer.Program.{Signal, stops_server}
use cpp_shared.TcpServer.Show.{c_string}
use cpp_shared.Prelude.{
  ℕ, zero, suc, [], ◌∷◌, ◌++◌, Option, none, some, if◌then◌else◌, Bool, false, drop, length, Bytes,
  codes, ℤ, pos, negsuc, int_eq,
}

abbrev pub then_copy : ℕ → Bytes → Option Bytes → Option Bytes
then_copy at bytes none = none
then_copy at bytes (some block) = memcpy_at at bytes block

abbrev pub tcp_message_show : ℕ
tcp_message_show = 1

abbrev pub greeting : Bytes
greeting = codes "hello world!"

-- The assignments of `main` to its packet; `none` is a write past its end.
unfoldable pub hello : Bytes → Option Bytes
unfolding memcpy_at
hello memory = then_copy 70 greeting (
    then_copy 4 (short_bytes (length greeting))
      (then_copy 2 (short_bytes tcp_message_show) (then_copy 0 (short_bytes 44814) (some memory))))

-- `exits` has the result of `main`, and what it has sent; `ends_badly` is an exception, or a call of
-- `sendMessage` that faults, and `hangs` one that does not return; `waits` has what it has sent when it
-- waits in `stop` for the thread in `run` and that never ends.
pub data Exit (W : Type 0) : Type 0 where
  exits : (result : ℤ) → (sent : W) → Exit W
  ends_badly : Exit W
  waits : (sent : W) → Exit W
  hangs : Exit W

module _ {W : Type 0} (send : ℤ → Bytes → W → ℤ × W) (fuel : ℕ) (packet : Bytes) where
  abbrev pub then_send : (W → Sent W) → Sent W → Sent W
  then_send f (done n w) = f w
  then_send f faults = faults
  then_send f runs_on = runs_on

  unfoldable pub send_rounds : ℕ → TcpClient → W → Sent W
  send_rounds zero c w = done 0 w
  send_rounds (suc n) c w = then_send (λ w'. send_rounds n c w') (send_message send fuel packet c w)

  abbrev pub stopped : W → Stopping → Exit W
  stopped w throws = ends_badly
  stopped w blocks = waits w
  stopped w (stops c) = exits (pos 0) w

  abbrev pub finish : Bool → TcpClient → Sent W → Exit W
  finish ends c (done n w) = stopped w (stop ends c)
  finish ends c faults = ends_badly
  finish ends c runs_on = hangs

  abbrev pub started : Bool → ℕ → W → Option (ℤ × TcpClient) → Exit W
  started ends rounds w none = ends_badly
  started ends rounds w (some (ret, c)) =
      if int_eq ret (pos 0) then finish ends c (send_rounds rounds c w) else exits (negsuc 0) w

abbrev pub run_with :
    {W : Type 0} → (ℤ → Bytes → W → ℤ × W) → ℕ → Bool → Setup → ℕ → W → Option Bytes → Exit W
run_with send fuel ends u rounds w none = ends_badly
run_with send fuel ends u rounds w (some packet) =
    started send fuel packet ends rounds w (start u new)

-- `main`; the packet is set before its first use, so that its place in the order does not matter.
-- `ends` says whether the thread in `run` comes to its end.
unfoldable pub run_main :
    {W : Type 0} → (ℤ → Bytes → W → ℤ × W) → ℕ → Bool → Setup → Bytes → ℕ → W → Exit W
unfolding hello
run_main send fuel ends u memory rounds w = run_with send fuel ends u rounds w (hello memory)

-- `TcpClient_Show`: what it prints
unfoldable pub show : Bytes → Bytes
unfolding c_string
show packet = codes "client recv:" ++ (c_string (drop 70 packet) ++ (10 ∷ []))

-- The flag `isRunning` of the program after its `signalHandle`.
unfoldable pub signal_handle : Signal → Bool → Bool
signal_handle signal is_running = if stops_server signal then false else is_running
