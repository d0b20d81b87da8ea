-- ===== src/Client/Greeting.antt =====
-- What the client program sends, and what the server of tcpserver/src does with it.
use cpp_shared.Buffer.{memcpy_at}
use cpp_shared.Client.{TcpClient, new, Setup, start, blocks, stops, stop, send_message}
use cpp_shared.Packet.{short_bytes}
use cpp_shared.Packet.Layout.{six_bytes}
use cpp_shared.Client.Program.{
  tcp_message_show, greeting, hello, exits, waits, then_send, send_rounds, run_main,
}
use cpp_shared.Sending.{done}
use cpp_shared.Sending.Conforming.{SendsAll}
use cpp_shared.Sending.Packets.{send_data_blocks}
use cpp_shared.TcpServer.{Client, stamp, is_negative}
use cpp_shared.TcpServer.Process.{packet_type, get_client, route}
use cpp_shared.TcpServer.Show.{IsNonzero, overruns, show, show_overruns}
use cpp_shared.Prelude.{
  ℕ, zero, suc, ◌+◌, ◌<◌, ◌≤◌, ◌≡◌, refl, sym, ap, ◌∙◌, [], ◌∷◌, ◌++◌, append_assoc, append-nil,
  some, true, false, arith, take, drop, length, length-append, length-take, length-drop, Bytes, ℤ,
  pos, Map, lookup, int_key, bytes_key, All,
}

-- The packet in its parts.
abbrev pub hello_packet : Bytes → Bytes
hello_packet memory =
    14 ∷ 175 ∷ 1 ∷ 0 ∷ 12 ∷ 0 ∷ (take 64 (drop 6 memory) ++ (greeting ++ drop 82 memory))

copied :
    (at : ℕ) (bytes block : Bytes)
    → at + length bytes ≤ length block
    → memcpy_at at bytes block ≡ some (take at block ++ (bytes ++ drop (at + length bytes) block))
unfolding memcpy_at
copied at bytes block fits = ground (arith, fits)

hello_from :
    (x0 x1 x2 x3 x4 x5 : ℕ) (rest : Bytes)
    → length rest ≡ 1018
    → hello (x0 ∷ x1 ∷ x2 ∷ x3 ∷ x4 ∷ x5 ∷ rest)
      ≡ some (hello_packet (x0 ∷ x1 ∷ x2 ∷ x3 ∷ x4 ∷ x5 ∷ rest))
unfolding hello
hello_from x0 x1 x2 x3 x4 x5 rest whole =
    rw
      (
        hello,
        copied 0 (short_bytes 44814) (x0 ∷ x1 ∷ x2 ∷ x3 ∷ x4 ∷ x5 ∷ rest) (omega (arith, whole)),
        copied 2 (short_bytes 1) (14 ∷ 175 ∷ x2 ∷ x3 ∷ x4 ∷ x5 ∷ rest) (omega (arith, whole)),
        copied 4 (short_bytes 12) (14 ∷ 175 ∷ 1 ∷ 0 ∷ x4 ∷ x5 ∷ rest) (omega (arith, whole)),
        copied 70 greeting (14 ∷ 175 ∷ 1 ∷ 0 ∷ 12 ∷ 0 ∷ rest) (omega (arith, whole)),
      )
      refl

pub hello_parts :
    (memory : Bytes) → length memory ≡ 1024 → hello memory ≡ some (hello_packet memory)
hello_parts memory whole =
    let (x0, x1, x2, x3, x4, x5, rest, same) = six_bytes memory (omega arith) in
    rw same (hello_from x0 x1 x2 x3 x4 x5 rest (ground (arith, whole, same)))

length-hello_packet : (memory : Bytes) → length memory ≡ 1024 → length (hello_packet memory) ≡ 1024
length-hello_packet memory whole = omega (
  arith,
  whole,
  length-append (take 64 (drop 6 memory)) (greeting ++ drop 82 memory),
  length-append greeting (drop 82 memory),
  length-take 64 (drop 6 memory),
  length-drop 6 memory,
  length-drop 82 memory,
)

unfoldable pub copies : ℕ → Bytes → Bytes
copies zero packet = []
copies (suc n) packet = packet ++ copies n packet

sent_copies :
    (send : ℤ → Bytes → Bytes → ℤ × Bytes) (fuel : ℕ) (packet : Bytes) (rounds : ℕ) (c : TcpClient)
    (wire : Bytes)
    → SendsAll (send c.fd)
    → length packet ≡ 1024
    → 1 < fuel
    → (n : ℕ) × (send_rounds send fuel packet rounds c wire ≡ done n (wire ++ copies rounds packet))
unfolding send_rounds copies send_message
sent_copies send fuel packet zero c wire all whole enough =
    (0, ap (λ w. done 0 w) (sym (append-nil wire)))
sent_copies send fuel packet (suc rounds) c wire all whole enough =
    let sent = send_data_blocks (send c.fd) 1 fuel packet wire all whole enough in
    let (n, rest) = sent_copies send fuel packet rounds c (wire ++ packet) all whole enough in
    (
      n,
      ap (λ o. then_send send fuel packet (λ w'. send_rounds send fuel packet rounds c w') o) sent
          ∙ rest
          ∙ ap (λ w. done n w) (append_assoc wire packet (copies rounds packet)),
    )

-- A client that could connect.
abbrev pub connected : ℤ → TcpClient
connected fd = record { fd = fd; is_running = true; has_thread = true }

started_client :
    (u : Setup)
    → is_negative u.socket_fd ≡ false
    → u.connected ≡ pos 0
    → start u new ≡ some (pos 0, connected u.socket_fd)
unfolding start
started_client u valid ready = ground (arith, valid, ready)

connected_stops :
    (fd : ℤ)
    → ((c : TcpClient) × (stop true (connected fd) ≡ stops c))
      × (stop false (connected fd) ≡ blocks)
unfolding stop
connected_stops fd = ((_, refl), refl)

-- Where the thread in `run` comes to its end once `stop` has been called, the client program runs to
-- its end with result 0, and where it does not, the program waits for it for ever. Either way what the
-- program has sent is one whole packet for each round: the signature, the type of `TcpServer_Show`,
-- the length of the text and the text, between bytes that were never set. This is for a socket that
-- connects and takes all it is given.
pub main_sends :
    (send : ℤ → Bytes → Bytes → ℤ × Bytes) (fuel : ℕ) (u : Setup) (memory : Bytes) (rounds : ℕ)
    (wire : Bytes)
    → SendsAll (send u.socket_fd)
    → is_negative u.socket_fd ≡ false
    → u.connected ≡ pos 0
    → length memory ≡ 1024
    → 1 < fuel
    → (run_main send fuel true u memory rounds wire
        ≡ exits (pos 0) (wire ++ copies rounds (hello_packet memory)))
      × (run_main send fuel false u memory rounds wire
          ≡ waits (wire ++ copies rounds (hello_packet memory)))
unfolding run_main
main_sends send fuel u memory rounds wire all valid ready whole enough =
    let packet : Bytes = hello_packet memory in
    let (n, sent) =
      sent_copies send fuel packet rounds (connected u.socket_fd) wire all
        (length-hello_packet memory whole) enough in
    let ((c, stopped), blocked) = connected_stops u.socket_fd in
    (
      rw (run_main, hello_parts memory whole, started_client u valid ready, sent, stopped) refl,
      rw (run_main, hello_parts memory whole, started_client u valid ready, sent, blocked) refl,
    )

stamped_type :
    (name memory : Bytes) → packet_type (stamp name (hello_packet memory)) ≡ pos tcp_message_show
unfolding stamp
stamped_type name memory = refl

-- A packet of the client program goes to the server's handler for type 1 once the server has put the
-- name of the sender into it, and `TcpServer_Show`, which is that handler, writes past its end. This
-- is for a registered sender whose name has at most 31 bytes and no zero.
pub hello_overruns :
    {W H : Type 0} (send : ℤ → Bytes → W → ℤ × W) (format : Bytes → Bytes → Bytes) (fuel : ℕ)
    (clients : Map Bytes Client) (router : Map ℤ H) (name memory packet : Bytes) (c : Client)
    (w : W)
    → length memory ≡ 1024
    → hello memory ≡ some packet
    → length name ≤ 31
    → All IsNonzero name
    → get_client name clients ≡ some c
    → (route router (stamp name packet) ≡ lookup (pos 1) router)
      × (show send format fuel clients (stamp name packet) w ≡ overruns)
unfolding route
hello_overruns send format fuel clients router name memory packet c w whole made short nonzero
      there =
    let same : packet ≡ hello_packet memory = ground (arith, made, hello_parts memory whole) in
    let total : length packet ≡ 1024 = rw same (length-hello_packet memory whole) in
    (
      rw same (ap (λ t. lookup t router) (stamped_type name memory)),
      show_overruns send format fuel clients name packet c w total short nonzero there,
    )
