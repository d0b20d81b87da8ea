-- ===== src/Client/Session.antt =====
-- A session of packets from one side to the other: tcpserver/src/packet.h, the sending loop of
-- tcpserver/src/socket.hpp, and `run` of tcpserver/src/tcpclient.cpp.
use cpp_shared.Client.{TcpClient, run, run_round, then_calls, received, send_message}
use cpp_shared.Client.Delivery.{whole_buffer}
use cpp_shared.Packet.{Packet, encode, decode, IsPacket}
use cpp_shared.Packet.Layout.{decode-encode, length-encode}
use cpp_shared.Packet.Fields.{packet_type-encode}
use cpp_shared.Sending.{sent_by}
use cpp_shared.Sending.Conforming.{SendsAll}
use cpp_shared.Sending.Packets.{send_data_blocks}
use cpp_shared.TcpServer.Process.{packet_type}
use cpp_shared.Prelude.{
  ℕ, zero, suc, ◌≡◌, refl, sym, ap, ◌∙◌, List, [], ◌∷◌, ◌++◌, append-nil, append_assoc, Option,
  none, some, Bytes, ℤ, pos, Map, lookup, int_key, map, length, take, drop, take_first, drop_first,
  All, arith,
}

-- Packets that are sent one after the other; the wire after them.
abbrev and_send : {W : Type 0} → (W → Option W) → Option W → Option W
and_send f none = none
and_send f (some w) = f w

unfoldable pub send_each :
    {W : Type 0} → (ℤ → Bytes → W → ℤ × W) → TcpClient → List Packet → W → Option W
send_each send c [] w = some w
send_each send c (p ∷ ps) w =
    and_send (send_each send c ps) (sent_by (send_message send 2 (encode p) c w))

-- The wire as blocks of 1024 bytes, each the result of one `recv`.
unfoldable pub received_in_blocks : ℕ → Bytes → List (ℤ × Bytes)
received_in_blocks zero wire = []
received_in_blocks (suc n) wire = (pos 1024, take 1024 wire) ∷ received_in_blocks n (drop 1024 wire)

-- The handlers that are meant, with the packets that they are meant to get.
abbrev pub with_packet : {H : Type 0} → Packet → Option H → Option (H × Packet)
with_packet p none = none
with_packet p (some h) = some (h, p)

unfoldable pub meant_calls : {H : Type 0} → Map ℤ H → List Packet → List (H × Packet)
meant_calls router [] = []
meant_calls router (p ∷ ps) =
    then_calls (with_packet p (lookup (pos p.type_) router)) (meant_calls router ps)

-- A call of a handler as the handler reads its argument.
abbrev pub as_read : {H : Type 0} → H × Bytes → H × Packet
as_read (h, b) = (h, decode b)

joined : List Packet → Bytes
joined [] = []
joined (p ∷ ps) = encode p ++ joined ps

send_each-joined :
    (send : ℤ → Bytes → Bytes → ℤ × Bytes) (c : TcpClient) (ps : List Packet) (wire : Bytes)
    → SendsAll (send c.fd)
    → All IsPacket ps
    → send_each send c ps wire ≡ some (wire ++ joined ps)
unfolding send_each send_message joined
send_each-joined send c [] wire all h = ap some (sym (append-nil wire))
send_each-joined send c (p ∷ ps) wire all h =
    rw
      (
        send_message,
        send_data_blocks (send c.fd) 1 2 (encode p) wire all (length-encode p h.0) (omega arith),
      )
      (send_each-joined send c ps (wire ++ encode p) all h.1
        ∙ ap some (append_assoc wire (encode p) (joined ps)))

blocks-joined :
    (ps : List Packet)
    → All IsPacket ps
    → received_in_blocks (length ps) (joined ps) ≡ map (λ p. (pos 1024, encode p)) ps
unfolding received_in_blocks joined
blocks-joined [] h = refl
blocks-joined (p ∷ ps) h =
    let whole : 1024 ≡ length (encode p) = sym (length-encode p h.0) in
    rw
      (
        take_first 1024 (encode p) (joined ps) whole,
        drop_first 1024 (encode p) (joined ps) whole,
        blocks-joined ps h.1,
      )
      refl

known_type :
    {H : Type 0} (router : Map ℤ H) (p : Packet)
    → IsPacket p
    → lookup (packet_type (received (encode p))) router ≡ lookup (pos p.type_) router
known_type router p h =
    ap (λ b. lookup (packet_type b) router) (whole_buffer (encode p) (length-encode p h))
    ∙ ap (λ t. lookup t router) (packet_type-encode p h)

round-encode :
    {H : Type 0} (router : Map ℤ H) (p : Packet) (o : Option H)
    → IsPacket p
    → lookup (packet_type (received (encode p))) router ≡ o
    → (calls : List (H × Bytes))
    → map as_read (then_calls (run_round router (pos 1024) (encode p)) calls)
      ≡ then_calls (with_packet p o) (map as_read calls)
unfolding run_round
round-encode router p none h e calls = rw (run_round, e) refl
round-encode router p (some f) h e calls =
    rw (run_round, e)
      (ap (λ b. (f, decode b) ∷ map as_read calls) (whole_buffer (encode p) (length-encode p h))
        ∙ ap (λ q. (f, q) ∷ map as_read calls) (decode-encode p h))

run-blocks :
    {H : Type 0} (router : Map ℤ H) (ps : List Packet)
    → All IsPacket ps
    → map as_read (run router (map (λ p. (pos 1024, encode p)) ps)) ≡ meant_calls router ps
unfolding run meant_calls
run-blocks router [] h = refl
run-blocks router (p ∷ ps) h =
    round-encode router p (lookup (pos p.type_) router) h.0 (known_type router p h.0)
      (run router (map (λ p'. (pos 1024, encode p')) ps))
    ∙ ap (then_calls (with_packet p (lookup (pos p.type_) router))) (run-blocks router ps h.1)

-- Any packets that one side sends, one after the other, over a socket that takes all it is given, are
-- what the other side's handlers are called with, each the one for the type of its packet and in their
-- order, if each `recv` returns 1024 bytes of the wire; packets of a type without a handler are
-- passed over.
pub packets_delivered :
    {H : Type 0} (send : ℤ → Bytes → Bytes → ℤ × Bytes) (router : Map ℤ H) (c : TcpClient)
    (ps : List Packet)
    → SendsAll (send c.fd)
    → All IsPacket ps
    → (wire : Bytes) × (send_each send c ps [] ≡ some wire)
      × (map as_read (run router (received_in_blocks (length ps) wire)) ≡ meant_calls router ps)
packets_delivered send router c ps all h = (
  joined ps,
  send_each-joined send c ps [] all h,
  ap (λ rs. map as_read (run router rs)) (blocks-joined ps h) ∙ run-blocks router ps h,
)
