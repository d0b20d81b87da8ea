-- ===== src/Client/Delivery.antt =====
-- A packet on its way to the handlers of a client, and the end of a client:
-- tcpserver/src/tcpclient.cpp.
use cpp_shared.Client.{
  TcpClient, new, Setup, start, throws, stop, received, run_round, send_message,
}
use cpp_shared.Sending.{done}
use cpp_shared.Sending.Conforming.{SendsAll}
use cpp_shared.Sending.Packets.{send_data_blocks}
use cpp_shared.TcpServer.Process.{packet_type}
use cpp_shared.Prelude.{
  Bool, true, false, ℕ, ◌≡◌, ◌≢◌, ◌⊎◌, refl, ap, ◌∙◌, [], ◌++◌, some, drop, length, replicate,
  append-nil, Bytes, ℤ, pos, negsuc, Map, lookup, int_key, arith,
}

pub whole_buffer : (b : Bytes) → length b ≡ 1024 → received b ≡ b
whole_buffer b e =
    let rest : drop (length b) (replicate {A = ℕ} 1024 0) ≡ [] = rw e refl in
    ap (λ l. b ++ l) rest ∙ append-nil b

-- A packet of 1024 bytes that one side sends over a socket that takes all it is given is what the
-- other side's handler for its type is called with, if `recv` returns it whole.
packet_delivered :
    {H : Type 0} (send : ℤ → Bytes → Bytes → ℤ × Bytes) (router : Map ℤ H) (c : TcpClient)
    (packet : Bytes) (h : H)
    → SendsAll (send c.fd)
    → length packet ≡ 1024
    → lookup (packet_type packet) router ≡ some h
    → (wire : Bytes) × (send_message send 2 packet c [] ≡ done 1024 wire)
      × (run_round router (pos (length wire)) wire ≡ some (h, packet))
unfolding send_message run_round lookup
packet_delivered send router c packet h all whole handled =
    let known : lookup (packet_type (received packet)) router ≡ some h =
      rw (whole_buffer packet whole) handled in
    (
      packet,
      send_data_blocks (send c.fd) 1 2 packet [] all whole (omega arith)
          ∙ ap (λ n. done n packet) whole,
      rw (run_round, whole, known) (ap (λ b. some (h, b)) (whole_buffer packet whole)),
    )

-- After a `start` that could not connect, which returns -1, `stop` throws: the client counts as
-- running from its construction on, and there is no thread to join. After one that could, it does not.
stop-start :
    (ends : Bool) (u : Setup) (ret : ℤ) (c : TcpClient)
    → start u new ≡ some (ret, c)
    → ((ret ≡ pos 0) × (stop ends c ≢ throws)) ⊎ ((ret ≡ negsuc 0) × (stop ends c ≡ throws))
unfolding start stop
stop-start true u ret c e = ground arith
stop-start false u ret c e = ground arith
