-- ===== src/Packet/Examples.antt =====
-- Runs over packets of tcpserver/src/packet.h.
use cpp_shared.Packet.{Packet, encode, decode, IsPacket, IsBlock, IsByte}
use cpp_shared.Packet.Layout.{encode-decode}
use cpp_shared.Packet.Fields.{named, stamp-encode, greeted, hello-decode}
use cpp_shared.Client.{new, run}
use cpp_shared.Client.Session.{
  send_each, received_in_blocks, meant_calls, as_read, packets_delivered,
}
use cpp_shared.Client.Program.{hello}
use cpp_shared.TcpServer.{stamp}
use cpp_shared.TcpServer.Process.{route}
use cpp_shared.TcpServer.Show.{c_string}
use cpp_shared.Prelude.{
  refl, List, length, map, ◌++◌, ℕ, zero, suc, All, ◌≡◌, [], ◌∷◌, some, Bytes, codes, ℤ, pos, Map,
  lookup, int_key, replicate, length-replicate, arith,
}

abbrev packet : Packet
packet = record {
  signature = 44814;
  type_ = 1;
  datasize = 2;
  src = replicate 32 7;
  dst = replicate 32 8;
  data_ = replicate 954 9;
}

packet-IsPacket : IsPacket packet
packet-IsPacket = record {
  signature_fits = omega arith;
  type_fits = omega arith;
  datasize_fits = omega arith;
  length-src = length-replicate {A = ℕ} 32 7;
  length-dst = length-replicate {A = ℕ} 32 8;
  length-data = length-replicate {A = ℕ} 954 9;
}

abbrev router : Map ℤ ℕ
router = (pos 1, 5) ∷ []

stamp-encode_example :
    (decode (stamp (codes "h:1") (encode packet)) ≡ named (codes "h:1") packet)
    × (route router (stamp (codes "h:1") (encode packet)) ≡ lookup (pos 1) router)
    × (c_string (decode (stamp (codes "h:1") (encode packet))).src ≡ codes "h:1")
stamp-encode_example =
    stamp-encode router (codes "h:1") packet packet-IsPacket (omega arith)
      (omega arith, (omega arith, (omega arith, tt)))

abbrev memory : Bytes
memory = replicate 1024 1

replicate-All : (n v : ℕ) → IsByte v → All IsByte (replicate n v)
replicate-All zero v h = tt
replicate-All (suc n) v h = (h, replicate-All n v h)

memory-IsBlock : IsBlock memory
memory-IsBlock = record {
  whole = length-replicate {A = ℕ} 1024 1;
  bytes = replicate-All 1024 1 (omega arith);
}

encode-decode_example : encode (decode memory) ≡ memory
encode-decode_example = encode-decode memory memory-IsBlock

hello-decode_example : hello memory ≡ some (encode (greeted (decode memory)))
hello-decode_example = hello-decode memory memory-IsBlock

abbrev send : ℤ → Bytes → Bytes → ℤ × Bytes
send fd chunk wire = (pos (length chunk), wire ++ chunk)

-- Handler 5 is called twice; the packet between has no handler.
abbrev packets : List Packet
packets = packet ∷ record packet { type_ = 2 } ∷ packet ∷ []

packets-IsPacket : All IsPacket packets
packets-IsPacket = (
  packet-IsPacket,
  (
    record {
      signature_fits = packet-IsPacket.signature_fits;
      type_fits = omega arith;
      datasize_fits = packet-IsPacket.datasize_fits;
      length-src = packet-IsPacket.length-src;
      length-dst = packet-IsPacket.length-dst;
      length-data = packet-IsPacket.length-data;
    },
    (packet-IsPacket, tt),
  ),
)

meant_twice : meant_calls router packets ≡ (5, packet) ∷ (5, packet) ∷ []
unfolding meant_calls lookup
meant_twice = refl

packets_delivered_example :
    (wire : Bytes) × (send_each send new packets [] ≡ some wire)
    × (map as_read (run router (received_in_blocks (length packets) wire))
        ≡ meant_calls router packets)
packets_delivered_example =
    packets_delivered send router new packets (λ chunk wire. refl) packets-IsPacket
