-- ===== src/TcpServer/ReadExamples.antt =====
-- A packet that the server of tcpserver/src/tcpserver.cpp receives from one client, up to its handler.
use cpp_shared.Packet.{Packet, encode}
use cpp_shared.TcpServer.Catching.{catches_up}
use cpp_shared.TcpServer.{selecting, receive, queue_packet, select_round, visit}
use cpp_shared.TcpServer.System.{System, Reach, waiting, visits, later, started}
use cpp_shared.TcpServer.Carrying.{under_way}
use cpp_shared.PacketPool.{get}
use cpp_shared.TcpServer.Delivery.{Message, IsMessage, as_received, sees, means, handlers_see}
use cpp_shared.TcpServer.Examples.{only, queued_one, queued_reached, handled_one, handled_reached}
use cpp_shared.Prelude.{
  ℕ, true, ◌≡◌, refl, List, [], ◌∷◌, ◌++◌, Option, codes, ℤ, pos, Map, map, arith, length,
  replicate, length-replicate, insert, lookup, assign, bytes_key, All,
}

-- The packet of which every byte is 1.
abbrev packet : Packet
packet = record {
  signature = 257;
  type_ = 257;
  datasize = 257;
  src = replicate 32 1;
  dst = replicate 32 1;
  data_ = replicate 954 1;
}

abbrev messages : List Message
messages = record { sender = codes "h:1"; packet = packet } ∷ []

messages-IsMessage : All IsMessage messages
messages-IsMessage = (
  record {
    whole = record {
      signature_fits = omega arith;
      type_fits = omega arith;
      datasize_fits = omega arith;
      length-src = length-replicate {A = ℕ} 32 1;
      length-dst = length-replicate {A = ℕ} 32 1;
      length-data = length-replicate {A = ℕ} 954 1;
    };
    short = omega arith;
    nonzero = (omega arith, (omega arith, (omega arith, tt)));
  },
  tt,
)

received_one : handled_one.received ≡ map as_received messages
unfolding started select_round visit get insert lookup assign encode
received_one = refl

abbrev router : Map ℤ ℕ
router = (pos 257, 5) ∷ []

handlers_see_example :
    (rest : List (Packet × Option ℕ)) × (map (sees router) handled_one.handled ++ rest
      ≡ map (means router) messages)
    × (length rest ≡ length (under_way handled_one))
handlers_see_example =
    handlers_see router (pos 2) (pos 3) messages handled_reached messages-IsMessage received_one

-- The packet is in the queue, and `run` has come to the end of its loop over the clients.
abbrev passed_on : System
passed_on = record queued_one { server = only (visit 1 queued_one.server) }

passed_on_reached : Reach (started (pos 2) (pos 3)) passed_on
unfolding started select_round visit get insert lookup assign receive queue_packet
passed_on_reached = later queued_reached (visits 1 passed_on.server refl refl)

passed_on_runs : passed_on.server.is_running ≡ true
unfolding started select_round visit get insert lookup assign receive queue_packet
passed_on_runs = refl

passed_on_selects : passed_on.server.receiver ≡ selecting
unfolding started select_round visit get insert lookup assign receive queue_packet
passed_on_selects = refl

catches_up_example :
    (t : System) × Reach passed_on t
    × (t.processor ≡ waiting)
    × (t.server.data_queue ≡ [])
    × (t.received ≡ passed_on.received)
    × (t.handled ≡ passed_on.received)
catches_up_example = catches_up (pos 2) (pos 3) passed_on_reached passed_on_runs passed_on_selects
