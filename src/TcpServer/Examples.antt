-- ===== src/TcpServer/Examples.antt =====
-- Runs of the server of tcpserver/src/tcpserver.cpp: one client connects, and its first packet is
-- received or lost.
use cpp_shared.Memory.Addresses.{count, is_live}
use cpp_shared.PacketPool.{get}
use cpp_shared.TcpServer.{
  TcpServer, Client, state_terminate, receiving, destroy, select_round, visit, receive,
  queue_packet, is_negative,
}
use cpp_shared.TcpServer.Process.{takes, breaks, undefined, take_packet, give_back}
use cpp_shared.TcpServer.System.{
  handling, returning, left, System, started, selects, visits, receives, queues, processor_takes,
  processor_handles, processor_leaves, stops, after_receive, Reach, here, later,
}
use cpp_shared.TcpServer.Accounting.{receiver_hand, processor_hand}
use cpp_shared.TcpServer.Order.{take_never_faults}
use cpp_shared.TcpServer.Safety.{packets_accounted, pool_never_faults, failed_receive_leaks}
use cpp_shared.TcpServer.Carrying.{unqueued, unhandled}
use cpp_shared.TcpServer.Contents.{messages_intact}
use cpp_shared.Prelude.{
  map, ◌+◌, ◌≡◌, ◌≢◌, refl, [], ◌∷◌, ◌++◌, Option, none, some, Bool, true, false, Bytes, codes, ℤ,
  pos, get_elem?, length, replicate, lookup, insert, assign, bytes_key, ◌==◌, if◌then◌else◌,
}

abbrev pub client : Client
client = record { fd = pos 4; name = codes "h:1" }

abbrev pub begun : System
begun = started (pos 2) (pos 3)

abbrev pub everything : ℤ → Bool
everything g = true

abbrev pub only : Option TcpServer → TcpServer
only none = begun.server
only (some t) = t

abbrev pub connected : System
connected = record begun { server = select_round (pos 1) everything (some client) begun.server }

abbrev asked : System
asked = record connected { server = only (visit 0 connected.server) }

abbrev filled : System
filled = after_receive (pos 1024) (replicate 1024 1) 0 0 asked

abbrev pub queued_one : System
queued_one = record filled { server = queue_packet 0 0 filled.server; queued = 0 ∷ [] }

abbrev only_taken : System → TcpServer
only_taken s = elim (take_packet s.server) [ takes packet t ↦ t | _ ↦ begun.server ]

abbrev taken_one : System
taken_one = record queued_one {
  server = only_taken queued_one;
  processor = handling 0;
  taken = 0 ∷ [];
}

asked_reached : Reach begun asked
unfolding started select_round visit get insert lookup assign
asked_reached =
    later (later here (selects (pos 1) everything (some client) refl refl))
      (visits 0 asked.server refl refl)

filled_reached : Reach begun filled
unfolding started select_round visit get insert lookup assign
filled_reached = later asked_reached (receives 0 0 (pos 1024) (replicate 1024 1) refl)

pub queued_reached : Reach begun queued_one
unfolding started select_round visit get insert lookup assign receive
queued_reached = later filled_reached (queues 0 0 refl)

taken_reached : Reach begun taken_one
unfolding started select_round visit get insert lookup assign receive queue_packet take_packet
taken_reached = later queued_reached (processor_takes 0 taken_one.server refl refl)

abbrev pub handled_one : System
handled_one = record taken_one {
  server = record (taken_one.server) {
    object_pool = record (taken_one.server.object_pool) {
      contents = λ q. if q == 0 then [] else taken_one.server.object_pool.contents q;
    };
  };
  processor = returning 0;
  handled = taken_one.server.object_pool.contents 0 ∷ [];
}

pub handled_reached : Reach begun handled_one
unfolding started
handled_reached = later taken_reached (processor_handles 0 [] refl)

abbrev halting : System
halting = record queued_one { server = record (queued_one.server) { is_running = false } }

abbrev halted : System
halted = record halting { processor = left }

halted_reached : Reach begun halted
unfolding started
halted_reached = later (later queued_reached stops) (processor_leaves refl refl)

take_never_faults_example :
    (take_packet queued_one.server ≢ undefined)
    × (take_packet queued_one.server ≢ breaks begun.server)
    × (queued_one.server.state ≢ state_terminate)
take_never_faults_example = take_never_faults (pos 2) (pos 3) begun.server queued_reached

packets_accounted_example :
    is_live (taken_one.server.object_pool.heap.sizes 0)
    ≡ count 0 taken_one.server.object_pool.pool
      + count 0 taken_one.server.data_queue
      + count 0 (receiver_hand taken_one.server.receiver)
      + count 0 (processor_hand taken_one.processor)
      + count 0 taken_one.server.lost
packets_accounted_example = packets_accounted (pos 2) (pos 3) 0 taken_reached

pool_never_faults_example :
    (get handled_one.server.object_pool ≢ none) × (give_back 0 handled_one.server ≢ none)
pool_never_faults_example = pool_never_faults (pos 2) (pos 3) handled_reached

abbrev leaked : System
leaked = after_receive (pos 0) [] 0 0 asked

asked_receives : asked.server.receiver ≡ receiving 0 0
unfolding started select_round visit get insert lookup assign
asked_receives = refl

asked_client : get_elem? asked.server.clients 0 ≡ some (codes "h:1", client)
unfolding started select_round visit get insert lookup assign
asked_client = refl

failed_receive_leaks_example :
    (is_live (leaked.server.object_pool.heap.sizes 0) ≡ 1)
    × (count 0 leaked.server.object_pool.pool ≡ 0)
    × (count 0 leaked.server.data_queue ≡ 0)
    × (count 0 (receiver_hand leaked.server.receiver) ≡ 0)
    × (count 0 (processor_hand leaked.processor) ≡ 0)
failed_receive_leaks_example =
    failed_receive_leaks (pos 2) (pos 3) {s = asked} {t = leaked} 0 0 (pos 0) []
      (codes "h:1", client) asked_reached asked_receives asked_client refl here

abbrev nothing_ready : ℤ → Bool
nothing_ready g = false

one_client : 1 ≡ length asked.server.clients
unfolding started select_round visit get insert lookup assign
one_client = refl

abbrev dead : Client
dead = destroy client

abbrev two_clients : TcpServer
two_clients = record (begun.server) { clients = (codes "h:1", dead) ∷ (codes "h:2", client) ∷ [] }

dead_fd : is_negative dead.fd ≡ true
unfolding destroy
dead_fd = refl

abbrev pub packet : Bytes
packet = replicate 1024 1

messages_intact_example :
    handled_one.received
    ≡ handled_one.handled
      ++ map handled_one.server.object_pool.contents (
          unhandled handled_one.processor
          ++ (handled_one.server.data_queue ++ unqueued handled_one.server.receiver))
messages_intact_example = messages_intact (pos 2) (pos 3) handled_reached
