-- ===== src/TcpServer/StopExamples.antt =====
-- Runs of the server program of tcpserver/src/serverd.cpp that a signal ends.
use cpp_shared.TcpServer.{visiting, visit, select_round}
use cpp_shared.TcpServer.System.{waiting, left, System, started, selects, Reach, here, later}
use cpp_shared.TcpServer.Program.{
  sigint, main_thread, continues, halted, WhileJoining, no_step, ends, signal_handle,
}
use cpp_shared.TcpServer.Ending.{interrupted_visit_faults}
use cpp_shared.TcpServer.Examples.{client, begun, everything, connected}
use cpp_shared.Prelude.{
  ◌≡◌, refl, [], none, some, true, false, codes, pos, get_elem?, length, insert, lookup, assign,
  bytes_key,
}

connected_reached : Reach begun connected
unfolding started
connected_reached = later here (selects (pos 1) everything (some client) refl refl)

connected_client : get_elem? connected.server.clients 0 ≡ some (codes "h:1", client)
unfolding started select_round insert lookup assign
connected_client = refl

connected_visits : connected.server.receiver ≡ visiting 0
unfolding started select_round insert lookup assign
connected_visits = refl

connected_runs : connected.server.is_running ≡ true
unfolding started select_round insert lookup assign
connected_runs = refl

connected_last : 1 ≡ length connected.server.clients
unfolding started select_round insert lookup assign
connected_last = refl

-- The thread in `process` is waiting when the signal comes, and ends.
abbrev ended : System
ended = record (halted connected) { processor = left }

connected_waits : (halted connected).processor ≡ waiting
unfolding started select_round insert lookup assign
connected_waits = refl

joining : WhileJoining (halted connected) ended
joining = ends no_step connected_waits refl

interrupted_visit_faults_example :
    ((u : System) × (signal_handle sigint main_thread false true (some ended) connected
        ≡ continues u)
      × (u.server.receiver ≡ visiting 0)
      × (visit 0 u.server ≡ none))
    × ((v : System) × WhileJoining (halted connected) v × (v.processor ≡ left))
interrupted_visit_faults_example =
    interrupted_visit_faults (pos 2) (pos 3) sigint [] 0 (codes "h:1") client connected_reached
      connected_runs refl connected_visits connected_client connected_last refl joining refl
