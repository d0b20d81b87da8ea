-- ===== src/TcpServer/Ending.antt =====
-- The end of the server program, tcpserver/src/serverd.cpp.
use cpp_shared.TcpServer.{TcpServer, Client, visiting, visit, is_positive, destroy}
use cpp_shared.TcpServer.Process.{destroyed, stop, destroy_all}
use cpp_shared.TcpServer.System.{left, System, started, stops, Reach, later}
use cpp_shared.TcpServer.Clients.{visit_dead_last, destroy-is_negative, stop_drains}
use cpp_shared.TcpServer.Program.{
  Signal, stops_server, main_thread, continues, halted, WhileJoining, signal_handle,
}
use cpp_shared.TcpServer.Finishing.{WhileJoining_keeps, WhileJoining_reached, may_end}
use cpp_shared.Prelude.{
  ap, ℕ, zero, suc, ◌≡◌, refl, ◌∙◌, [], ◌∷◌, none, some, true, false, Bytes, ℤ, arith, get_elem?,
  length, Map,
}

stop_parts :
    (s t : TcpServer)
    → stop s ≡ some t
    → (t ≡ record t {
      fd = destroyed s.fd;
      is_running = false;
      clients = destroy_all s.clients;
      data_queue = [];
    })
      × (t.receiver ≡ s.receiver)
      × (t.lost ≡ s.lost)
unfolding stop
stop_parts s t e = ground arith

signal_handle-stop :
    (signal : Signal) (s t : System) (u : TcpServer)
    → s.server.is_running ≡ true
    → stops_server signal ≡ true
    → stop t.server ≡ some u
    → signal_handle signal main_thread false true (some t) s ≡ continues (record t { server = u })
unfolding signal_handle
signal_handle-stop signal s t u on wanted stopped = rw (wanted, on, stopped) refl

get_elem?-destroy_all :
    (m : Map Bytes Client) (i : ℕ) {key : Bytes} {c : Client}
    → get_elem? m i ≡ some (key, c)
    → get_elem? (destroy_all m) i ≡ some (key, destroy c)
get_elem?-destroy_all [] i e = ground arith
get_elem?-destroy_all ((key, c) ∷ m) zero e = ground arith
get_elem?-destroy_all ((key, c) ∷ m) (suc i) e = get_elem?-destroy_all m i e

length-destroy_all : (m : Map Bytes Client) → length (destroy_all m) ≡ length m
length-destroy_all [] = refl
length-destroy_all ((key, c) ∷ m) = ap suc (length-destroy_all m)

-- Where SIGINT or SIGTERM comes while `run` is at the last client of its loop, which is connected, and
-- interrupts it without the mutex locked, and the thread in `process` comes to its end, the loop goes
-- on behind the handler with a client that `stop` has closed, erases it and increments the iterator
-- `end()`, which is undefined behaviour. The server was running, and the thread can come to its end.
pub interrupted_visit_faults :
    (count_ fd : ℤ) {s t : System} (signal : Signal) (b : Bytes) (i : ℕ) (key : Bytes) (c : Client)
    → Reach (started count_ fd) s
    → s.server.is_running ≡ true
    → stops_server signal ≡ true
    → s.server.receiver ≡ visiting i
    → get_elem? s.server.clients i ≡ some (key, c)
    → suc i ≡ length s.server.clients
    → is_positive c.fd ≡ true
    → WhileJoining (halted s) t
    → t.processor ≡ left
    → ((u : System) × (signal_handle signal main_thread false true (some t) s ≡ continues u)
        × (u.server.receiver ≡ visiting i)
        × (visit i u.server ≡ none))
      × ((v : System) × WhileJoining (halted s) v × (v.processor ≡ left))
interrupted_visit_faults count_ fd {s} {t} signal b i key c r on wanted at there last open_ joining
      ended =
    let halting : Reach (started count_ fd) (halted s) = later r stops in
    let (u, stopped, empty, closed_, whole) =
      stop_drains count_ fd (WhileJoining_reached halting joining) ended in
    let (parts, receiver, lost) = stop_parts t.server u stopped in
    let (same_receiver, same_clients) = WhileJoining_keeps joining in
    let clients : u.clients ≡ destroy_all s.server.clients = rw (parts, same_clients) refl in
    (
      (
        record t { server = u },
        signal_handle-stop signal s t u on wanted stopped,
        receiver ∙ same_receiver ∙ at,
        visit_dead_last i u key (destroy c)
            (rw clients (get_elem?-destroy_all s.server.clients i there))
            (destroy-is_negative c open_) (rw (clients, length-destroy_all s.server.clients) last),
      ),
      may_end count_ fd b halting refl,
    )
