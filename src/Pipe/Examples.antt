-- ===== src/Pipe/Examples.antt =====
-- Runs of the pipe, its server and its client, src/tcppipe.hpp.
use cpp_shared.Net.{Kind, Calls, Held}
use cpp_shared.Pipe.{goes_on, TcpServer, TcpClient, run, new_pipe, push, send_to}
use cpp_shared.Pipe.Texts.{pushed_is_printed}
use cpp_shared.Protocol.{throws, parse}
use cpp_shared.Select.{again, pass}
use cpp_shared.Select.Passes.{Calls as PassCalls}
use cpp_shared.Sending.Conforming.{SendsAll}
use cpp_shared.Net.{is_negative}
use cpp_shared.Prelude.{
  ℕ, suc, ◌≡◌, ◌≢◌, ◌⊎◌, refl, List, [], ◌∷◌, ◌++◌, Option, none, some, true, false, arith, length,
  Bytes, codes, ℤ, pos, negsuc,
}

-- The state counts the descriptors; `connect` has the given result.
abbrev system : ℤ → Calls
system connected = record {
  State = ℕ;
  socket = λ k n. (pos n, suc n);
  set_reuse = λ fd opt n. (pos 0, n);
  bind = λ fd host port n. (pos 0, n);
  listen = λ fd count n. (pos 0, n);
  connect = λ fd host port n. (connected, n);
  accept = λ fd n. ((pos n, []), suc n);
  name_info = λ address. none;
  get_flags = λ fd n. 0;
  set_flags = λ fd flags n. n;
  receive = λ fd size n. ((pos 0, []), n);
  shutdown = λ fd n. (pos 0, n);
  close = λ fd n. n;
}

abbrev idle_socket : Held (system (pos 0))
idle_socket = record { fd = negsuc 0; port = 8080; host = codes "127.0.0.1"; state = 3 }

abbrev quiet : TcpServer (system (pos 0))
quiet = record { socket = idle_socket; is_running = false; has_thread = false }

abbrev spawned : TcpServer (system (pos 0))
spawned = record quiet { has_thread = true }

spawned_by_run : run (system (pos 0)) quiet ≡ goes_on spawned
unfolding run
spawned_by_run = refl

abbrev serving : TcpServer (system (pos 0))
serving = record {
  socket = record { fd = pos 3; port = 8080; host = codes "127.0.0.1"; state = 4 };
  is_running = false;
  has_thread = true;
}

abbrev client : TcpClient (system (pos 0))
client = record {
  socket = record { fd = pos 4; port = 8080; host = codes "127.0.0.1"; state = 5 };
  is_running = some true;
  has_thread = true;
}

first_pipe : new_pipe (system (pos 0)) (codes "localhost") 80 quiet ≡ goes_on (serving, client)
unfolding new_pipe cpp_shared.Net.Setup.start cpp_shared.Net.Connecting.connect_host
first_pipe = refl

abbrev network : Bytes → Bytes → ℤ × Bytes
network chunk wire = (pos (length chunk), wire ++ chunk)

network-SendsAll : SendsAll network
network-SendsAll chunk wire = refl

abbrev message : Bytes
message = codes "hello"

abbrev calls : PassCalls
calls n = (pos 1, message)

pushed_is_printed_example :
    (push network 0 message [] ≡ some (true, message))
    × ((sockets' : ℕ → ℤ) × (before : List (Bytes × Bytes)) × (after : List (Bytes × Bytes)) × (pass
            ((codes "c:1", 0) ∷ [])
            calls
            (λ n. pos 5, [])
          ≡ again (sockets', before ++ ((codes "c:1", message) ∷ after))))
unfolding cpp_shared.Prelude.lookup
pushed_is_printed_example =
    pushed_is_printed network 0 b'h' (codes "ello") ((codes "c:1", 0) ∷ []) (λ n. pos 5) calls
      (codes "c:1") 0 network-SendsAll (omega arith)
      (record { all_fit = (refl, tt); distinct = (tt, tt) }) (λ n. refl) refl refl

abbrev sent : Bytes
sent = codes "service:forward,from:h:1,to:h:2,content:x"

sent_whole : send_to network 9 (codes "h:1") (codes "h:2") (codes "x") [] ≡ some (true, sent)
unfolding send_to cpp_shared.Protocol.build cpp_shared.Sending.send_message
sent_whole = refl
