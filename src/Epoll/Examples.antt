-- ===== src/Epoll/Examples.antt =====
-- A run of the server over `epoll` of src/tcppipe.hpp: one client connects and closes.
use cpp_shared.Epoll.{Epoll, run_setup, Accepted, add_socket, Event, handle}
use cpp_shared.Epoll.Sessions.{Reach, here, later, handle_never_faults}
use cpp_shared.Prelude.{
  ◌≢◌, refl, [], none, some, true, false, pos, negsuc, codes, int_eq, if◌then◌else◌,
}

abbrev idle : Epoll
idle = record {
  fd = pos 3;
  is_running = false;
  epfd = negsuc 0;
  socket_map = [];
  fd2socket = [];
  sockets = λ n. negsuc 0;
  next = 0;
  interest = λ g. false;
}

abbrev running : Epoll
running = record idle {
  is_running = true;
  epfd = pos 4;
  interest = λ g. if int_eq g (pos 3) then true else false;
}

abbrev client : Accepted
client = record { fd = pos 5; address = codes "h:1"; added = pos 0 }

abbrev connection : Event
connection = record { fd = pos 3; is_epollin = true; accepted = some client; content = [] }

abbrev connected : Epoll
connected = add_socket client running

abbrev closing : Event
closing = record { fd = pos 5; is_epollin = true; accepted = none; content = [] }

connected_reached : Reach running connected
unfolding handle
connected_reached = later connection here refl refl

handle_never_faults_example : handle closing connected ≢ none
unfolding run_setup
handle_never_faults_example =
    handle_never_faults (pos 4) (pos 0) idle {t = running} closing (λ g. refl) refl
      connected_reached refl
