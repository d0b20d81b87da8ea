-- ===== src/Net/Examples.antt =====
-- Runs of the sockets over a small system, for src/tcppipe.hpp and tcpserver/src.
use cpp_shared.Net.{Calls, IsLawful, opened, Held}
use cpp_shared.Net.Setup.{init, succeeded, init_releases}
use cpp_shared.Prelude.{
  ℕ, suc, ◌≡◌, refl, [], none, some, Bool, true, false, not, ◌&&◌, arith, if◌then◌else◌, ltb, ℤ,
  pos, negsuc, int_eq, int_eq_iff,
}

-- The next descriptor, and which ones below it are closed.
record World : Type 0 where
  next : ℕ
  closed : ℤ → Bool

abbrev below : ℤ → ℕ → Bool
below (pos k) n = ltb k n
below (negsuc k) n = false

abbrev is_open : World → ℤ → Bool
is_open w g = below g w.next && not (w.closed g)

abbrev make : World → ℤ × World
make w = (
  pos w.next,
  record { next = suc w.next; closed = λ g. if int_eq g (pos w.next) then false else w.closed g },
)

-- A system whose `bind` and `connect` have the given results, and that names no peer.
abbrev system : ℤ → ℤ → Calls
system bound connected = record {
  State = World;
  socket = λ k w. make w;
  set_reuse = λ fd opt w. (pos 0, w);
  bind = λ fd host port w. (bound, w);
  listen = λ fd count w. (pos 0, w);
  connect = λ fd host port w. (connected, w);
  accept = λ fd w. (((make w).0, []), (make w).1);
  name_info = λ address. none;
  get_flags = λ fd w. 0;
  set_flags = λ fd flags w. w;
  receive = λ fd size w. ((pos 0, []), w);
  shutdown = λ fd w. (pos 0, w);
  close = λ fd w. record w { closed = λ g. if int_eq g fd then true else w.closed g };
}

make-opened : (w : World) (g : ℤ) → is_open (make w).1 g ≡ opened (make w).0 (is_open w) g
make-opened w g = ground (arith, int_eq_iff g (pos w.next))

make-fresh : (w : World) → is_open w (make w).0 ≡ false
make-fresh w = ground arith

closed-open :
    (fd : ℤ) (w : World) (g : ℤ)
    → is_open (record w { closed = λ k. if int_eq k fd then true else w.closed k }) g
      ≡ (if int_eq g fd then false else is_open w g)
closed-open fd w g = ground arith

abbrev system-IsLawful : (bound connected : ℤ) → IsLawful (system bound connected)
system-IsLawful bound connected = record {
  is_open = is_open;
  open-socket = λ k w g. make-opened w g;
  fresh-socket = λ k w valid. make-fresh w;
  open-set_reuse = λ fd opt w g. refl;
  open-bind = λ fd host port w g. refl;
  open-listen = λ fd count w g. refl;
  open-connect = λ fd host port w g. refl;
  open-accept = λ fd w g. make-opened w g;
  fresh-accept = λ fd w valid. make-fresh w;
  open-shutdown = λ fd w g. refl;
  open-close = λ fd w g. closed-open fd w g;
}

-- The three standard descriptors are open.
abbrev world : World
world = record { next = 3; closed = λ g. false }

abbrev socket_of : (bound connected : ℤ) → World → Held (system bound connected)
socket_of bound connected w = record { fd = negsuc 0; port = 0; host = []; state = w }

abbrev unbound : Held (system (negsuc 0) (pos 0))
unbound = socket_of (negsuc 0) (pos 0) world

-- A socket whose `bind` fails: the descriptor 3 is closed again.
init_releases_example :
    is_open (init (system (negsuc 0) (pos 0)) 8080 (pos 5) unbound).1.state (pos 3) ≡ (
      if succeeded (init (system (negsuc 0) (pos 0)) 8080 (pos 5) unbound).0
      then opened
          (init (system (negsuc 0) (pos 0)) 8080 (pos 5) unbound).1.fd
          (is_open world)
          (pos 3)
      else is_open world (pos 3))
init_releases_example =
    init_releases (system (negsuc 0) (pos 0)) (system-IsLawful (negsuc 0) (pos 0)) 8080 (pos 5)
      unbound (pos 3) refl

abbrev idle : Held (system (pos 0) (negsuc 0))
idle = socket_of (pos 0) (negsuc 0) world

init_succeeds : (init (system (pos 0) (negsuc 0)) 8080 (pos 5) idle).0 ≡ some (pos 0)
unfolding init
init_succeeds = refl
