-- ===== src/Epoll.antt =====
-- The server over `epoll` of src/tcppipe.hpp: `AbstractServer::start`, and `Epoll::run` with
-- `Epoll::receive`. The results of the system calls are arguments. What is printed is left out.
pub mod Sessions
mod Ending
mod Examples
use cpp_shared.Prelude.{
  ℕ, suc, List, [], ◌∷◌, Option, none, some, Bool, true, false, if◌then◌else◌, Bytes, ℤ, pos,
  negsuc, int_eq, Map, lookup, insert, erase, int_key, bytes_key,
}

-- The shared sockets by a number, with their descriptors; `interest` has the descriptors that the
-- `epoll` instance watches.
pub record Epoll : Type 0 where
  pub fd : ℤ
  pub is_running : Bool
  pub epfd : ℤ
  pub socket_map : Map Bytes ℕ
  pub fd2socket : Map ℤ ℕ
  pub sockets : ℕ → ℤ
  pub next : ℕ
  pub interest : ℤ → Bool

abbrev pub is_negative : ℤ → Bool
is_negative (pos n) = false
is_negative (negsuc n) = true

-- The results of `socket`, `bind` and `listen`.
pub record Setup : Type 0 where
  pub socket_fd : ℤ
  pub bound : ℤ
  pub listened : ℤ

-- `AbstractServer::start`; `none` is the exception of `Socket::tcp`. Its other errors only close the
-- socket: `std::runtime_error` is made there and not thrown.
abbrev pub start_idle : Setup → Epoll → Option Epoll
start_idle u s =
    if is_negative u.socket_fd
    then none
    else if int_eq u.bound (pos 0)
    then (if int_eq u.listened (pos 0)
        then some (record s { fd = u.socket_fd })
        else some (record s { fd = negsuc 0 }))
    else some (record s { fd = negsuc 0 })

unfoldable pub start : Setup → Epoll → Option Epoll
start u s = if s.is_running then some s else start_idle u s

abbrev pub watch : ℤ → Bool → (ℤ → Bool) → ℤ → Bool
watch fd b s g = if int_eq g fd then b else s g

-- `Epoll::run` up to its loop, and whether it comes there: `added` is the result of `epoll_ctl` for
-- the server's descriptor. Where a call fails the server counts as running all the same.
unfoldable pub run_setup : ℤ → ℤ → Epoll → Bool × Epoll
run_setup epfd added s =
    let s' : Epoll = record s { is_running = true; epfd = epfd } in
    if s.is_running
    then (false, s)
    else if is_negative epfd
    then (false, s')
    else if is_negative added
    then (false, s')
    else (true, record s' { interest = watch s.fd true s.interest })

-- What `accepting` returned, a descriptor and an address, and the result of `epoll_ctl` for it.
pub record Accepted : Type 0 where
  pub fd : ℤ
  pub address : Bytes
  pub added : ℤ

-- A failure of that `epoll_ctl` closes the `epoll` instance, and the loop goes on.
abbrev pub add_socket : Accepted → Epoll → Epoll
add_socket a s = record s {
  socket_map = insert a.address s.next s.socket_map;
  fd2socket = insert a.fd s.next s.fd2socket;
  sockets = λ n. if int_eq (pos n) (pos s.next) then a.fd else s.sockets n;
  next = suc s.next;
  interest = if is_negative a.added then (λ g. false) else watch a.fd true s.interest;
}

abbrev pub accept : Option Accepted → Epoll → Epoll
accept none s = s
accept (some a) s = add_socket a s

-- `receive` where `recvMessage` gave nothing: `epoll_ctl` with EPOLL_CTL_DEL, `destroy`, `erase`
abbrev pub close_socket : ℤ → ℕ → Epoll → Epoll
close_socket fd n s = record s {
  interest = watch fd false s.interest;
  sockets = λ m. if int_eq (pos m) (pos n) then negsuc 0 else s.sockets m;
  fd2socket = erase fd s.fd2socket;
}

-- `fd2Socket[fd]` of a descriptor that is not there is a null pointer: `none`.
abbrev pub receive_from : ℤ → List ℕ → Epoll → Option ℕ → Option Epoll
receive_from fd content s none = none
receive_from fd [] s (some n) = some (close_socket fd n s)
receive_from fd (c ∷ content) s (some n) = some s

unfoldable pub receive : ℤ → Bytes → Epoll → Option Epoll
receive fd content s = receive_from fd content s (lookup fd s.fd2socket)

-- One entry of `eventList`; `accepted` and `content` are what the calls for it return.
pub record Event : Type 0 where
  pub fd : ℤ
  pub is_epollin : Bool
  pub accepted : Option Accepted
  pub content : Bytes

unfoldable pub handle : Event → Epoll → Option Epoll
unfolding receive
handle e s =
    if e.is_epollin
    then (if int_eq e.fd s.fd then some (accept e.accepted s) else receive e.fd e.content s)
    else some s

abbrev pub destroy_each : Map Bytes ℕ → (ℕ → ℤ) → ℕ → ℤ
destroy_each [] sockets = sockets
destroy_each ((key, n) ∷ m) sockets =
    destroy_each m (λ k. if int_eq (pos k) (pos n) then negsuc 0 else sockets k)

-- `~AbstractServer`
unfoldable pub destroy_server : Epoll → Epoll
destroy_server s = record s { fd = negsuc 0; sockets = destroy_each s.socket_map s.sockets }
