-- ===== src/Net/Refining.antt =====
-- The models of `init`, `start` and `connectTo` whose system calls are given by their results, against
-- the ones over the system calls: tcpserver/src/tcpserver.cpp, src/tcppipe.hpp.
use cpp_shared.Net.{Calls, tcp, htons, Held}
use cpp_shared.Net.Setup.{init, start}
use cpp_shared.TcpServer.Process
use cpp_shared.TcpServer.{destroy}
use cpp_shared.Epoll
use cpp_shared.Prelude.{
  ℕ, ◌≡◌, ◌⊎◌, inl, inr, refl, Option, none, some, false, arith, Bytes, ℤ, pos, negsuc,
}

int-cases : (x : ℤ) → ((n : ℕ) × (x ≡ pos n)) ⊎ ((n : ℕ) × (x ≡ negsuc n))
int-cases (pos n) = inl (n, refl)
int-cases (negsuc n) = inr (n, refl)

module _ (c : Calls) where
  -- What the three calls of `init` return when they are made one after the other.
  abbrev init_results : ℕ → ℤ → Held c → Process.Setup
  init_results port count h =
      let fd : ℤ = (c.socket tcp h.state).0 in
      let s2 : c.State = (c.set_reuse fd (pos 1) (c.socket tcp h.state).1).1 in
      let bound = c.bind fd none (htons port) s2 in
      record { socket_fd = fd; bound = bound.0; listened = (c.listen fd count bound.1).0 }

  abbrev start_results : Bytes → ℕ → Held c → Epoll.Setup
  start_results host port h =
      let fd : ℤ = (c.socket tcp h.state).0 in
      let s2 : c.State = (c.set_reuse fd (pos 1) (c.socket tcp h.state).1).1 in
      let bound = c.bind fd (some host) (htons port) s2 in
      record { socket_fd = fd; bound = bound.0; listened = (c.listen fd (pos 1024) bound.1).0 }

  abbrev returned : Option ℤ → ℤ → Process.Returned
  returned none fd = Process.throws
  returned (some r) fd = Process.returns r fd

  -- The two models of `init` are one: over any system calls the result, or the exception, and the
  -- descriptor of the socket are those that the model of the server computes from the results.
  init_agrees :
      (port : ℕ) (count : ℤ) (h : Held c)
      → returned (init c port count h).0 (init c port count h).1.fd
        ≡ Process.init (init_results port count h)
  unfolding init Process.init destroy
  init_agrees port count h = elim (int-cases (c.socket tcp h.state).0) [
    | inl (n, same) ↦ ground arith
    | inr (n, same) ↦ rw (init, Process.init, same) refl
  ]

  abbrev started : Epoll.Epoll → Option (Unit {0}) → ℤ → Option Epoll.Epoll
  started s none fd = none
  started s (some u) fd = some (record s { fd = fd })

  -- So are the two models of `AbstractServer::start`, for a server that is not running.
  start_agrees :
      (host : Bytes) (port : ℕ) (h : Held c) (s : Epoll.Epoll)
      → s.is_running ≡ false
      → started s (start c host port h).0 (start c host port h).1.fd
        ≡ Epoll.start (start_results host port h) s
  unfolding start Epoll.start
  start_agrees host port h s idle = ground arith
