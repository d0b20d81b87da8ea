-- ===== src/Net/Setup.antt =====
-- Making a listening socket: `TcpServer::init` of tcpserver/src/tcpserver.cpp and
-- `AbstractServer::start` of src/tcppipe.hpp, over the system calls.
use cpp_shared.Net.{tcp, Calls, IsLawful, is_negative, opened, htons, Held, Io, pure, ◌>>=◌, ◌>>◌}
use cpp_shared.Net.ServerSocket
use cpp_shared.Net.PipeSocket
use cpp_shared.Prelude.{
  ℕ, ◌≡◌, ◌≢◌, ◌⊎◌, Option, none, some, Bool, true, false, arith, if◌then◌else◌, Bytes, ℤ, pos,
  negsuc, int_eq, int_eq_iff,
}

abbrev pub succeeded : Option ℤ → Bool
succeeded none = false
succeeded (some r) = int_eq r (pos 0)

module _ (c : Calls) where
  -- `TcpServer::init`
  unfoldable pub init : ℕ → ℤ → Io c ℤ
  unfolding ServerSocket.open_tcp ServerSocket.set_io_reuse ServerSocket.bind_to
      ServerSocket.listening ServerSocket.destroy
  init port count = do
    ret ← ServerSocket.open_tcp c
    let unheard = (do ServerSocket.destroy c; pure (negsuc 2))
    let listen = (do
      heard ← ServerSocket.listening c count
      if int_eq heard (pos 0) then pure (pos 0) else unheard)
    let refused = (do ServerSocket.destroy c; pure (negsuc 1))
    let rest = (do
      ServerSocket.set_io_reuse c (pos 1)
      bound ← ServerSocket.bind_to c port
      if int_eq bound (pos 0) then listen else refused)
    if is_negative ret then pure (negsuc 0) else rest

  -- `AbstractServer::start` of a server that is not running, over the sockets for Linux
  unfoldable pub start : Bytes → ℕ → Io c (Unit {0})
  unfolding PipeSocket.open_tcp PipeSocket.set_io_reused PipeSocket.bind_to PipeSocket.listening
      PipeSocket.destroy
  start host port = do
    ret ← PipeSocket.open_tcp c
    let listen = (do
      heard ← PipeSocket.listening c (pos 1024)
      if int_eq heard (pos 0) then pure tt else PipeSocket.destroy c)
    let rest = (do
      PipeSocket.set_io_reused c true
      bound ← PipeSocket.bind_to c host port
      if int_eq bound (pos 0) then listen else PipeSocket.destroy c)
    if is_negative ret then pure tt else rest

module _ (c : Calls) (laws : IsLawful c) where
  -- `init` leaks no descriptor: after its result 0 the one that it made is open, and nothing else has
  -- changed; after an error or an exception the descriptors are those before. This is for a process
  -- whose standard input is open, since `destroy` does not close the descriptor 0.
  pub init_releases :
      (port : ℕ) (count : ℤ) (h : Held c) (g : ℤ)
      → laws.is_open h.state (pos 0) ≡ true
      → laws.is_open (init c port count h).1.state g ≡ (
          if succeeded (init c port count h).0
          then opened (init c port count h).1.fd (laws.is_open h.state) g
          else laws.is_open h.state g)
  unfolding init
  init_releases port count h g standard =
      let fd : ℤ = (c.socket tcp h.state).0 in
      let s1 : c.State = (c.socket tcp h.state).1 in
      let s2 : c.State = (c.set_reuse fd (pos 1) s1).1 in
      let s3 : c.State = (c.bind fd none (htons port) s2).1 in
      let s4 : c.State = (c.listen fd count s3).1 in
      ground (
        arith,
        laws.open-socket tcp h.state g,
        laws.fresh-socket tcp h.state,
        laws.open-set_reuse fd (pos 1) s1 g,
        laws.open-bind fd none (htons port) s2 g,
        laws.open-listen fd count s3 g,
        laws.open-close fd s3 g,
        laws.open-close fd s4 g,
        int_eq_iff g fd,
        int_eq_iff fd (pos 0),
      )

  -- `start` leaks no descriptor by itself: afterwards the only new one is the socket's own, and there
  -- is none after an error or an exception.
  pub start_releases :
      (host : Bytes) (port : ℕ) (h : Held c) (g : ℤ)
      → laws.is_open (start c host port h).1.state g
        ≡ opened (start c host port h).1.fd (laws.is_open h.state) g
  unfolding start
  start_releases host port h g =
      let fd : ℤ = (c.socket tcp h.state).0 in
      let s1 : c.State = (c.socket tcp h.state).1 in
      let s2 : c.State = (c.set_reuse fd (pos 1) s1).1 in
      let s3 : c.State = (c.bind fd (some host) (htons port) s2).1 in
      let s4 : c.State = (c.listen fd (pos 1024) s3).1 in
      ground (
        arith,
        laws.open-socket tcp h.state g,
        laws.fresh-socket tcp h.state,
        laws.open-set_reuse fd (pos 1) s1 g,
        laws.open-bind fd (some host) (htons port) s2 g,
        laws.open-listen fd (pos 1024) s3 g,
        laws.open-close fd s3 g,
        laws.open-close fd s4 g,
        int_eq_iff g fd,
      )

  -- The descriptor of the socket is new or -1.
  start_fd :
      (host : Bytes) (port : ℕ) (h : Held c)
      → (is_negative (start c host port h).1.fd ≡ true)
        ⊎ (laws.is_open h.state (start c host port h).1.fd ≡ false)
  unfolding start
  start_fd host port h = ground (arith, laws.fresh-socket tcp h.state)

  -- A second `start`, which nothing prevents before `run`, leaks the descriptor of the first: it stays
  -- open, and the socket names another one or none.
  pub start_again_leaks :
      (host : Bytes) (port : ℕ) (h : Held c)
      → is_negative h.fd ≡ false
      → laws.is_open h.state h.fd ≡ true
      → (laws.is_open (start c host port h).1.state h.fd ≡ true)
        × ((start c host port h).1.fd ≢ h.fd)
  start_again_leaks host port h valid mine = (
    ground (arith, start_releases host port h h.fd),
    λ same. ground (arith, start_fd host port h),
  )
