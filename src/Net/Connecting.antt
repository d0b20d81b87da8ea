-- ===== src/Net/Connecting.antt =====
-- Connecting and accepting: `TcpClient::connectTo` of tcpserver/src/tcpclient.cpp,
-- `TcpClient::connectHost` of src/tcppipe.hpp, and `accepting`.
use cpp_shared.Net.{
  tcp, Calls, IsLawful, is_negative, opened, htons, set_bit, Held, Io, pure, ◌>>=◌, ◌>>◌,
}
use cpp_shared.Net.ServerSocket
use cpp_shared.Net.PipeSocket
use cpp_shared.Prelude.{
  ℕ, ◌+◌, ◌/◌, ◌%◌, ◌≡◌, ◌≢◌, refl, none, some, Bool, true, false, arith, if◌then◌else◌, Bytes, ℤ,
  pos, negsuc, int_eq, int_eq_iff,
}

module _ (c : Calls) where
  -- `TcpClient::connectTo`
  unfoldable pub connect_to : Bytes → ℕ → Io c ℤ
  unfolding ServerSocket.open_tcp ServerSocket.connect_to
  connect_to host port = do
    ret ← ServerSocket.open_tcp c
    let rest = (do
      connected ← ServerSocket.connect_to c host port
      if int_eq connected (pos 0) then pure (pos 0) else pure (negsuc 1))
    if is_negative ret then pure (negsuc 0) else rest

  -- `TcpClient::connectHost`: whether the receiving thread is started
  unfoldable pub connect_host : Bytes → ℕ → Io c Bool
  unfolding PipeSocket.open_tcp PipeSocket.connect_to PipeSocket.destroy
  connect_host host port = do
    ret ← PipeSocket.open_tcp c
    let close = (do PipeSocket.destroy c; pure false)
    let rest = (do
      connected ← PipeSocket.connect_to c host port
      if int_eq connected (pos 0) then pure true else close)
    if is_negative ret then pure false else rest

module _ (c : Calls) (laws : IsLawful c) where
  -- `connectHost` leaves a descriptor open only where it connects.
  pub connect_host_releases :
      (host : Bytes) (port : ℕ) (h : Held c) (g : ℤ)
      → laws.is_open (connect_host c host port h).1.state g
        ≡ opened (connect_host c host port h).1.fd (laws.is_open h.state) g
  unfolding connect_host
  connect_host_releases host port h g =
      let fd : ℤ = (c.socket tcp h.state).0 in
      let s1 : c.State = (c.socket tcp h.state).1 in
      let s2 : c.State = (c.connect fd host (htons port) s1).1 in
      ground (
        arith,
        laws.open-socket tcp h.state g,
        laws.fresh-socket tcp h.state,
        laws.open-connect fd host (htons port) s1 g,
        laws.open-close fd s2 g,
        int_eq_iff g fd,
      )

  connect_fails :
      (host : Bytes) (port : ℕ) (h : Held c) (g : ℤ)
      → (connect_to c host port h).0 ≡ some (negsuc 1)
      → (is_negative (connect_to c host port h).1.fd ≡ false)
        × (laws.is_open h.state (connect_to c host port h).1.fd ≡ false)
        × (laws.is_open (connect_to c host port h).1.state g
            ≡ opened (connect_to c host port h).1.fd (laws.is_open h.state) g)
  unfolding connect_to
  connect_fails host port h g failed =
      let fd : ℤ = (c.socket tcp h.state).0 in
      let s1 : c.State = (c.socket tcp h.state).1 in
      ground (
        arith,
        laws.open-socket tcp h.state g,
        laws.fresh-socket tcp h.state,
        laws.open-connect fd host (htons port) s1 g,
      )

  -- `connectTo` does not close what it could not connect: after a failure and another try that fails,
  -- the first descriptor is still open, and the socket names the second.
  connect_again_leaks :
      (host : Bytes) (port : ℕ) (h h' : Held c)
      → (connect_to c host port h).0 ≡ some (negsuc 1)
      → (connect_to c host port h).1 ≡ h'
      → (connect_to c host port h').0 ≡ some (negsuc 1)
      → (laws.is_open (connect_to c host port h').1.state h'.fd ≡ true)
        × ((connect_to c host port h').1.fd ≢ h'.fd)
  connect_again_leaks host port h h' first then_ second =
      let mine : laws.is_open h'.state h'.fd ≡ true =
        ground (arith, connect_fails host port h h'.fd first, int_eq_iff h'.fd h'.fd) in
      (
        ground (arith, connect_fails host port h' h'.fd second),
        λ same. ground (arith, connect_fails host port h' h'.fd second),
      )

  -- `accepting` leaks the connection whose peer `getnameinfo` cannot name: it returns the null pointer,
  -- and the new descriptor stays open. Both sockets of the repository do so.
  accepting_leaks :
      (h : Held c) (fd : ℤ) (address : Bytes) (s' : c.State)
      → c.accept h.fd h.state ≡ ((fd, address), s')
      → is_negative fd ≡ false
      → c.name_info address ≡ none
      → (ServerSocket.accepting c h ≡ (none, s'))
        × (PipeSocket.accepting c h ≡ (none, s'))
        × (laws.is_open h.state fd ≡ false)
        × (laws.is_open s' fd ≡ true)
  unfolding ServerSocket.accepting PipeSocket.accepting
  accepting_leaks h fd address s' e valid nameless = (
    rw (ServerSocket.accepting, e, valid, nameless) refl,
    rw (PipeSocket.accepting, e, valid, nameless) refl,
    ground (arith, laws.fresh-accept h.fd h.state),
    ground (arith, laws.open-accept h.fd h.state fd, int_eq_iff fd fd),
  )

-- `setNonBlock` sets or clears the one flag, whatever it was before, and keeps the others.
pub set_bit_lem :
    (on : Bool) (flags : ℕ)
    → (set_bit on flags / 2048 % 2 ≡ (if on then 1 else 0))
      × (set_bit on flags % 2048 ≡ flags % 2048)
      × (set_bit on flags / 4096 ≡ flags / 4096)
unfolding set_bit
set_bit_lem true flags = omega arith
set_bit_lem false flags = omega arith

-- A port in network order reads back modulo 2 ^ 16: a port past that is bound as another one.
pub htons_twice :
    (port : ℕ) → (htons (htons port) ≡ port % 65536) × (htons (port + 65536) ≡ htons port)
unfolding htons
htons_twice port = omega arith
