-- ===== src/Net/ServerSocket.antt =====
-- `Socket` of tcpserver/src/socket.hpp.
use cpp_shared.Net.{
  Kind, tcp, udp, icmp, Calls, is_negative, htons, set_bit, Held, Io, pure, throw_error, lift_call,
}
use cpp_shared.Prelude.{
  ℕ, print, [], ◌++◌, Option, none, some, Bool, if◌then◌else◌, Bytes, codes, value, ℤ, pos, negsuc,
  int_lt,
}

module _ (c : Calls) where
  -- `Socket()`
  unfoldable pub new : c.State → Held c
  new s = record { fd = negsuc 0; port = 0; host = []; state = s }

  -- The three functions that make a socket; their `return -1` follows a `throw`.
  abbrev pub checked : ℤ → Io c ℤ
  checked fd = if is_negative fd then throw_error else pure (pos 0)

  abbrev pub create : Kind → Io c ℤ
  create k h =
      checked (c.socket k h.state).0
        (record h { fd = (c.socket k h.state).0; state = (c.socket k h.state).1 })

  unfoldable pub open_tcp : Io c ℤ
  open_tcp = create tcp

  unfoldable pub open_udp : Io c ℤ
  open_udp = create udp

  unfoldable pub open_icmp : Io c ℤ
  open_icmp = create icmp

  unfoldable pub bind_to : ℕ → Io c ℤ
  bind_to port h = lift_call (c.bind h.fd none (htons port)) h

  unfoldable pub set_io_reuse : ℤ → Io c ℤ
  set_io_reuse opt h = lift_call (c.set_reuse h.fd opt) h

  unfoldable pub set_non_block : Bool → Held c → Held c
  set_non_block on h = record h {
    state = c.set_flags h.fd (set_bit on (c.get_flags h.fd h.state)) h.state;
  }

  unfoldable pub connect_to : Bytes → ℕ → Io c ℤ
  connect_to host port h = lift_call (c.connect h.fd host (htons port)) h

  unfoldable pub listening : ℤ → Io c ℤ
  listening count h = lift_call (c.listen h.fd count) h

  -- Both `recvMessage`: the result and what came; the text version gives the empty text for an error.
  unfoldable pub recv_message : Io c Bytes
  recv_message h =
      let ((len, b), s) = c.receive h.fd 1024 h.state in
      (some (if is_negative len then [] else b), record h { state = s })

  unfoldable pub recv_data : ℕ → Io c (ℤ × Bytes)
  recv_data size h = lift_call (c.receive h.fd size) h

  -- `atoi` of a port that `getnameinfo` printed
  abbrev pub accepted : ℤ → Option (Bytes × Bytes) → c.State → Option (Held c)
  accepted fd none s = none
  accepted fd (some (host, port)) s =
      some (record { fd = fd; port = value 0 port; host = host; state = s })

  -- `accepting`: the new socket, with the null pointer as `none`.
  unfoldable pub accepting : Held c → Option (Held c) × c.State
  accepting h =
      let ((fd, address), s) = c.accept h.fd h.state in
      (if is_negative fd then none else accepted fd (c.name_info address) s, s)

  abbrev pub is_positive : ℤ → Bool
  is_positive fd = int_lt (pos 0) fd

  unfoldable pub destroy : Io c (Unit {0})
  destroy h = (
    some tt,
    record {
      fd = if is_positive h.fd then negsuc 0 else h.fd;
      port = 0;
      host = [];
      state = if is_positive h.fd then c.close h.fd h.state else h.state;
    },
  )

  unfoldable pub get_name : Held c → Bytes
  get_name h = h.host ++ (codes ":" ++ print h.port)
