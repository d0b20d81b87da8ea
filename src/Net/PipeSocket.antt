-- ===== src/Net/PipeSocket.antt =====
-- `iSocket`, and `Socket` for Linux, of src/tcppipe.hpp.
use cpp_shared.Net.{
  Kind, tcp, udp, icmp, Calls, is_negative, htons, set_bit, Held, Io, pure, throw_error, lift_call,
}
use cpp_shared.Prelude.{
  ℕ, [], ◌++◌, Option, none, some, Bool, if◌then◌else◌, print, value, Bytes, codes, ℤ, pos, negsuc,
}

module _ (c : Calls) where
  -- `iSocket()`
  unfoldable pub new : c.State → Held c
  new s = record { fd = negsuc 0; port = 8080; host = codes "127.0.0.1"; state = s }

  -- `iSocket(newFD, host, port)`
  unfoldable pub with_fd : ℤ → Bytes → Bytes → c.State → Held c
  with_fd fd host port s = record { fd = fd; port = value 0 port; host = host; state = s }

  unfoldable pub get_address : Held c → Bytes
  get_address h = h.host ++ (codes ":" ++ print h.port)

  abbrev pub checked : ℤ → Io c ℤ
  checked fd = if is_negative fd then throw_error else pure (pos 0)

  abbrev pub create : Kind → Io c ℤ
  create k h =
      checked (c.socket k h.state).0
        (record h { fd = (c.socket k h.state).0; state = (c.socket k h.state).1 })

  unfoldable pub open_tcp : Io c ℤ
  open_tcp = create tcp

  unfoldable pub open_udp : Io c ℤ
  open_udp = create udp

  unfoldable pub open_icmp : Io c ℤ
  open_icmp = create icmp

  unfoldable pub bind_to : Bytes → ℕ → Io c ℤ
  bind_to host port h = lift_call (c.bind h.fd (some host) (htons port)) h

  unfoldable pub set_io_reused : Bool → Io c ℤ
  set_io_reused on h = lift_call (c.set_reuse h.fd (if on then pos 1 else pos 0)) h

  unfoldable pub set_non_block : Bool → Held c → Held c
  set_non_block on h = record h {
    state = c.set_flags h.fd (set_bit on (c.get_flags h.fd h.state)) h.state;
  }

  unfoldable pub connect_to : Bytes → ℕ → Io c ℤ
  connect_to host port h = lift_call (c.connect h.fd host (htons port)) h

  unfoldable pub listening : ℤ → Io c ℤ
  listening count h = lift_call (c.listen h.fd count) h

  -- An error gives the empty text, as the end of the connection does.
  unfoldable pub recv_message : Io c Bytes
  recv_message h =
      let ((len, b), s) = c.receive h.fd 1024 h.state in
      (some (if is_negative len then [] else b), record h { state = s })

  abbrev pub accepted : ℤ → Option (Bytes × Bytes) → c.State → Option (Held c)
  accepted fd none s = none
  accepted fd (some (host, port)) s =
      some (record { fd = fd; port = value 0 port; host = host; state = s })

  -- `accepting`: the new socket, with the null pointer as `none`.
  unfoldable pub accepting : Held c → Option (Held c) × c.State
  accepting h =
      let ((fd, address), s) = c.accept h.fd h.state in
      (if is_negative fd then none else accepted fd (c.name_info address) s, s)

  unfoldable pub destroy : Io c (Unit {0})
  destroy h = (some tt, record h { fd = negsuc 0; state = c.close h.fd h.state })
