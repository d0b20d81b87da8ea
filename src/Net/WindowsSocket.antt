-- ===== src/Net/WindowsSocket.antt =====
-- `Socket` for Windows of src/tcppipe.hpp. `INVALID_SOCKET` and `SOCKET_ERROR` are -1.
use cpp_shared.Net.{Kind, tcp, udp, icmp, Calls, is_negative, htons, Held, Io, pure, throw_error}
use cpp_shared.Prelude.{
  ℕ, [], Option, none, some, Bool, if◌then◌else◌, value, Bytes, ℤ, pos, negsuc, int_eq,
}

module _ (c : Calls) where
  abbrev pub checked : ℤ → Io c ℤ
  checked fd = if is_negative fd then throw_error else pure (pos 0)

  abbrev pub create : Kind → Io c ℤ
  create k h =
      checked (c.socket k h.state).0
        (record h { fd = (c.socket k h.state).0; state = (c.socket k h.state).1 })

  unfoldable pub open_tcp : Io c ℤ
  open_tcp = create tcp

  unfoldable pub open_udp : Io c ℤ
  open_udp = create udp

  unfoldable pub open_icmp : Io c ℤ
  open_icmp = create icmp

  -- 0, or -1 for `SOCKET_ERROR`
  abbrev pub zero_or_error : ℤ → ℤ
  zero_or_error r = if int_eq r (negsuc 0) then negsuc 0 else pos 0

  abbrev pub lift_checked : (c.State → ℤ × c.State) → Io c ℤ
  lift_checked f h = (some (zero_or_error (f h.state).0), record h { state = (f h.state).1 })

  -- The host is not used: the address is INADDR_ANY.
  unfoldable pub bind_to : Bytes → ℕ → Io c ℤ
  bind_to host port h = lift_checked (c.bind h.fd none (htons port)) h

  unfoldable pub connect_to : Bytes → ℕ → Io c ℤ
  connect_to host port h = lift_checked (c.connect h.fd host (htons port)) h

  unfoldable pub listening : ℤ → Io c ℤ
  listening count h = lift_checked (c.listen h.fd count) h

  -- The end without a return statement is undefined behaviour, here `none`.
  unfoldable pub set_io_reused : ℤ → Io c ℤ
  set_io_reused opt h = (none, record h { state = (c.set_reuse h.fd opt h.state).1 })

  unfoldable pub set_non_block : Bool → Io c ℤ
  set_non_block on h = (some (pos 0), h)

  unfoldable pub recv_message : Io c Bytes
  recv_message h =
      let ((len, b), s) = c.receive h.fd 1024 h.state in
      (some (if is_negative len then [] else b), record h { state = s })

  abbrev pub accepted : ℤ → Option (Bytes × Bytes) → c.State → Option (Held c)
  accepted fd none s = none
  accepted fd (some (host, port)) s =
      some (record { fd = fd; port = value 0 port; host = host; state = s })

  unfoldable pub accepting : Held c → Option (Held c) × c.State
  accepting h =
      let ((fd, address), s) = c.accept h.fd h.state in
      (if is_negative fd then none else accepted fd (c.name_info address) s, s)

  -- `SD_SEND`
  unfoldable pub shutdown : Io c ℤ
  shutdown h = lift_checked (c.shutdown h.fd) h

  unfoldable pub destroy : Io c (Unit {0})
  destroy h = (
    some tt,
    record h {
      fd = negsuc 0;
      state = if int_eq h.fd (negsuc 0) then h.state else c.close h.fd h.state;
    },
  )
