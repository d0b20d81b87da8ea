-- ===== src/Net.antt =====
-- The system calls on sockets, for the sockets of src/tcppipe.hpp and of tcpserver/src/socket.hpp:
-- a record of operations, and what their documentation says of the descriptors that are open.
pub mod ServerSocket
pub mod PipeSocket
pub mod WindowsSocket
pub mod Setup
pub mod Connecting
mod Refining
mod Examples
use cpp_shared.Prelude.{
  ℕ, ◌+◌, ◌*◌, ◌/◌, ◌%◌, ◌≡◌, Option, none, some, Bool, true, false, if◌then◌else◌, Bytes, ℤ, pos,
  negsuc, int_eq, int_lt,
}

pub data Kind : Type 0 where
  tcp udp icmp : Kind

-- Results are those of the calls, negative for an error. An address is the text of a host, with
-- `none` for INADDR_ANY, and a port in network order; `name_info` is `getnameinfo`, and `get_flags` and
-- `set_flags` are `fcntl`, taken not to fail.
pub record Calls : Type 1 where
  pub State : Type 0
  pub socket : Kind → State → ℤ × State
  pub set_reuse : ℤ → ℤ → State → ℤ × State
  pub bind : ℤ → Option Bytes → ℕ → State → ℤ × State
  pub listen : ℤ → ℤ → State → ℤ × State
  pub connect : ℤ → Bytes → ℕ → State → ℤ × State
  pub accept : ℤ → State → (ℤ × Bytes) × State
  pub name_info : Bytes → Option (Bytes × Bytes)
  pub get_flags : ℤ → State → ℕ
  pub set_flags : ℤ → ℕ → State → State
  pub receive : ℤ → ℕ → State → (ℤ × Bytes) × State
  pub shutdown : ℤ → State → ℤ × State
  pub close : ℤ → State → State

abbrev pub is_negative : ℤ → Bool
is_negative (pos n) = false
is_negative (negsuc n) = true

-- The descriptors after a call that returns a new one.
abbrev pub opened : ℤ → (ℤ → Bool) → ℤ → Bool
opened fd before g = if is_negative fd then before g else if int_eq g fd then true else before g

pub record IsLawful (c : Calls) : Type 0 where
  pub is_open : c.State → ℤ → Bool
  pub open-socket :
      (k : Kind) (s : c.State) (g : ℤ)
      → is_open (c.socket k s).1 g ≡ opened (c.socket k s).0 (is_open s) g
  pub fresh-socket :
      (k : Kind) (s : c.State)
      → is_negative (c.socket k s).0 ≡ false
      → is_open s (c.socket k s).0 ≡ false
  pub open-set_reuse :
      (fd opt : ℤ) (s : c.State) (g : ℤ) → is_open (c.set_reuse fd opt s).1 g ≡ is_open s g
  pub open-bind :
      (fd : ℤ) (host : Option Bytes) (port : ℕ) (s : c.State) (g : ℤ)
      → is_open (c.bind fd host port s).1 g ≡ is_open s g
  pub open-listen :
      (fd count : ℤ) (s : c.State) (g : ℤ) → is_open (c.listen fd count s).1 g ≡ is_open s g
  pub open-connect :
      (fd : ℤ) (host : Bytes) (port : ℕ) (s : c.State) (g : ℤ)
      → is_open (c.connect fd host port s).1 g ≡ is_open s g
  pub open-accept :
      (fd : ℤ) (s : c.State) (g : ℤ)
      → is_open (c.accept fd s).1 g ≡ opened (c.accept fd s).0.0 (is_open s) g
  pub fresh-accept :
      (fd : ℤ) (s : c.State)
      → is_negative (c.accept fd s).0.0 ≡ false
      → is_open s (c.accept fd s).0.0 ≡ false
  pub open-shutdown : (fd : ℤ) (s : c.State) (g : ℤ) → is_open (c.shutdown fd s).1 g ≡ is_open s g
  pub open-close :
      (fd : ℤ) (s : c.State) (g : ℤ)
      → is_open (c.close fd s) g ≡ (if int_eq g fd then false else is_open s g)

-- `htons`: the two low bytes, swapped
unfoldable pub htons : ℕ → ℕ
htons port = port % 256 * 256 + port / 256 % 256

-- `flags | O_NONBLOCK` and `flags & ~O_NONBLOCK`, where O_NONBLOCK is the bit of 2048
abbrev pub non_block : ℕ
non_block = 2048

unfoldable pub set_bit : Bool → ℕ → ℕ
set_bit on flags =
    let cleared = flags / (2 * non_block) * (2 * non_block) + flags % non_block in
    if on then cleared + non_block else cleared

-- A socket object, and the state of the system.
pub record Held (c : Calls) : Type 0 where
  pub fd : ℤ
  pub port : ℕ
  pub host : Bytes
  pub state : c.State

-- A member function: its result, with `none` for an exception, and the socket after it.
abbrev pub Io : Calls → Type 0 → Type 0
Io c A = Held c → Option A × Held c

module _ {c : Calls} where
  abbrev pub pure : {A : Type 0} → A → Io c A
  pure a h = (some a, h)

  abbrev pub throw_error : {A : Type 0} → Io c A
  throw_error h = (none, h)

  abbrev pub continue_with : {A B : Type 0} → (A → Io c B) → Option A × Held c → Option B × Held c
  continue_with f (none, h) = (none, h)
  continue_with f (some a, h) = f a h

  infixl 5 ◌>>=◌ ◌>>◌
  abbrev pub ◌>>=◌ : {A B : Type 0} → Io c A → (A → Io c B) → Io c B
  ◌>>=◌ m f h = continue_with f (m h)

  abbrev pub ◌>>◌ : {A B : Type 0} → Io c A → Io c B → Io c B
  m >> k = m >>= λ _. k

  -- A call that may change the state of the system, with its result.
  abbrev pub lift_call : {A : Type 0} → (c.State → A × c.State) → Io c A
  lift_call f h = (some (f h.state).0, record h { state = (f h.state).1 })
