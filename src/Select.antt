-- ===== src/Select.antt =====
-- `Select` of src/tcppipe.hpp, the server over `select`: rounds of its accepting loop, in `run`, and
-- passes of its receiving thread over the map, in `receive`. The results of the system calls are
-- arguments, and an fd_set is that of Linux. The two threads share the map without a mutex; a round
-- and a pass are each one step here.
pub mod Passes
pub mod Reading
pub mod Limits
pub mod Keeping
pub mod Known
pub mod Serving
mod Examples
use cpp_shared.Prelude.{
  ℕ, suc, List, [], ◌∷◌, ◌++◌, ◌<◌, Option, none, some, Bool, true, false, if◌then◌else◌, ltb,
  length, Bytes, ℤ, pos, negsuc, int_eq, int_lt, Map, lookup, insert, bytes_key,
}

-- The shared sockets by a number, with their descriptors; `has_thread` says whether `recvThread` can
-- be joined.
pub record Select : Type 0 where
  pub fd : ℤ
  pub is_running : Bool
  pub has_thread : Bool
  pub socket_map : Map Bytes ℕ
  pub sockets : ℕ → ℤ
  pub next : ℕ

abbrev pub fd_setsize : ℕ
fd_setsize = 1024

-- FD_SET and FD_ISSET are defined for these descriptors.
abbrev pub fits : ℤ → Bool
fits (pos n) = ltb n fd_setsize
fits (negsuc n) = false

-- What a round or a pass ends with: undefined behaviour or the end of the program, the end of its
-- thread, or the next one.
pub data Outcome (A : Type 0) : Type 0 where
  undefined : Outcome A
  leaves : (after : A) → Outcome A
  again : (after : A) → Outcome A

-- `run` up to its loop. An assignment to a thread that can be joined ends the program.
unfoldable pub run_setup : Select → Outcome Select
run_setup s =
    if s.is_running
    then leaves s
    else if s.has_thread
    then undefined
    else again (record s { is_running = true; has_thread = true })

-- `~Select`, once the receiving thread has ended
unfoldable pub destroy : Select → Outcome Select
destroy s =
    if s.has_thread then leaves (record s { is_running = false; has_thread = false }) else undefined

-- The new socket in the map, if no other has its address there; `next` numbers it.
abbrev pub add_socket : ℤ → Bytes → Select → Select
add_socket fd address s = record s {
  socket_map = insert address s.next s.socket_map;
  sockets = λ n. if int_eq (pos n) (pos s.next) then fd else s.sockets n;
  next = suc s.next;
}

abbrev pub accept : Option (ℤ × Bytes) → Select → Outcome Select
accept none s = again s
accept (some (fd, address)) s =
    if ltb fd_setsize (length s.socket_map) then leaves s else again (add_socket fd address s)

-- A round of `run`: the result of `select`, and what `accepting` returned.
unfoldable pub accept_round : ℤ → Option (ℤ × Bytes) → Select → Outcome Select
accept_round count accepted s =
    if fits s.fd
    then (if int_lt count (pos 0)
        then leaves s
        else if int_eq count (pos 0)
        then again s
        else accept accepted s)
    else undefined

abbrev pub close_socket : ℕ → (ℕ → ℤ) → ℕ → ℤ
close_socket n sockets m = if int_eq (pos m) (pos n) then negsuc 0 else sockets m

-- The descriptors, and what is printed: the address and the message.
abbrev pub Seen : Type 0
Seen = (ℕ → ℤ) × List (Bytes × Bytes)

abbrev pub received : Bytes → ℕ → Bytes → Seen → Seen
received key n [] (sockets, out) = (close_socket n sockets, out)
received key n (b ∷ content) (sockets, out) = (sockets, out ++ ((key, b ∷ content) ∷ []))

-- A pass over the map: for each socket, the result of `select` and what `recvMessage` gave.
unfoldable pub pass : Map Bytes ℕ → (ℕ → ℤ × Bytes) → Seen → Outcome Seen
pass [] calls seen = again seen
pass ((key, n) ∷ m) calls seen =
    let (count, content) = calls n in
    let rest_same = pass m calls seen in
    let rest = pass m calls (received key n content seen) in
    if fits (seen.0 n)
    then (if int_lt count (pos 0)
        then leaves seen
        else if int_eq count (pos 0)
        then rest_same
        else rest)
    else undefined
