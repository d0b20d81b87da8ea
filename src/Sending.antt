-- ===== src/Sending.antt =====
-- The three loops that hand a message to `send`: both `Socket::sendMessage` of
-- tcpserver/src/socket.hpp, and that of src/tcppipe.hpp, which returns a result. `send` is the
-- system call: it gets the bytes that it may read, and returns its result and the state of the
-- network `W`. A read past the end of the message is undefined behaviour, `faults`. The loops take
-- fuel, and `runs_on` says that it ran out.
pub mod Conforming
pub mod Text
pub mod Blocks
pub mod Packets
mod Examples
use cpp_shared.Prelude.{
  ℕ, zero, suc, ◌+◌, ◌-◌, List, [], ◌∷◌, ◌++◌, Option, none, some, Bool, true, false, ltb, leb,
  ◌==◌, if◌then◌else◌, length, take, drop, Bytes, ℤ, pos, negsuc,
}

pub data Sent (W : Type 0) : Type 0 where
  done : (position : ℕ) → W → Sent W
  faults : Sent W
  runs_on : Sent W

abbrev pub max_payload_len : ℕ
max_payload_len = 1024

-- The `n` bytes from `at` on, if they all lie in the memory.
unfoldable pub read : Bytes → ℕ → ℕ → Option Bytes
read memory at n = if leb (at + n) (length memory) then some (take n (drop at memory)) else none

-- The result is `pos == total`, which src/tcppipe.hpp returns.
abbrev pub all_sent : {W : Type 0} → ℕ → Sent W → Option (Bool × W)
all_sent total (done at w) = some (at == total, w)
all_sent total faults = none
all_sent total runs_on = none

abbrev pub sent_by : {W : Type 0} → Sent W → Option W
sent_by (done at w) = some w
sent_by faults = none
sent_by runs_on = none

-- The length of the next piece, where `res` bytes are left: 1024, or what is missing to 1024.
abbrev pub buf_len : ℕ → ℕ
buf_len res = if leb max_payload_len res then max_payload_len else max_payload_len - res

-- The rest of a round: the text version leaves the loop at an error, the other tries again.
abbrev pub after_text : {W : Type 0} → (ℕ → W → Sent W) → ℕ → ℤ × W → Sent W
after_text next at (negsuc n, w) = done at w
after_text next at (pos n, w) = next (at + n) w

abbrev pub after_data : {W : Type 0} → (ℕ → W → Sent W) → ℕ → ℤ × W → Sent W
after_data next at (negsuc n, w) = next at w
after_data next at (pos n, w) = next (at + n) w

module _ {W : Type 0} (send : Bytes → W → ℤ × W) where
  -- `while (pos < total)` over a `std::string`, whose memory ends in a zero byte
  unfoldable pub text_loop : ℕ → Bytes → ℕ → W → Sent W
  text_loop zero content at w = runs_on
  text_loop (suc fuel) content at w =
      let more : Sent W = elim (read (content ++ (0 ∷ [])) at max_payload_len) [
        | none ↦ faults
        | some chunk ↦ after_text (λ n w'. text_loop fuel content n w') at (send chunk w)
      ] in
      if ltb at (length content) then more else done at w

  abbrev send_short : Bytes → W → Bool × W
  send_short content w =
      let (len, w') = send content w in
      (elim len [ pos n ↦ n == length content | negsuc n ↦ false ], w')

  -- `sendMessage(const std::string&)`; `none` where the loop faults or its fuel ends.
  unfoldable pub send_message : ℕ → Bytes → W → Option (Bool × W)
  unfolding text_loop
  send_message fuel content w =
      if ltb (length content) max_payload_len
      then some (send_short content w)
      else all_sent (length content) (text_loop fuel content 0 w)

  -- `sendMessage(const std::string&)` of tcpserver/src/socket.hpp, which drops the results of `send`
  unfoldable pub send_text : ℕ → Bytes → W → Option W
  unfolding text_loop
  send_text fuel content w =
      if ltb (length content) max_payload_len
      then some (send content w).1
      else sent_by (text_loop fuel content 0 w)

  -- `sendMessage(unsigned char*, unsigned long)`: a failed or empty `send` is tried again.
  unfoldable pub data_loop : ℕ → Bytes → ℕ → W → Sent W
  data_loop zero content at w = runs_on
  data_loop (suc fuel) content at w =
      let more : Sent W = elim (read content at (buf_len (length content - at))) [
        | none ↦ faults
        | some chunk ↦ after_data (λ n w'. data_loop fuel content n w') at (send chunk w)
      ] in
      if ltb at (length content) then more else done at w

  unfoldable pub send_data : ℕ → Bytes → W → Sent W
  unfolding data_loop
  send_data fuel content w = data_loop fuel content 0 w
