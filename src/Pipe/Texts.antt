-- ===== src/Pipe/Texts.antt =====
-- What a client of src/tcppipe.hpp sends, and what becomes of it on the other side.
use cpp_shared.Pipe.{push, send_to}
use cpp_shared.Protocol.{build, find, throws, parse}
use cpp_shared.Protocol.Messages.{IsPlain, parse-build}
use cpp_shared.Select.{again, pass}
use cpp_shared.Select.Passes.{Calls, IsAnswered}
use cpp_shared.Select.Reading.{IsServed, message_of, messages, pass_reads}
use cpp_shared.Sending.{send_message}
use cpp_shared.Sending.Conforming.{SendsAll, IsConforming}
use cpp_shared.Sending.Text.{send_message_sound}
use cpp_shared.Prelude.{
  ℕ, ◌<◌, ◌≡◌, refl, sym, ap, ◌∙◌, List, [], ◌∷◌, ◌++◌, append_assoc, none, some, true, arith,
  length, Bytes, codes, ℤ, pos, Map, lookup, bytes_key, bytes_eq, bytes_eq_iff, Bool-cases, inl,
  inr, All,
}

-- A message that `send` puts on the wire whole, for a destination, cannot be read: `parse` throws.
-- This is for addresses without commas, over any `send` that keeps to its documented results.
send_to_unreadable :
    (socket : Bytes → Bytes → ℤ × Bytes) (fuel : ℕ) (address destination data_ wire wire' : Bytes)
    → IsConforming socket
    → All IsPlain address
    → All IsPlain destination
    → find (codes "content:") (codes "to:" ++ destination) ≡ none
    → send_to socket fuel address destination data_ wire ≡ some (true, wire')
    → (m : Bytes) × (wire' ≡ wire ++ m) × (parse m ≡ throws)
unfolding send_to build
send_to_unreadable socket fuel address destination data_ wire wire' c plain_a plain_d missing e =
    let m : Bytes =
      codes "service:"
      ++ (codes "forward"
          ++ (codes ","
              ++ (codes "from:"
                  ++ (address
                      ++ (codes ","
                          ++ (codes "to:"
                              ++ (destination
                                  ++ (codes "," ++ (codes "content:" ++ data_))))))))) in
    (
      m,
      send_message_sound socket fuel m wire wire' c (omega arith) e,
      parse-build (codes "forward") address destination data_ m
          (refl, (refl, (refl, (refl, (refl, (refl, (refl, tt))))))) plain_a plain_d missing refl,
    )

-- A short text on the wire.
push-short :
    (socket : Bytes → Bytes → ℤ × Bytes) (fuel : ℕ) (message wire : Bytes)
    → SendsAll socket
    → length message < 1024
    → push socket fuel message wire ≡ some (true, wire ++ message)
unfolding push send_message
push-short socket fuel message wire all short = ground (arith, all message wire)

-- Its place among the messages of a pass.
message-in :
    (m : Map Bytes ℕ) (calls : Calls) (key : Bytes) (k : ℕ) (b : ℕ) (content : Bytes)
    → lookup key m ≡ some k
    → calls k ≡ (pos 1, b ∷ content)
    → (before : List (Bytes × Bytes)) × (after : List (Bytes × Bytes)) × (messages m calls
        ≡ before ++ ((key, b ∷ content) ∷ after))
unfolding messages lookup
message-in [] calls key k b content at call = cc
message-in ((key', n) ∷ m) calls key k b content at call = elim (Bool-cases (bytes_eq key key')) [
  | inl here ↦
      let same_n : n ≡ k = ground (arith, at, here) in
      let same_key : key ≡ key' = (bytes_eq_iff key key').0 here in
      ([], messages m calls, rw (same_n, call, ← same_key) refl)
  | inr later ↦
      let (before, after, e) =
        message-in m calls key k b content (ground (arith, at, later)) call in
      (
        message_of key' (calls n) ++ before,
        after,
        ap (λ l. message_of key' (calls n) ++ l) e
            ∙ sym (append_assoc (message_of key' (calls n)) before _),
      )
]

-- A text of 1 to 1023 bytes that a client sends over a socket that takes all it is given is printed by
-- the server over `select`, with the address of the client's connection, in the pass in which
-- `recv` returns it whole, if the server's sockets are open and no `select` fails.
pub pushed_is_printed :
    (socket : Bytes → Bytes → ℤ × Bytes) (fuel b : ℕ) (content : Bytes) (m : Map Bytes ℕ)
    (sockets : ℕ → ℤ) (calls : Calls) (key : Bytes) (k : ℕ)
    → SendsAll socket
    → length (b ∷ content) < 1024
    → IsServed m sockets
    → IsAnswered calls
    → lookup key m ≡ some k
    → calls k ≡ (pos 1, b ∷ content)
    → (push socket fuel (b ∷ content) [] ≡ some (true, b ∷ content))
      × ((sockets' : ℕ → ℤ) × (before : List (Bytes × Bytes)) × (after : List (Bytes × Bytes))
          × (pass m calls (sockets, []) ≡ again (sockets', before ++ ((key, b ∷ content) ∷ after))))
pushed_is_printed socket fuel b content m sockets calls key k all short served answered at call =
    let (sockets', e, closes) = pass_reads m calls (sockets, []) answered served in
    let (before, after, place) = message-in m calls key k b content at call in
    (
      push-short socket fuel (b ∷ content) [] all short,
      (sockets', before, after, e ∙ ap (λ l. again (sockets', l)) place),
    )
