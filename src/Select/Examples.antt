-- ===== src/Select/Examples.antt =====
-- Runs of the server over `select`, src/tcppipe.hpp.
use cpp_shared.Select.{Select, undefined, again, accept_round, add_socket, close_socket, Seen, pass}
use cpp_shared.Select.Passes.{Calls, IsAnswered, hang_up_faults}
use cpp_shared.Select.Reading.{messages, closed_in}
use cpp_shared.Select.Limits.{accept_all}
use cpp_shared.Select.Keeping.{IsWell}
use cpp_shared.Select.Known.{descriptor, or_else, first_from}
use cpp_shared.Select.Serving.{accepted_are_read}
use cpp_shared.Prelude.{
  ℕ, zero, suc, ◌≡◌, refl, List, [], ◌∷◌, Option, none, some, true, false, arith, Bytes, codes, ℤ,
  pos, negsuc, Map, lookup, bytes_key,
}

abbrev empty : Select
empty = record {
  fd = pos 3;
  is_running = true;
  has_thread = true;
  socket_map = [];
  sockets = λ n. negsuc 0;
  next = 0;
}

abbrev two : List (ℤ × Option (ℤ × Bytes))
two = (pos 1, some (pos 4, codes "b:1")) ∷ (pos 1, some (pos 5, codes "a:2")) ∷ []

abbrev both : Select
both = add_socket (pos 5) (codes "a:2") (add_socket (pos 4) (codes "b:1") empty)

two_accepted : accept_all two empty ≡ again both
unfolding accept_all accept_round cpp_shared.Prelude.insert lookup cpp_shared.Prelude.assign
two_accepted = refl

empty-IsWell : IsWell empty
empty-IsWell = record { served = record { all_fit = tt; distinct = tt }; numbered = tt }

-- The first client has hung up, and the second has sent a message.
abbrev calls : Calls
calls zero = (pos 1, [])
calls (suc n) = (pos 1, codes "hi")

answered : IsAnswered calls
answered zero = refl
answered (suc n) = refl

accepted_are_read_example :
    ((address : Bytes)
      → descriptor address both ≡ or_else (descriptor address empty) (first_from address two))
    × ((sockets : ℕ → ℤ) × (pass both.socket_map calls (both.sockets, [])
          ≡ again (sockets, messages both.socket_map calls))
        × ((k : ℕ) → sockets k ≡ closed_in both.socket_map calls both.sockets k))
accepted_are_read_example =
    accepted_are_read two empty both calls (refl, (refl, tt)) empty-IsWell two_accepted answered

messages_of_both : messages both.socket_map calls ≡ (codes "a:2", codes "hi") ∷ []
unfolding messages cpp_shared.Prelude.insert cpp_shared.Prelude.lookup cpp_shared.Prelude.assign
messages_of_both = refl

-- The first client, whose socket the pass closes.
abbrev one : Map Bytes ℕ
one = (codes "b:1", 0) ∷ []

abbrev before : Seen
before = (λ n. pos 4, [])

abbrev after : Seen
after = (close_socket 0 (λ n. pos 4), [])

one_closed : pass one calls before ≡ again after
unfolding pass
one_closed = refl

hang_up_faults_example : pass one calls after ≡ undefined
unfolding lookup
hang_up_faults_example =
    hang_up_faults one calls calls before after (codes "b:1") 0 one_closed refl refl answered
