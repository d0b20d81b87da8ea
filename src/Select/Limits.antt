-- ===== src/Select/Limits.antt =====
-- The accepting loop of `Select` and the limit on its sockets, src/tcppipe.hpp.
use cpp_shared.Select.{
  Select, fd_setsize, fits, Outcome, undefined, leaves, again, add_socket, accept_round, pass,
}
use cpp_shared.Select.Passes.{Calls, IsAnswered, unfit_faults}
use cpp_shared.Prelude.{
  ℕ, suc, ◌≤◌, ◌≡◌, List, [], ◌∷◌, Option, none, some, Option-cases, true, false, arith, length,
  Bytes, ℤ, pos, int_lt, int_eq_iff, Map, lookup, lookup-insert_new, insert, assign, bytes_key, inl,
  inr,
}

abbrev pub next_round : (Select → Outcome Select) → Outcome Select → Outcome Select
next_round f undefined = undefined
next_round f (leaves s) = leaves s
next_round f (again s) = f s

-- The accepting loop: the results of its calls, one after the other.
unfoldable pub accept_all : List (ℤ × Option (ℤ × Bytes)) → Select → Outcome Select
accept_all [] s = again s
accept_all ((count, accepted) ∷ l) s =
    next_round (λ s'. accept_all l s') (accept_round count accepted s)

abbrev pub HoldsAfter : (Select → Type 0) → Outcome Select → Type 0
HoldsAfter P undefined = Unit {0}
HoldsAfter P (leaves s) = P s
HoldsAfter P (again s) = P s

pub next_round_holds :
    (P : Select → Type 0) (f : Select → Outcome Select)
    → ((s : Select) → P s → HoldsAfter P (f s))
    → (o : Outcome Select) → HoldsAfter P o
    → HoldsAfter P (next_round f o)
next_round_holds P f keeps undefined h = h
next_round_holds P f keeps (leaves s) h = h
next_round_holds P f keeps (again s) h = keeps s h

length-assign : (key : Bytes) (n : ℕ) (m : Map Bytes ℕ) → length (assign key n m) ≤ suc (length m)
unfolding assign
length-assign key n [] = omega arith
length-assign key n ((key', n') ∷ m) = ground (arith, length-assign key n m)

length-insert : (key : Bytes) (n : ℕ) (m : Map Bytes ℕ) → length (insert key n m) ≤ suc (length m)
unfolding insert
length-insert key n m = elim (Option-cases (lookup key m)) [
  | inl new ↦ rw (insert, new) (length-assign key n m)
  | inr (w, old) ↦ rw (insert, old) (omega arith)
]

round-Bounded :
    (count : ℤ) (accepted : Option (ℤ × Bytes)) (s : Select)
    → length s.socket_map ≤ suc fd_setsize
    → HoldsAfter (λ t. length t.socket_map ≤ suc fd_setsize) (accept_round count accepted s)
unfolding accept_round
round-Bounded count none s h = ground (arith, h)
round-Bounded count (some (fd, address)) s h =
    ground (arith, h, length-insert address s.next s.socket_map)

-- However many connections are accepted, the map holds at most FD_SETSIZE + 1 of them: one more than
-- the sockets of an fd_set, as the test is made before the insertion.
pub accept_all_bounded :
    (l : List (ℤ × Option (ℤ × Bytes))) (s : Select)
    → length s.socket_map ≤ suc fd_setsize
    → HoldsAfter (λ t. length t.socket_map ≤ suc fd_setsize) (accept_all l s)
unfolding accept_all
accept_all_bounded [] s h = h
accept_all_bounded ((count, accepted) ∷ l) s h =
    next_round_holds _ (λ s'. accept_all l s') (λ s' b. accept_all_bounded l s' b)
      (accept_round count accepted s) (round-Bounded count accepted s h)

-- The test does not keep the descriptors in an fd_set either: a connection with a new address whose
-- descriptor is FD_SETSIZE or more is let in while there are at most FD_SETSIZE others, and the next
-- pass of `receive` is undefined behaviour, unless a `select` fails before.
large_descriptor_faults :
    (s : Select) (count : ℤ) (fd : ℤ) (address : Bytes) (calls : Calls) (out : List (Bytes × Bytes))
    → fits s.fd ≡ true
    → int_lt (pos 0) count ≡ true
    → fits fd ≡ false
    → length s.socket_map ≤ fd_setsize
    → lookup address s.socket_map ≡ none
    → IsAnswered calls
    → (accept_round count (some (fd, address)) s ≡ again (add_socket fd address s))
      × (pass (add_socket fd address s).socket_map calls ((add_socket fd address s).sockets, out)
          ≡ undefined)
unfolding accept_round
large_descriptor_faults s count fd address calls out served ready large room new answered = (
  ground arith,
  unfit_faults (add_socket fd address s).socket_map calls ((add_socket fd address s).sockets, out)
      address s.next answered (lookup-insert_new address s.next s.socket_map new)
      (ground (arith, int_eq_iff (pos s.next) (pos s.next))),
)
