-- ===== src/Select/Serving.antt =====
-- A pass of `receive` after the rounds of `run`, for `Select` of src/tcppipe.hpp.
use cpp_shared.Select.{Select, again, pass}
use cpp_shared.Select.Passes.{Calls, IsAnswered}
use cpp_shared.Select.Reading.{messages, closed_in, pass_reads}
use cpp_shared.Select.Limits.{HoldsAfter, accept_all}
use cpp_shared.Select.Keeping.{IsSmall, IsWell, accept_all-IsWell}
use cpp_shared.Select.Known.{descriptor, or_else, first_from, descriptor-accept_all}
use cpp_shared.Prelude.{ℕ, ◌≡◌, subst, List, [], Option, Bytes, ℤ, All}

-- Whatever connections are accepted, if their descriptors are below FD_SETSIZE, the map has for every
-- address the descriptor that it had before, and otherwise that of the first connection accepted from
-- the address, if there was one. A pass of `receive` that follows prints the message of every peer of
-- the map that sent one, in the order of the addresses, and closes exactly the sockets of the map whose
-- peer has hung up. This is for a server whose sockets were open before, whose accepting loop goes on,
-- and where no `select` of the pass fails.
pub accepted_are_read :
    (l : List (ℤ × Option (ℤ × Bytes))) (s s' : Select) (calls : Calls)
    → All IsSmall l
    → IsWell s
    → accept_all l s ≡ again s'
    → IsAnswered calls
    → ((address : Bytes)
        → descriptor address s' ≡ or_else (descriptor address s) (first_from address l))
      × ((sockets : ℕ → ℤ) × (pass s'.socket_map calls (s'.sockets, [])
            ≡ again (sockets, messages s'.socket_map calls))
          × ((k : ℕ) → sockets k ≡ closed_in s'.socket_map calls s'.sockets k))
accepted_are_read l s s' calls small w e answered =
    let well : IsWell s' = subst (HoldsAfter IsWell) e (accept_all-IsWell l s small w) in
    (
      λ address. descriptor-accept_all address l s s' small w e,
      pass_reads s'.socket_map calls (s'.sockets, []) answered well.served,
    )
