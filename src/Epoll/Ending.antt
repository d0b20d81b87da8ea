-- ===== src/Epoll/Ending.antt =====
-- Which sockets the destructor of `AbstractServer` closes, src/tcppipe.hpp.
use cpp_shared.Epoll.{Epoll, Accepted, accept, destroy_each, destroy_server}
use cpp_shared.Prelude.{
  ℕ, ◌<◌, ◌≡◌, refl, [], ◌∷◌, some, Bool, false, ◌==◌, ◌||◌, if◌then◌else◌, arith, Bytes, ℤ, pos,
  negsuc, int_eq, int_eq_iff, Map, lookup, insert_old, bytes_key, All,
}

unfoldable in_map : Map Bytes ℕ → ℕ → Bool
in_map [] k = false
in_map ((key, n) ∷ m) k = (n == k) || in_map m k

-- The sockets of the map are closed, and no others.
destroy_each_lem :
    (m : Map Bytes ℕ) (sockets : ℕ → ℤ) (k : ℕ)
    → destroy_each m sockets k ≡ (if in_map m k then negsuc 0 else sockets k)
unfolding in_map
destroy_each_lem [] sockets k = refl
destroy_each_lem ((key, n) ∷ m) sockets k = ground (
  arith,
  destroy_each_lem m (λ j. if int_eq (pos j) (pos n) then negsuc 0 else sockets j) k,
  int_eq_iff (pos k) (pos n),
)

not_in_map : (m : Map Bytes ℕ) (n : ℕ) → All (λ e. e.1 < n) m → in_map m n ≡ false
unfolding in_map
not_in_map [] n h = refl
not_in_map ((key, k) ∷ m) n h = ground (arith, h.0, not_in_map m n h.1)

-- A client that connects again from an address that it had before is not in the map of addresses,
-- whose entries are never erased: the destructor leaves its socket open.
reconnected_leaks :
    (a : Accepted) (n : ℕ) (s : Epoll)
    → lookup a.address s.socket_map ≡ some n
    → All (λ e. e.1 < s.next) s.socket_map
    → (destroy_server (accept (some a) s)).sockets s.next ≡ a.fd
unfolding destroy_server
reconnected_leaks a n s there numbered = ground (
  arith,
  insert_old a.address s.next s.socket_map there,
  destroy_each_lem s.socket_map (accept (some a) s).sockets s.next,
  not_in_map s.socket_map s.next numbered,
  int_eq_iff (pos s.next) (pos s.next),
)
