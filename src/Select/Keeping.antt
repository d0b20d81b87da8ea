-- ===== src/Select/Keeping.antt =====
-- The sockets that `Select::run` accepts stay open, different and within an fd_set: src/tcppipe.hpp.
use cpp_shared.Select.{Select, fits, leaves, again, add_socket, accept, accept_round}
use cpp_shared.Select.Reading.{IsServed, IsDistinct}
use cpp_shared.Select.Limits.{HoldsAfter, accept_all, next_round_holds}
use cpp_shared.Prelude.{
  ℕ, suc, ◌<◌, ◌≡◌, List, [], ◌∷◌, Option, none, some, Option-cases, true, false, arith,
  if◌then◌else◌, Bytes, ℤ, pos, int_eq, int_lt, int_eq_iff, Map, lookup, insert, assign, bytes_key,
  bytes_eq, bytes_lt, ◌==◌, Bool-cases, inl, inr, All,
}

All-assign :
    (P : Bytes × ℕ → Type 0) (key : Bytes) (n : ℕ) (m : Map Bytes ℕ)
    → P (key, n)
    → All P m
    → All P (assign key n m)
unfolding assign
All-assign P key n [] p h = (p, tt)
All-assign P key n ((key', n') ∷ m) p h = elim (Bool-cases (bytes_eq key key')) [
  | inl same ↦ rw (assign, same) (p, h.1)
  | inr other ↦ elim (Bool-cases (bytes_lt key key')) [
    | inl less ↦ rw (assign, other, less) (p, h)
    | inr more ↦ rw (assign, other, more) (h.0, All-assign P key n m p h.1)
  ]
]

All-sym : (n : ℕ) (m : Map Bytes ℕ) → All (λ e. e.1 < n) m → All (λ e. (n == e.1) ≡ false) m
All-sym n [] h = tt
All-sym n ((key, n') ∷ m) h = (ground (arith, h.0), All-sym n m h.1)

IsDistinct-assign :
    (key : Bytes) (n : ℕ) (m : Map Bytes ℕ)
    → All (λ e. e.1 < n) m
    → IsDistinct m
    → IsDistinct (assign key n m)
unfolding assign
IsDistinct-assign key n [] below d = (tt, tt)
IsDistinct-assign key n ((key', n') ∷ m) below d = elim (Bool-cases (bytes_eq key key')) [
  | inl same ↦ rw (assign, same) (All-sym n m below.1, d.1)
  | inr other ↦ elim (Bool-cases (bytes_lt key key')) [
    | inl less ↦ rw (assign, other, less) (All-sym n ((key', n') ∷ m) below, d)
    | inr more ↦
        rw (assign, other, more)
          (
            All-assign (λ e. (n' == e.1) ≡ false) key n m (ground (arith, below.0)) d.0,
            IsDistinct-assign key n m below.1 d.1,
          )
  ]
]

-- The numbers of the sockets are below the next one.
pub record IsWell (s : Select) : Type 0 where
  pub served : IsServed s.socket_map s.sockets
  pub numbered : All (λ e. e.1 < s.next) s.socket_map

raised : (n : ℕ) (m : Map Bytes ℕ) → All (λ e. e.1 < n) m → All (λ e. e.1 < suc n) m
raised n [] h = tt
raised n ((key, k) ∷ m) h = (omega (arith, h.0), raised n m h.1)

kept :
    (fd : ℤ) (n : ℕ) (sockets : ℕ → ℤ) (m : Map Bytes ℕ)
    → All (λ e. e.1 < n) m
    → All (λ e. fits (sockets e.1) ≡ true) m
    → All (λ e. fits (if int_eq (pos e.1) (pos n) then fd else sockets e.1) ≡ true) m
kept fd n sockets [] below h = tt
kept fd n sockets ((key, k) ∷ m) below h =
    (ground (arith, below.0, h.0, int_eq_iff (pos k) (pos n)), kept fd n sockets m below.1 h.1)

add_socket-IsWell :
    (fd : ℤ) (address : Bytes) (s : Select)
    → fits fd ≡ true
    → IsWell s
    → IsWell (add_socket fd address s)
unfolding insert
add_socket-IsWell fd address s fit w =
    let n : ℕ = s.next in
    let fits' = kept fd n s.sockets s.socket_map w.numbered w.served.all_fit in
    let numbers = raised n s.socket_map w.numbered in
    elim (Option-cases (lookup address s.socket_map)) [
      | inl new ↦ record {
        served = record {
          all_fit =
              rw (insert, new)
                (All-assign _ address n s.socket_map
                  (ground (arith, fit, int_eq_iff (pos n) (pos n))) fits');
          distinct =
              rw (insert, new)
                (IsDistinct-assign address n s.socket_map w.numbered w.served.distinct);
        };
        numbered = rw (insert, new) (All-assign _ address n s.socket_map (omega arith) numbers);
      }
      | inr (old, there) ↦ record {
        served = record {
          all_fit = rw (insert, there) fits';
          distinct = rw (insert, there) w.served.distinct;
        };
        numbered = rw (insert, there) numbers;
      }
    ]

-- The descriptor of a new connection fits an fd_set.
abbrev pub IsSmall : ℤ × Option (ℤ × Bytes) → Type 0
IsSmall (count, none) = Unit {0}
IsSmall (count, some (fd, address)) = fits fd ≡ true

quiet-IsWell :
    (count : ℤ) (s : Select)
    → IsWell s
    → HoldsAfter IsWell (
        if int_lt count (pos 0)
        then leaves s
        else if int_eq count (pos 0)
        then again s
        else again s)
quiet-IsWell count s w = ground (arith, w)

ready-IsWell :
    (count fd : ℤ) (address : Bytes) (s : Select)
    → fits fd ≡ true
    → IsWell s
    → HoldsAfter IsWell (
        if int_lt count (pos 0)
        then leaves s
        else if int_eq count (pos 0)
        then again s
        else accept (some (fd, address)) s)
ready-IsWell count fd address s small w = ground (arith, w, add_socket-IsWell fd address s small w)

pub round-IsWell :
    (count : ℤ) (accepted : Option (ℤ × Bytes)) (s : Select)
    → IsSmall (count, accepted)
    → IsWell s
    → HoldsAfter IsWell (accept_round count accepted s)
unfolding accept_round
round-IsWell count none s small w = elim (Bool-cases (fits s.fd)) [
  | inl fit ↦ rw (accept_round, fit) (quiet-IsWell count s w)
  | inr unfit ↦ rw (accept_round, unfit) tt
]
round-IsWell count (some (fd, address)) s small w = elim (Bool-cases (fits s.fd)) [
  | inl fit ↦ rw (accept_round, fit) (ready-IsWell count fd address s small w)
  | inr unfit ↦ rw (accept_round, unfit) tt
]

-- Every socket of the map is open, within an fd_set, and has a number of its own, whatever connections
-- are accepted, if their descriptors are below FD_SETSIZE.
pub accept_all-IsWell :
    (l : List (ℤ × Option (ℤ × Bytes))) (s : Select)
    → All IsSmall l
    → IsWell s
    → HoldsAfter IsWell (accept_all l s)
unfolding accept_all
accept_all-IsWell [] s small w = w
accept_all-IsWell ((count, accepted) ∷ l) s small w =
    next_round_holds IsWell (λ s'. accept_all l s') (λ s' w'. accept_all-IsWell l s' small.1 w')
      (accept_round count accepted s) (round-IsWell count accepted s small.0 w)
