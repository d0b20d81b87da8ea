-- ===== src/Select/Known.antt =====
-- Which descriptor `Select` of src/tcppipe.hpp has for an address, and how its `run` changes that.
use cpp_shared.Select.{Select, leaves, again, add_socket, accept_round, Outcome, undefined}
use cpp_shared.Select.Limits.{HoldsAfter, accept_all, next_round}
use cpp_shared.Prelude.{
  bytes_eq_iff, ◌<◌, int_eq, int_eq_iff, ap, ◌∙◌, ℕ, ◌≡◌, subst, List, [], ◌∷◌, Option, none, some,
  Option-cases, true, false, arith, if◌then◌else◌, Bytes, ℤ, pos, int_lt, Map, lookup, insert,
  bytes_key, lookup-assign, refl, sym, insert_old, bytes_eq, Bool-cases, inl, inr, All,
}
use cpp_shared.Select.Keeping.{IsSmall, IsWell, round-IsWell}

abbrev pub held_at : (ℕ → ℤ) → Option ℕ → Option ℤ
held_at sockets none = none
held_at sockets (some n) = some (sockets n)

-- The descriptor of the socket that the map has for an address.
abbrev pub descriptor : Bytes → Select → Option ℤ
descriptor address s = held_at s.sockets (lookup address s.socket_map)

abbrev pub or_else : Option ℤ → Option ℤ → Option ℤ
or_else none o = o
or_else (some fd) o = some fd

-- The descriptor of the first connection from an address that a list of rounds brings.
unfoldable pub first_from : Bytes → List (ℤ × Option (ℤ × Bytes)) → Option ℤ
first_from address [] = none
first_from address ((count, none) ∷ l) = first_from address l
first_from address ((count, some (fd, peer)) ∷ l) =
    if int_lt (pos 0) count
    then if bytes_eq address peer then some fd else first_from address l
    else first_from address l

or_else-nested : (a b c : Option ℤ) → or_else (or_else a b) c ≡ or_else a (or_else b c)
or_else-nested none b c = refl
or_else-nested (some fd) b c = refl

or_else-none : (o : Option ℤ) → or_else o none ≡ o
or_else-none none = refl
or_else-none (some fd) = refl

or_else_there :
    (sockets : ℕ → ℤ) (o : Option ℕ) (k : ℕ) (fd : ℤ)
    → o ≡ some k
    → held_at sockets o ≡ or_else (held_at sockets o) (some fd)
or_else_there sockets o k fd e = rw e refl

chosen :
    (address peer : Bytes) (fd : ℤ) (o : Option ℤ) (l : List (ℤ × Option (ℤ × Bytes)))
    → or_else o (or_else (if bytes_eq address peer then some fd else none) (first_from address l))
      ≡ or_else o (if bytes_eq address peer then some fd else first_from address l)
chosen address peer fd o l = ground arith

lookup_below :
    (address : Bytes) (n k : ℕ) (m : Map Bytes ℕ)
    → All (λ e. e.1 < n) m
    → lookup address m ≡ some k
    → k < n
unfolding lookup
lookup_below address n k [] below e = ground arith
lookup_below address n k ((key, j) ∷ m) below e = elim (Bool-cases (bytes_eq address key)) [
  | inl same ↦ ground (arith, below.0)
  | inr other ↦ lookup_below address n k m below.1 (ground arith)
]

-- A new socket does not replace one that the map has.
unchanged :
    (address : Bytes) (fd : ℤ) (n : ℕ) (sockets : ℕ → ℤ) (m : Map Bytes ℕ)
    → All (λ e. e.1 < n) m
    → held_at (λ k. if int_eq (pos k) (pos n) then fd else sockets k) (lookup address m)
      ≡ held_at sockets (lookup address m)
unchanged address fd n sockets m below = elim (Option-cases (lookup address m)) [
  | inl missing ↦ rw missing refl
  | inr (k, there) ↦
      rw there (ground (arith, lookup_below address n k m below there, int_eq_iff (pos k) (pos n)))
]

same_lookup :
    (address peer : Bytes) (m : Map Bytes ℕ)
    → bytes_eq address peer ≡ true
    → lookup address m ≡ lookup peer m
same_lookup address peer m same =
    let equal : address ≡ peer = ground (arith, bytes_eq_iff address peer) in rw equal refl

descriptor-add_socket :
    (address peer : Bytes) (fd : ℤ) (s : Select)
    → All (λ e. e.1 < s.next) s.socket_map
    → descriptor address (add_socket fd peer s)
      ≡ or_else (descriptor address s) (if bytes_eq address peer then some fd else none)
unfolding insert
descriptor-add_socket address peer fd s below =
    let n : ℕ = s.next in
    let m : Map Bytes ℕ = s.socket_map in
    let kept = unchanged address fd n s.sockets m below in
    elim (Bool-cases (bytes_eq address peer)) [
      | inl same ↦ elim (Option-cases (lookup peer m)) [
        | inl new ↦
            rw (insert, new, lookup-assign peer address n m, same, same_lookup address peer m same)
              (ground (arith, int_eq_iff (pos n) (pos n)))
        | inr (old, there) ↦
            let known : lookup address m ≡ some old = same_lookup address peer m same ∙ there in
            rw (insert_old peer n m there, same)
              (kept ∙ or_else_there s.sockets (lookup address m) old fd known)
      ]
      | inr other ↦ elim (Option-cases (lookup peer m)) [
        | inl new ↦
            rw (insert, new, lookup-assign peer address n m, other)
              (kept ∙ sym (or_else-none (descriptor address s)))
        | inr (old, there) ↦
            rw (insert_old peer n m there, other) (kept ∙ sym (or_else-none (descriptor address s)))
      ]
    ]

none_round : (count : ℤ) (s s1 : Select) → accept_round count none s ≡ again s1 → s1 ≡ s
unfolding accept_round
none_round count s s1 e = ground arith

idle_round :
    (count fd : ℤ) (address : Bytes) (s s1 : Select)
    → int_lt (pos 0) count ≡ false
    → accept_round count (some (fd, address)) s ≡ again s1
    → s1 ≡ s
unfolding accept_round
idle_round count fd address s s1 idle e = ground arith

busy_round :
    (count fd : ℤ) (address : Bytes) (s s1 : Select)
    → int_lt (pos 0) count ≡ true
    → accept_round count (some (fd, address)) s ≡ again s1
    → s1 ≡ add_socket fd address s
unfolding accept_round
busy_round count fd address s s1 busy e = ground arith

next-IsWell :
    (count : ℤ) (accepted : Option (ℤ × Bytes)) (s s1 : Select)
    → IsSmall (count, accepted)
    → IsWell s
    → accept_round count accepted s ≡ again s1
    → IsWell s1
next-IsWell count accepted s s1 small w e =
    subst (HoldsAfter IsWell) e (round-IsWell count accepted s small w)

-- A round that goes on, and the rounds after it.
after_round :
    (l : List (ℤ × Option (ℤ × Bytes))) (o : Outcome Select) (s' : Select) (P : Type 0)
    → ((s1 : Select) → o ≡ again s1 → accept_all l s1 ≡ again s' → P)
    → next_round (λ s1. accept_all l s1) o ≡ again s'
    → P
after_round l undefined s' P f e = ground arith
after_round l (leaves s) s' P f e = ground arith
after_round l (again s) s' P f e = f s refl e

-- What a round adds comes before what the rounds after it add.
descriptor_round :
    (address : Bytes) (count fd : ℤ) (peer : Bytes) (l : List (ℤ × Option (ℤ × Bytes)))
    (s s1 : Select)
    → IsWell s
    → accept_round count (some (fd, peer)) s ≡ again s1
    → or_else (descriptor address s1) (first_from address l)
      ≡ or_else (descriptor address s) (first_from address ((count, some (fd, peer)) ∷ l))
unfolding first_from
descriptor_round address count fd peer l s s1 w e = elim (Bool-cases (int_lt (pos 0) count)) [
  | inl busy ↦
      rw
        (
          first_from,
          busy,
          busy_round count fd peer s s1 busy e,
          descriptor-add_socket address peer fd s w.numbered,
        )
        (or_else-nested (descriptor address s) _ _
          ∙ chosen address peer fd (descriptor address s) l)
  | inr idle ↦ rw (first_from, idle, idle_round count fd peer s s1 idle e) refl
]

-- After any rounds the map has for an address the descriptor that it had before, and otherwise that of
-- the first connection accepted from it.
pub descriptor-accept_all :
    (address : Bytes) (l : List (ℤ × Option (ℤ × Bytes))) (s s' : Select)
    → All IsSmall l
    → IsWell s
    → accept_all l s ≡ again s'
    → descriptor address s' ≡ or_else (descriptor address s) (first_from address l)
unfolding accept_all first_from
descriptor-accept_all address [] s s' small w e =
    let same : s ≡ s' = ground arith in
    ap (λ t. descriptor address t) (sym same) ∙ sym (or_else-none (descriptor address s))
descriptor-accept_all address ((count, none) ∷ l) s s' small w e =
    after_round l (accept_round count none s) s' _
      (λ s1 here_ rest.
        descriptor-accept_all address l s1 s' small.1 (next-IsWell count none s s1 small.0 w here_)
          rest
        ∙ ap (λ t. or_else (descriptor address t) (first_from address l))
            (none_round count s s1 here_))
      e
descriptor-accept_all address ((count, some (fd, peer)) ∷ l) s s' small w e =
    after_round l (accept_round count (some (fd, peer)) s) s' _
      (λ s1 here_ rest.
        descriptor-accept_all address l s1 s' small.1
          (next-IsWell count (some (fd, peer)) s s1 small.0 w here_) rest
        ∙ descriptor_round address count fd peer l s s1 w here_)
      e
