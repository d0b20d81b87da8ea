-- ===== src/Select/Passes.antt =====
-- A pass of the receiving thread of `Select` over its sockets, and the pass after it: src/tcppipe.hpp.
use cpp_shared.Select.{fits, undefined, again, Seen, received, pass}
use cpp_shared.Prelude.{
  ℕ, ◌≡◌, [], ◌∷◌, some, Bool, true, false, not, ◌⊎◌, arith, Bytes, ℤ, pos, int_eq, int_lt,
  int_eq_iff, Map, lookup, bytes_key, bytes_eq, Bool-cases, inl, inr,
}

abbrev pub Calls : Type 0
Calls = ℕ → ℤ × Bytes

-- No `select` fails.
abbrev pub IsAnswered : Calls → Type 0
IsAnswered calls = (n : ℕ) → int_lt (calls n).0 (pos 0) ≡ false

received_unfit :
    (key content : Bytes) (n k : ℕ) (seen : Seen)
    → fits (seen.0 k) ≡ false
    → fits ((received key n content seen).0 k) ≡ false
received_unfit key [] n k (sockets, out) h = ground (arith, h)
received_unfit key (c ∷ content) n k (sockets, out) h = h

-- A pass over a map with a descriptor that does not fit an fd_set is undefined behaviour, whatever
-- the calls return, unless one of them fails before.
pub unfit_faults :
    (m : Map Bytes ℕ) (calls : Calls) (seen : Seen) (key : Bytes) (k : ℕ)
    → IsAnswered calls
    → lookup key m ≡ some k
    → fits (seen.0 k) ≡ false
    → pass m calls seen ≡ undefined
unfolding pass lookup
unfit_faults [] calls seen key k answered at unfit = cc
unfit_faults ((key', n) ∷ m) calls seen key k answered at unfit =
    elim (Bool-cases (bytes_eq key key')) [
      | inl here ↦ ground (arith, at, unfit, here)
      | inr later ↦ ground (
        arith,
        answered n,
        unfit_faults m calls seen key k answered (ground (arith, at, later)) unfit,
        unfit_faults m calls (received key' n (calls n).1 seen) key k answered
            (ground (arith, at, later)) (received_unfit key' (calls n).1 n k seen unfit),
      )
    ]

-- The socket's peer has gone, or its `recv` fails.
abbrev pub hung_up : ℤ × Bytes → Bool
hung_up (count, []) = not (int_eq count (pos 0))
hung_up (count, c ∷ content) = false

-- What a pass that ends did first.
pass-cases :
    (key : Bytes) (n : ℕ) (m : Map Bytes ℕ) (calls : Calls) (seen seen' : Seen)
    → pass ((key, n) ∷ m) calls seen ≡ again seen'
    → (fits (seen.0 n) ≡ true)
      × (((int_eq (calls n).0 (pos 0) ≡ true) × (pass m calls seen ≡ again seen'))
          ⊎ ((int_eq (calls n).0 (pos 0) ≡ false)
              × (pass m calls (received key n (calls n).1 seen) ≡ again seen')))
unfolding pass
pass-cases key n m calls seen seen' e = ground (arith, e)

pass_unfit :
    (m : Map Bytes ℕ) (calls : Calls) (seen seen' : Seen) (k : ℕ)
    → pass m calls seen ≡ again seen'
    → fits (seen.0 k) ≡ false
    → fits (seen'.0 k) ≡ false
unfolding pass
pass_unfit [] calls seen seen' k e unfit = ground (arith, e, unfit)
pass_unfit ((key, n) ∷ m) calls seen seen' k e unfit =
    let (fit, next) = pass-cases key n m calls seen seen' e in
    elim next [
      | inl (quiet, rest) ↦ pass_unfit m calls seen seen' k rest unfit
      | inr (ready, rest) ↦
          pass_unfit m calls (received key n (calls n).1 seen) seen' k rest
            (received_unfit key (calls n).1 n k seen unfit)
    ]

hung_up-unfit :
    (key : Bytes) (n : ℕ) (call : ℤ × Bytes) (seen : Seen)
    → hung_up call ≡ true
    → fits ((received key n call.1 seen).0 n) ≡ false
hung_up-unfit key n (count, []) (sockets, out) h = ground (arith, int_eq_iff (pos n) (pos n))
hung_up-unfit key n (count, c ∷ content) (sockets, out) h = cc

hung_up-ready : (call : ℤ × Bytes) → hung_up call ≡ true → int_eq call.0 (pos 0) ≡ false
hung_up-ready (count, []) h = ground (arith, h)
hung_up-ready (count, c ∷ content) h = cc

-- After a pass in which a peer has hung up, its socket is closed, and still in the map.
closed-unfit :
    (m : Map Bytes ℕ) (calls : Calls) (seen seen' : Seen) (key : Bytes) (k : ℕ)
    → pass m calls seen ≡ again seen'
    → lookup key m ≡ some k
    → hung_up (calls k) ≡ true
    → fits (seen'.0 k) ≡ false
unfolding lookup
closed-unfit [] calls seen seen' key k e at gone = cc
closed-unfit ((key', n) ∷ m) calls seen seen' key k e at gone =
    let (fit, next) = pass-cases key' n m calls seen seen' e in
    let ready : int_eq (calls k).0 (pos 0) ≡ false = hung_up-ready (calls k) gone in
    elim (Bool-cases (bytes_eq key key')) [
      | inl here ↦
          let same : n ≡ k = ground (arith, at, here) in
          elim next [
            | inl (quiet, rest) ↦ ground (arith, quiet, ready, same)
            | inr (more, rest) ↦
                pass_unfit m calls (received key' n (calls n).1 seen) seen' k rest
                  (rw (← same) (hung_up-unfit key' n (calls n) seen (rw same gone)))
          ]
      | inr later ↦
          let at' : lookup key m ≡ some k = ground (arith, at, later) in
          elim next [
            | inl (quiet, rest) ↦ closed-unfit m calls seen seen' key k rest at' gone
            | inr (more, rest) ↦
                closed-unfit m calls (received key' n (calls n).1 seen) seen' key k rest at' gone
          ]
    ]

-- After a pass of `receive` in which a peer has hung up, the next pass is undefined behaviour, unless a
-- `select` fails before: the closed socket stays in the map, and FD_SET is called with -1.
pub hang_up_faults :
    (m : Map Bytes ℕ) (calls calls' : Calls) (seen seen' : Seen) (key : Bytes) (k : ℕ)
    → pass m calls seen ≡ again seen'
    → lookup key m ≡ some k
    → hung_up (calls k) ≡ true
    → IsAnswered calls'
    → pass m calls' seen' ≡ undefined
hang_up_faults m calls calls' seen seen' key k e at gone answered =
    unfit_faults m calls' seen' key k answered at (closed-unfit m calls seen seen' key k e at gone)
