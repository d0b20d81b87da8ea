-- ===== src/Select/Reading.antt =====
-- What a pass of `Select::receive` prints and closes while all peers are there: src/tcppipe.hpp.
use cpp_shared.Select.{fits, again, Seen, received, pass}
use cpp_shared.Select.Passes.{Calls, IsAnswered, hung_up}
use cpp_shared.Prelude.{
  ℕ, ◌≡◌, refl, sym, ap, List, [], ◌∷◌, ◌++◌, append-nil, append_assoc, Bool, true, false, ◌||◌,
  ◌&&◌, arith, if◌then◌else◌, Bytes, ℤ, pos, negsuc, int_eq, int_eq_iff, Map, bytes_key, ◌==◌,
  Bool-cases, inl, inr, All,
}

abbrev pub IsDistinct : Map Bytes ℕ → Type 0
IsDistinct [] = Unit
IsDistinct ((key, n) ∷ m) = All (λ e. (n == e.1) ≡ false) m × IsDistinct m

-- The sockets of the map are open, fit an fd_set, and are all different.
pub record IsServed (m : Map Bytes ℕ) (sockets : ℕ → ℤ) : Type 0 where
  pub all_fit : All (λ e. fits (sockets e.1) ≡ true) m
  pub distinct : IsDistinct m

-- The messages of a pass, with the address of their sender, in the order of the addresses.
abbrev pub message_of : Bytes → ℤ × Bytes → List (Bytes × Bytes)
message_of key (count, []) = []
message_of key (count, c ∷ content) = if int_eq count (pos 0) then [] else (key, c ∷ content) ∷ []

unfoldable pub messages : Map Bytes ℕ → Calls → List (Bytes × Bytes)
messages [] calls = []
messages ((key, n) ∷ m) calls = message_of key (calls n) ++ messages m calls

unfoldable pub in_map : Map Bytes ℕ → ℕ → Bool
in_map [] k = false
in_map ((key, n) ∷ m) k = (n == k) || in_map m k

-- The descriptors afterwards: those whose peer has hung up are closed.
abbrev pub closed_in : Map Bytes ℕ → Calls → (ℕ → ℤ) → ℕ → ℤ
closed_in m calls sockets k = if in_map m k && hung_up (calls k) then negsuc 0 else sockets k

fits_after :
    (key content : Bytes) (n : ℕ) (m : Map Bytes ℕ) (seen : Seen)
    → All (λ e. (n == e.1) ≡ false) m
    → All (λ e. fits (seen.0 e.1) ≡ true) m
    → All (λ e. fits ((received key n content seen).0 e.1) ≡ true) m
fits_after key content n [] seen d h = tt
fits_after key [] n ((key', n') ∷ m) (sockets, out) d h = (
  ground (arith, d.0, h.0, int_eq_iff (pos n') (pos n)),
  fits_after key [] n m (sockets, out) d.1 h.1,
)
fits_after key (c ∷ content) n ((key', n') ∷ m) (sockets, out) d h = h

-- One socket of a pass, in terms of the whole: its message and its descriptor.
received_lem :
    (key : Bytes) (n : ℕ) (call : ℤ × Bytes) (seen : Seen)
    → int_eq call.0 (pos 0) ≡ false
    → ((received key n call.1 seen).1 ≡ seen.1 ++ message_of key call)
      × ((k : ℕ)
          → (received key n call.1 seen).0 k
            ≡ (if (n == k) && hung_up call then negsuc 0 else seen.0 k))
received_lem key n (count, []) (sockets, out) ready =
    (sym (append-nil out), λ k. ground (arith, int_eq_iff (pos k) (pos n), ready))
received_lem key n (count, c ∷ content) (sockets, out) ready = (ground arith, λ k. ground arith)

quiet_message :
    (key : Bytes) (call : ℤ × Bytes) → int_eq call.0 (pos 0) ≡ true → message_of key call ≡ []
quiet_message key (count, []) quiet = refl
quiet_message key (count, c ∷ content) quiet = ground (arith, quiet)

quiet_call : (call : ℤ × Bytes) → int_eq call.0 (pos 0) ≡ true → hung_up call ≡ false
quiet_call (count, []) quiet = ground (arith, quiet)
quiet_call (count, c ∷ content) quiet = refl

-- If all sockets of the map are open and fit, and no `select` fails, then a pass prints the message of
-- every peer that sent one, once and in the order of the addresses, and closes exactly the sockets
-- whose peer has hung up.
pub pass_reads :
    (m : Map Bytes ℕ) (calls : Calls) (seen : Seen)
    → IsAnswered calls
    → IsServed m seen.0
    → (sockets : ℕ → ℤ) × (pass m calls seen ≡ again (sockets, seen.1 ++ messages m calls))
      × ((k : ℕ) → sockets k ≡ closed_in m calls seen.0 k)
unfolding pass messages in_map
pass_reads [] calls seen answered served =
    (seen.0, ap (λ l. again (seen.0, l)) (sym (append-nil seen.1)), λ k. refl)
pass_reads ((key, n) ∷ m) calls seen answered served =
    elim (Bool-cases (int_eq (calls n).0 (pos 0))) [
      | inl quiet ↦
          let (sockets, e, same) =
            pass_reads m calls seen answered
              (record { all_fit = served.all_fit.1; distinct = served.distinct.1 }) in
          (
            sockets,
            ground
                (arith, e, quiet, answered n, served.all_fit.0, quiet_message key (calls n) quiet),
            λ k. ground (arith, same k, quiet_call (calls n) quiet),
          )
      | inr ready ↦
          let (prints, closes) = received_lem key n (calls n) seen ready in
          let after : Seen = received key n (calls n).1 seen in
          let (sockets, e, same) = pass_reads m calls after answered (record {
            all_fit = fits_after key (calls n).1 n m seen served.distinct.0 served.all_fit.1;
            distinct = served.distinct.1;
          }) in
          (
            sockets,
            ground (
              arith,
              e,
              ready,
              answered n,
              served.all_fit.0,
              prints,
              append_assoc seen.1 (message_of key (calls n)) (messages m calls),
            ),
            λ k. ground (arith, same k, closes k),
          )
    ]
