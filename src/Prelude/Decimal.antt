-- ===== src/Prelude/Decimal.antt =====
-- `std::to_string` and the `%d`, `%02d` and `%03d` of `sprintf`, for numbers that are not negative.
use Prim.Native.Nat.{ℕ, zero, suc, ◌+◌, ◌-◌, ◌*◌, ◌/◌, ◌%◌, ◌≤◌, ◌<◌}
use mathlib.Core.Path.{◌≡◌, refl, ap, sym, ◌∙◌}
use mathlib.Core.Logic.{inl, inr}
use mathlib.Core.List.{List, [], ◌∷◌, ◌++◌}
use native.Mathlib.Omega.{arith}
use cpp_shared.Prelude.Tests.{ltb, if◌then◌else◌, Bool-cases}
use cpp_shared.Prelude.Lists.{length, length-append, length-replicate, replicate, All}
use cpp_shared.Prelude.Keys.{Bytes}

-- The digits, with fuel for one more than there are.
unfoldable pub digits : ℕ → ℕ → Bytes
digits zero n = []
digits (suc fuel) n =
    let more = digits fuel (n / 10) ++ ((b'0' + n % 10) ∷ []) in
    if ltb n 10 then (b'0' + n) ∷ [] else more

-- A number has no more digits than one more than its value.
unfoldable pub print : ℕ → Bytes
unfolding digits
print n = digits (suc n) n

-- `%0wd`
unfoldable pub print_padded : ℕ → ℕ → Bytes
unfolding print
print_padded w n = replicate (w - length (print n)) b'0' ++ print n

-- The number that digits spell behind `n`.
abbrev pub value : ℕ → Bytes → ℕ
value n [] = n
value n (c ∷ s) = value (n * 10 + (c - b'0')) s

value-append : (n : ℕ) (s t : Bytes) → value n (s ++ t) ≡ value (value n s) t
value-append n [] t = refl
value-append n (c ∷ s) t = value-append (n * 10 + (c - b'0')) s t

value-digits : (fuel n : ℕ) → n < fuel → value 0 (digits fuel n) ≡ n
unfolding digits
value-digits zero n h = absurd (omega arith)
value-digits (suc fuel) n h = elim (Bool-cases (ltb n 10)) [
  | inl small ↦ rw small (omega arith)
  | inr big ↦
      let rest : n / 10 < fuel = ground arith in
      rw big (
        value-append 0 (digits fuel (n / 10)) ((b'0' + n % 10) ∷ [])
        ∙ omega (arith, value-digits fuel (n / 10) rest))
]

-- A printed number reads back.
pub value-print : (n : ℕ) → value 0 (print n) ≡ n
unfolding print
value-print n = value-digits (suc n) n (omega arith)

pub print_injective : (m n : ℕ) → print m ≡ print n → m ≡ n
print_injective m n e = sym (value-print m) ∙ ap (value 0) e ∙ value-print n

abbrev pub IsDigit : ℕ → Type 0
IsDigit c = (b'0' ≤ c) × (c ≤ b'9')

abbrev pub ten_to : ℕ → ℕ
ten_to zero = 1
ten_to (suc k) = 10 * ten_to k

length-digits : (fuel k n : ℕ) → n < ten_to (suc k) → length (digits fuel n) ≤ suc k
unfolding digits
length-digits zero k n h = omega arith
length-digits (suc fuel) zero n h = ground arith
length-digits (suc fuel) (suc k) n h = ground (
  arith,
  length-append (digits fuel (n / 10)) ((b'0' + n % 10) ∷ []),
  length-digits fuel k (n / 10),
)

pub length-print : (k n : ℕ) → n < ten_to (suc k) → length (print n) ≤ suc k
unfolding print
length-print k n h = length-digits (suc n) k n h

-- A number that fits its width is printed with that width exactly.
pub length-print_padded : (k n : ℕ) → n < ten_to (suc k) → length (print_padded (suc k) n) ≡ suc k
unfolding print_padded
length-print_padded k n h = omega (
  arith,
  length-print k n h,
  length-append (replicate (suc k - length (print n)) b'0') (print n),
  length-replicate {A = ℕ} (suc k - length (print n)) b'0',
)

pub append-All {ℓ κ} :
    {A : Type ℓ} (P : A → Type κ) (l m : List A) → All P l → All P m → All P (l ++ m)
append-All P [] m both rest = rest
append-All P (a ∷ l) m both rest = (both.0, append-All P l m both.1 rest)

digits-All : (fuel n : ℕ) → All IsDigit (digits fuel n)
unfolding digits
digits-All zero n = tt
digits-All (suc fuel) n = elim (Bool-cases (ltb n 10)) [
  | inl small ↦ rw small (ground arith)
  | inr big ↦ rw big (
      append-All IsDigit (digits fuel (n / 10)) ((b'0' + n % 10) ∷ []) (digits-All fuel (n / 10))
        ((omega arith, omega arith), tt))
]

pub print-All : (n : ℕ) → All IsDigit (print n)
unfolding print
print-All n = digits-All (suc n) n

zeros-All : (k : ℕ) → All IsDigit (replicate k b'0')
zeros-All zero = tt
zeros-All (suc k) = ((omega arith, omega arith), zeros-All k)

pub print_padded-All : (w n : ℕ) → All IsDigit (print_padded w n)
unfolding print_padded
print_padded-All w n =
    append-All IsDigit (replicate (w - length (print n)) b'0') (print n)
      (zeros-All (w - length (print n))) (print-All n)
