-- ===== src/Prelude/Bits.antt =====
-- A mask of ones keeps the low digits of a number: `x & 0x3ff`.
use Prim.Native.Nat.{ℕ, zero, suc, ◌+◌, ◌*◌, ◌/◌, ◌%◌, ◌≤◌, min, bit_and, digits, bit_and-bitwise}
use mathlib.Core.Path.{◌≡◌, refl, ap, sym, ◌∙◌}
use native.Mathlib.Omega.{arith}

-- The number of `k` binary ones.
ones : ℕ → ℕ
ones zero = 0
ones (suc k) = 2 * ones k + 1

-- The lowest `k` binary digits of a number.
low : ℕ → ℕ → ℕ
low zero a = 0
low (suc k) a = 2 * low k (a / 2) + a % 2

low-zero : (k : ℕ) → low k 0 ≡ 0
unfolding low
low-zero zero = refl
low-zero (suc k) = omega (arith, low-zero k)

abbrev masked : ℕ → ℕ → ℕ → ℕ
masked fuel a k = digits (λ b. zero) min fuel a (ones k)

half-ones : (k : ℕ) → ones (suc k) / 2 ≡ ones k
unfolding ones
half-ones k = omega arith

masked-low : (fuel a k : ℕ) → a ≤ fuel → masked fuel a k ≡ low k a
unfolding low ones
masked-low zero zero k h = sym (low-zero k)
masked-low zero (suc a) k h = absurd (omega arith)
masked-low (suc fuel) zero k h = sym (low-zero k)
masked-low (suc fuel) (suc a) zero h = omega (arith, masked-low fuel (suc a / 2) zero (omega arith))
masked-low (suc fuel) (suc a) (suc k) h = omega (
  arith,
  ap (digits (λ b. zero) min fuel (suc a / 2)) (half-ones k),
  masked-low fuel (suc a / 2) k (omega arith),
)

pub bit_and_1023 : (a : ℕ) → bit_and a 1023 ≡ a % 1024
unfolding low ones
bit_and_1023 a = bit_and-bitwise a 1023 ∙ masked-low a a 10 (omega arith) ∙ omega arith
