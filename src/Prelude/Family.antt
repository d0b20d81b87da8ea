-- ===== src/Prelude/Family.antt =====
-- Families indexed by thread: a write at one thread, and a count over the first threads.
use Prim.Native.Nat.{ℕ, zero, suc, ◌+◌, ◌≤◌, ◌<◌}
use mathlib.Core.Path.{◌≡◌, refl}
use native.Mathlib.Omega.{arith}
use cpp_shared.Prelude.Tests.{◌==◌, if◌then◌else◌}

module _ {ℓ} {A : Type ℓ} where
  abbrev pub write : (ℕ → A) → ℕ → A → ℕ → A
  write f i a j = if i == j then a else f j

  pub total : (A → ℕ) → ℕ → (ℕ → A) → ℕ
  total w zero f = 0
  total w (suc n) f = w (f n) + total w n f

  total-write_above :
      (w : A → ℕ) (n : ℕ) (f : ℕ → A) (i : ℕ) (a : A)
      → n ≤ i
      → total w n (write f i a) ≡ total w n f
  unfolding total
  total-write_above w zero f i a h = refl
  total-write_above w (suc n) f i a h = ground (arith, total-write_above w n f i a)

  -- A write at a thread replaces its weight in the total.
  pub total-write :
      (w : A → ℕ) (n : ℕ) (f : ℕ → A) (i : ℕ) (a : A)
      → i < n
      → total w n (write f i a) + w (f i) ≡ total w n f + w a
  unfolding total
  total-write w zero f i a h = absurd (omega arith)
  total-write w (suc n) f i a h = ground (arith, total-write w n f i a, total-write_above w n f i a)

  pub le-total : (w : A → ℕ) (n : ℕ) (f : ℕ → A) (i : ℕ) → i < n → w (f i) ≤ total w n f
  unfolding total
  le-total w zero f i h = absurd (omega arith)
  le-total w (suc n) f i h = ground (arith, le-total w n f i)

  pub total-eq-zero :
      (w : A → ℕ) (n : ℕ) (f : ℕ → A) → ((i : ℕ) → i < n → w (f i) ≡ 0) → total w n f ≡ 0
  unfolding total
  total-eq-zero w zero f h = refl
  total-eq-zero w (suc n) f h =
      omega (arith, h n (omega arith), total-eq-zero w n f (λ i lt. h i (omega arith)))

  -- Two threads of weight at least 1 each make a total of at least 2.
  pub two-le-total :
      (w : A → ℕ) (n : ℕ) (f : ℕ → A) (i j : ℕ) → i < j → j < n → w (f i) + w (f j) ≤ total w n f
  unfolding total
  two-le-total w zero f i j h k = absurd (omega arith)
  two-le-total w (suc n) f i j h k = ground (arith, two-le-total w n f i j, le-total w n f i)
