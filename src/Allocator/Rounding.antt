-- ===== src/Allocator/Rounding.antt =====
-- The size classes of the allocator, src/LazyAlloctor.hpp: `totalSize` in `pop` and `push`.
use cpp_shared.Prelude.{ℕ, ◌+◌, ◌*◌, ◌/◌, ◌%◌, ◌^◌, ◌≤◌, ◌<◌, ◌≡◌, ◌≢◌, ◌⊎◌, arith, bit_and_1023}
use cpp_shared.Allocator.{round_up}

round_up_whole : (size : ℕ) → size % 1024 ≡ 0 → round_up size ≡ size
unfolding round_up
round_up_whole size h = ground (arith, bit_and_1023 size)

round_up_part : (size : ℕ) → size % 1024 ≢ 0 → round_up size ≡ (size / 1024 + 1) * 1024 % 2 ^ 64
unfolding round_up
round_up_part size h = ground (arith, bit_and_1023 size)

round_up_cases :
    (size : ℕ)
    → ((size % 1024 ≡ 0) × (round_up size ≡ size))
      ⊎ ((size % 1024 ≢ 0) × (round_up size ≡ (size / 1024 + 1) * 1024 % 2 ^ 64))
unfolding round_up
round_up_cases size = ground (arith, bit_and_1023 size)

-- Where the sum does not leave the 64-bit word, `round_up size` is the least multiple of 1024 that
-- is not below `size`.
round_up_least :
    (size : ℕ)
    → size + 1023 < 2 ^ 64
    → (round_up size % 1024 ≡ 0)
      × (size ≤ round_up size)
      × ((m : ℕ) → size ≤ m * 1024 → round_up size ≤ m * 1024)
round_up_least size h = (
  omega (arith, round_up_cases size),
  omega (arith, round_up_cases size),
  λ m le. omega (arith, round_up_cases size),
)

-- For the 1023 largest sizes of the 64-bit word the rounding wraps to 0, so that `pop` asks for an
-- array of no element.
round_up_wraps : (size : ℕ) → 2 ^ 64 < size + 1024 → size < 2 ^ 64 → round_up size ≡ 0
round_up_wraps size h lt = omega (arith, round_up_cases size)
