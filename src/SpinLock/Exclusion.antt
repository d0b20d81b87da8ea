-- ===== src/SpinLock/Exclusion.antt =====
-- What the lock of src/spinlock.h promises.
use cpp_shared.Prelude.{
  ℕ, ◌<◌, ◌≡◌, refl, true, arith, if◌then◌else◌, dec_lt, total, total-write, total-eq-zero,
  le-total, two-le-total,
}
use cpp_shared.SpinLock.{
  Pc, outside, spinning, inside, System, init, lock_round, unlock, Step, calls_lock, spins,
  calls_unlock, Reach, start, later,
}

abbrev pub holds : Pc → ℕ
holds inside = 1
holds outside = 0
holds spinning = 0

-- The flag is set exactly while one thread is between `lock` and `unlock`.
abbrev IsCounted : ℕ → System → Type 0
IsCounted n s = total holds n s.pc ≡ (if s.flag then 1 else 0)

Step-IsCounted : {n : ℕ} {s t : System} → Step n s t → IsCounted n s → IsCounted n t
unfolding lock_round unlock
Step-IsCounted {n} {s} (calls_lock i lt at) c =
    ground (arith, total-write holds n s.pc i spinning lt)
Step-IsCounted {n} {s} (spins i lt at) c =
    ground (arith, total-write holds n s.pc i spinning lt, total-write holds n s.pc i inside lt)
Step-IsCounted {n} {s} (calls_unlock i lt at) c =
    ground (arith, total-write holds n s.pc i outside lt)

Reach-IsCounted : {n : ℕ} {s : System} → Reach n s → IsCounted n s
unfolding init
Reach-IsCounted {n} start = omega (arith, total-eq-zero holds n (λ _. outside) (λ i lt. refl))
Reach-IsCounted (later r st) = Step-IsCounted st (Reach-IsCounted r)

one_holds :
    {n : ℕ} (s : System) (i j : ℕ)
    → i < j
    → j < n
    → IsCounted n s
    → s.pc i ≡ inside
    → s.pc j ≡ inside
    → ⊥
one_holds {n} s i j lt ltn c p q = ground (arith, two-le-total holds n s.pc i j lt ltn)

-- Two of the threads that use the lock are never both between `lock` and `unlock`.
mutual_exclusion :
    {n : ℕ} {s : System}
    → Reach n s
    → (i j : ℕ) → i < n
    → j < n
    → s.pc i ≡ inside
    → s.pc j ≡ inside
    → i ≡ j
mutual_exclusion {n} {s} r i j lti ltj p q = elim (dec_lt i j) [
  | yes lt ↦ absurd (one_holds s i j lt ltj (Reach-IsCounted r) p q)
  | no ge ↦ elim (dec_lt j i) [
    | yes lt ↦ absurd (one_holds s j i lt lti (Reach-IsCounted r) q p)
    | no le ↦ omega arith
  ]
]

-- A spinning thread enters at its next round if no thread is inside, and spins on if one is.
enters_when_free :
    {n : ℕ} {s : System}
    → Reach n s
    → (((i : ℕ) → i < n → holds (s.pc i) ≡ 0) → lock_round s.flag ≡ (inside, true))
      × ((i : ℕ) → i < n → s.pc i ≡ inside → lock_round s.flag ≡ (spinning, true))
unfolding lock_round
enters_when_free {n} {s} r = (
  λ free. ground (arith, Reach-IsCounted r, total-eq-zero holds n s.pc free),
  λ i lt at. ground (arith, Reach-IsCounted r, le-total holds n s.pc i lt),
)
