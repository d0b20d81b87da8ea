-- ===== src/SpinLock/Examples.antt =====
-- Runs of src/spinlock.h.
use cpp_shared.Prelude.{ℕ, some, Option, ◌≡◌, refl, arith}
use cpp_shared.SpinLock.{
  spinning, inside, System, init, lock_round, calls_lock, spins, Reach, start, later,
}
use cpp_shared.SpinLock.Refining.{owner, history, Implements, lock_refines}

record Trace : Type 0 where
  last : System
  reach : Reach 2 last

-- Thread 1 is inside, thread 0 spins.
abbrev contended : Trace
unfolding init lock_round
contended = record {
  last = _;
  reach =
      later
        (later
          (later (later start (calls_lock 0 (omega arith) refl)) (calls_lock 1 (omega arith) refl))
          (spins 1 (omega arith) refl))
        (spins 0 (omega arith) refl);
}

contended_pcs : (contended.last.pc 0 ≡ spinning) × (contended.last.pc 1 ≡ inside)
unfolding init lock_round
contended_pcs = (refl, refl)

lock_refines_example :
    (o : Option ℕ) × (owner (history contended.reach) ≡ some o) × Implements contended.last o
unfolding init lock_round
lock_refines_example = lock_refines contended.reach
