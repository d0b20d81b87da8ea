-- ===== src/SpinLock.antt =====
-- src/spinlock.h: a lock on one atomic flag, and threads that call `lock` and then `unlock`, in any
-- interleaving. Each access to the flag is one step.
pub mod Exclusion
pub mod Refining
mod Examples
use cpp_shared.Prelude.{ℕ, ◌<◌, ◌≡◌, Bool, true, false, write, if◌then◌else◌}

-- `test_and_set`: the old value of the flag, and the new one
unfoldable pub test_and_set : Bool → Bool × Bool
test_and_set flag = (flag, true)

-- `clear`
unfoldable pub unlock : Bool → Bool
unlock flag = false

pub data Pc : Type 0 where
  outside : Pc
  spinning : Pc
  inside : Pc

-- One round of the loop of `lock`: where the thread is after it, and the flag.
unfoldable pub lock_round : Bool → Pc × Bool
unfolding test_and_set
lock_round flag =
    let (old, new) = test_and_set flag in if old then (spinning, new) else (inside, new)

pub record System : Type 0 where
  pub flag : Bool
  pub pc : ℕ → Pc

-- `ATOMIC_FLAG_INIT`
unfoldable pub init : System
init = record { flag = false; pc = λ _. outside }

pub data Step (n : ℕ) (s : System) : System → Type 0 where
  calls_lock :
      (i : ℕ) → i < n → s.pc i ≡ outside → Step n s (record s { pc = write s.pc i spinning })
  spins :
      (i : ℕ)
      → i < n
      → s.pc i ≡ spinning
      → Step n s (record { flag = (lock_round s.flag).1; pc = write s.pc i (lock_round s.flag).0 })
  calls_unlock :
      (i : ℕ)
      → i < n
      → s.pc i ≡ inside
      → Step n s (record { flag = unlock s.flag; pc = write s.pc i outside })

pub data Reach (n : ℕ) : System → Type 0 where
  start : Reach n init
  later : {s t : System} → Reach n s → Step n s t → Reach n t
