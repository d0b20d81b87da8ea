-- ===== src/Singleton.antt =====
-- src/singleton.hpp: `Singleton<T>::instance`, called by any number of threads in any interleaving.
-- Each access to the mutex is one step, and so is a read of `ptr`; the assignment to `ptr`, a plain
-- `shared_ptr`, is two, its beginning and its end. A read between them is a data race, which is
-- undefined behaviour: the thread is then at `races`, where it stays. The objects that `make_shared`
-- returns are numbered in the order of their construction.
pub mod Uniqueness
mod Examples
use cpp_shared.Prelude.{
  ℕ, suc, ◌≡◌, ◌≢◌, Bool, true, false, Option, none, some, write, if◌then◌else◌,
}

-- Where a thread stands in `instance`.
pub data Pc : Type 0 where
  outside : Pc
  first_test : Pc
  wants_lock : Pc
  second_test : Pc
  makes : Pc
  assigning : (object : ℕ) → Pc
  unlocks : Pc
  reads : Pc
  returned : (result : Option ℕ) → Pc
  races : Pc

pub record Shared : Type 0 where
  pub ptr : Option ℕ
  pub assigned_now : Bool  -- an assignment to `ptr` has begun and not ended
  pub mutex : Option ℕ  -- the thread that owns it
  pub made : ℕ  -- how many objects were constructed

pub record System : Type 0 where
  pub shared : Shared
  pub pc : ℕ → Pc

unfoldable pub init : System
init = record {
  shared = record { ptr = none; assigned_now = false; mutex = none; made = 0 };
  pc = λ _. outside;
}

-- `if (ptr == nullptr)`, outside the mutex and inside it
abbrev test_first : Option ℕ → Pc
test_first none = wants_lock
test_first (some p) = reads

-- A read of `ptr`.
abbrev reading : Shared → Pc → Pc
reading m next = if m.assigned_now then races else next

abbrev test_second : Option ℕ → Pc
test_second none = makes
test_second (some p) = unlocks

-- One step of thread `i`, which does nothing while it waits for the mutex.
abbrev acquire : ℕ → Shared → Option ℕ → Pc × Shared
acquire i m none = (second_test, record m { mutex = some i })
acquire i m (some j) = (wants_lock, m)

unfoldable pub instance_step : ℕ → Pc → Shared → Pc × Shared
instance_step i outside m = (first_test, m)
instance_step i first_test m = (reading m (test_first m.ptr), m)
instance_step i wants_lock m = acquire i m m.mutex
instance_step i second_test m = (reading m (test_second m.ptr), m)
instance_step i makes m = (assigning m.made, record m { assigned_now = true; made = suc m.made })
instance_step i (assigning object) m =
    (unlocks, record m { ptr = some object; assigned_now = false })
instance_step i unlocks m = (reads, record m { mutex = none })
instance_step i reads m = (reading m (returned m.ptr), m)
instance_step i (returned r) m = (outside, m)
instance_step i races m = (races, m)

unfoldable pub step : ℕ → System → System
unfolding instance_step
step i s =
    let (p, m) = instance_step i (s.pc i) s.shared in record { shared = m; pc = write s.pc i p }

pub data Reach : System → Type 0 where
  start : Reach init
  later : {s : System} (i : ℕ) → Reach s → Reach (step i s)
