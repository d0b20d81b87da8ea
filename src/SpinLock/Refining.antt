-- ===== src/SpinLock/Refining.antt =====
-- The lock of src/spinlock.h against an abstract lock, which one thread owns or none.
use cpp_shared.Prelude.{
  ℕ, ◌≡◌, ◌↔◌, refl, List, [], ◌∷◌, ◌++◌, Option, none, some, Bool, true, false, arith, write, ◌==◌,
  if◌then◌else◌,
}
use cpp_shared.SpinLock.{
  Pc, outside, spinning, inside, System, init, lock_round, unlock, Step, calls_lock, spins,
  calls_unlock, Reach, start, later,
}

-- What a user of the lock sees of a run: a thread comes out of `lock`, or calls `unlock`.
pub data Event : Type 0 where
  acquired : (thread : ℕ) → Event
  released : (thread : ℕ) → Event

abbrev pub entered : ℕ → Pc → List Event
entered i inside = acquired i ∷ []
entered i _ = []

-- What a step adds to the history, and the history of a run, its last event first.
abbrev pub event_of : {n : ℕ} {s t : System} → Step n s t → List Event
event_of (calls_lock i lt at) = []
event_of {n} {s} (spins i lt at) = entered i (lock_round s.flag).0
event_of (calls_unlock i lt at) = released i ∷ []

unfoldable pub history : {n : ℕ} {s : System} → Reach n s → List Event
history start = []
history (later r st) = event_of st ++ history r

-- The abstract lock: a thread can acquire it only while it has no owner, and only the owner releases
-- it. `none` is a history that it does not have, and otherwise the owner is the result.
abbrev pub lock_step : Event → Option ℕ → Option (Option ℕ)
lock_step (acquired i) none = some (some i)
lock_step (acquired i) (some j) = none
lock_step (released i) none = none
lock_step (released i) (some j) = if i == j then some none else none

abbrev pub lock_then : Event → Option (Option ℕ) → Option (Option ℕ)
lock_then e none = none
lock_then e (some o) = lock_step e o

unfoldable pub owner : List Event → Option (Option ℕ)
owner [] = some none
owner (e ∷ l) = lock_then e (owner l)

abbrev pub is_owned : Option ℕ → Bool
is_owned none = false
is_owned (some i) = true

-- The threads between `lock` and `unlock` are the owner alone, and the flag says if there is one.
pub record Implements (s : System) (o : Option ℕ) : Type 0 where
  pub flagged : s.flag ≡ is_owned o
  pub owns : (i : ℕ) → (s.pc i ≡ inside) ↔ (o ≡ some i)

-- The abstract lock takes the events of a step as well.
abbrev Simulated : List Event → System → List Event → Type 0
Simulated l t es = (o : Option ℕ) × (owner (es ++ l) ≡ some o) × Implements t o

spins-Simulated :
    (s : System) (o : Option ℕ) (i : ℕ) (l : List Event)
    → owner l ≡ some o
    → s.pc i ≡ spinning
    → Implements s o
    → Simulated l
        (record { flag = (lock_round s.flag).1; pc = write s.pc i (lock_round s.flag).0 })
        (entered i (lock_round s.flag).0)
unfolding lock_round owner
spins-Simulated s none i l known at m = (
  some i,
  ground (arith, m.flagged, known),
  record {
    flagged = ground (arith, m.flagged);
    owns = λ k. ground (arith, m.owns k, m.flagged, at);
  },
)
spins-Simulated s (some j) i l known at m = (
  some j,
  ground (arith, m.flagged, known),
  record {
    flagged = ground (arith, m.flagged);
    owns = λ k. ground (arith, m.owns k, m.flagged, at);
  },
)

unlocks-Simulated :
    (s : System) (o : Option ℕ) (i : ℕ) (l : List Event)
    → owner l ≡ some o
    → s.pc i ≡ inside
    → Implements s o
    → Simulated l (record { flag = unlock s.flag; pc = write s.pc i outside }) (released i ∷ [])
unfolding unlock owner
unlocks-Simulated s none i l known at m = ground (arith, m.owns i, at)
unlocks-Simulated s (some j) i l known at m = (
  none,
  ground (arith, known, m.owns i, at),
  record { flagged = refl; owns = λ k. ground (arith, m.owns i, m.owns k, at) },
)

Step-Simulated :
    {n : ℕ} {s t : System} (st : Step n s t) (o : Option ℕ) (l : List Event)
    → owner l ≡ some o
    → Implements s o
    → Simulated l t (event_of st)
Step-Simulated {n} {s} (calls_lock i lt at) o l known m =
    (o, known, record { flagged = m.flagged; owns = λ k. ground (arith, m.owns k, at) })
Step-Simulated {n} {s} (spins i lt at) o l known m = spins-Simulated s o i l known at m
Step-Simulated {n} {s} (calls_unlock i lt at) o l known m = unlocks-Simulated s o i l known at m

-- Every run of the threads has a history of the abstract lock: `lock` returns only while no thread
-- owns it, and `unlock` is called by the owner. At the end of the run the threads between `lock` and
-- `unlock` are the owner alone, and the flag says if there is one.
pub lock_refines :
    {n : ℕ} {s : System} (r : Reach n s)
    → (o : Option ℕ) × (owner (history r) ≡ some o) × Implements s o
unfolding init history owner
lock_refines {n} start = (none, refl, record { flagged = refl; owns = λ i. ground arith })
lock_refines {n} (later r st) =
    let (o, known, m) = lock_refines r in Step-Simulated st o (history r) known m
