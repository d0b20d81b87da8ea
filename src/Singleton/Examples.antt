-- ===== src/Singleton/Examples.antt =====
-- A run of src/singleton.hpp.
use cpp_shared.Prelude.{ℕ, ◌≡◌, refl, List, [], ◌∷◌}
use cpp_shared.Singleton.{races, System, Reach, init, step, start, later}

record Trace : Type 0 where
  last : System
  reach : Reach last

run : Trace → List ℕ → Trace
run t [] = t
run t (i ∷ is) = run (record { last = step i t.last; reach = later i t.reach }) is

-- Threads 0 and 1 both pass the first test; thread 0 constructs, then thread 1 finds the object.
abbrev raced : Trace
unfolding run
raced =
    run (record { last = init; reach = start })
      (0 ∷ 1 ∷ 0 ∷ 1 ∷ 0 ∷ 1 ∷ 0 ∷ 0 ∷ 0 ∷ 0 ∷ 1 ∷ 1 ∷ 0 ∷ 1 ∷ 1 ∷ [])

-- Thread 1 makes the first test while thread 0 assigns.
abbrev racing : Trace
unfolding run
racing = run (record { last = init; reach = start }) (0 ∷ 1 ∷ 0 ∷ 0 ∷ 0 ∷ 0 ∷ 1 ∷ [])

racing_races : racing.last.pc 1 ≡ races
unfolding run init step
racing_races = refl

raced_once : raced.last.shared.made ≡ 1
unfolding run init step
raced_once = refl
