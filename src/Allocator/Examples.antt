-- ===== src/Allocator/Examples.antt =====
-- Runs of src/LazyAlloctor.hpp.
use cpp_shared.Prelude.{◌≡◌, refl, [], ◌∷◌, List, none, some, arith, ◌==◌, if◌then◌else◌}
use cpp_shared.Allocator.{Allocator, round_up, find, pop, push}
use cpp_shared.Allocator.Session.{Session, Op, pops, pushes, run, Inv}
use cpp_shared.Allocator.Runs.{start, run-Inv}
use cpp_shared.Allocator.Reuse.{pop-push}

abbrev history : List Op
history = pops 32 ∷ pops 2000 ∷ pushes 1 ∷ pops 16 ∷ pushes 0 ∷ []

run-Inv_example : (s : Session) × (run start history ≡ some s) × Inv s
run-Inv_example = run-Inv history

-- One array is cached and one is with a client.
abbrev cached : Allocator
cached = record {
  container = (1024, 1) ∷ [];
  heap = record {
    next = 3;
    sizes = λ p. if p == 1 then some 1024 else if p == 2 then some 2048 else none;
  };
}

abbrev shared : Session
shared = record { cache = cached; leased = (2000, 2) ∷ [] }

round_2000 : round_up 2000 ≡ 2048
unfolding round_up
round_2000 = refl

shared-Inv : Inv shared
shared-Inv = record {
  bounded = omega arith;
  cached = omega arith;
  lent = (rw round_2000 (omega arith), tt);
  once = λ p. ground arith;
}

pop-push_example :
    (a' : Allocator) × (push 2000 (some 2) cached ≡ some (some 2, a')) × (pop 1500 a' ≡ (2, cached))
unfolding round_up find
pop-push_example = pop-push 2000 1500 2 cached (omega arith) refl (omega arith) refl
