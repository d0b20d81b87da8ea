-- ===== src/Observer/Examples.antt =====
-- Runs of src/observer.hpp.
use cpp_shared.Prelude.{◌≡◌, refl, [], ◌∷◌, some}
use cpp_shared.Observer.{Subject, erase_first, detach}

abbrev watched : Subject
watched = record { observer_list = 4 ∷ 7 ∷ 4 ∷ [] }

detach_first : (detach (some 4) watched).observer_list ≡ 7 ∷ 4 ∷ []
unfolding detach erase_first
detach_first = refl
