-- ===== src/Observer.antt =====
-- src/observer.hpp: the observers of a subject, by address. `update` is a call on each, in order.
pub mod Subscriptions
mod Examples
use cpp_shared.Prelude.{
  ℕ, List, [], ◌∷◌, ◌++◌, Option, none, some, Bool, true, false, ◌==◌, if◌then◌else◌,
}

pub record Subject : Type 0 where
  pub observer_list : List ℕ

abbrev pub new : Subject
new = record { observer_list = [] }

-- The null pointer, `none`, is not attached.
unfoldable pub attach : Option ℕ → Subject → Subject
attach none s = s
attach (some o) s = record { observer_list = s.observer_list ++ (o ∷ []) }

-- The loop of `detach`, which stops after the first match.
unfoldable pub erase_first : ℕ → List ℕ → List ℕ
erase_first o [] = []
erase_first o (x ∷ l) = if x == o then l else x ∷ erase_first o l

unfoldable pub detach : Option ℕ → Subject → Subject
detach none s = s
detach (some o) s = record { observer_list = erase_first o s.observer_list }

-- The calls of `updtae` that `notify` makes.
unfoldable pub notify : Subject → List ℕ
notify s = s.observer_list
