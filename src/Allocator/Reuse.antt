-- ===== src/Allocator/Reuse.antt =====
-- Whether an array that is pushed comes back, src/LazyAlloctor.hpp.
use cpp_shared.Prelude.{ℕ, ◌+◌, ◌<◌, ◌≡◌, List, [], ◌∷◌, none, some, arith, lt→ltb, length}
use cpp_shared.Allocator.Entries.{length-insert}
use cpp_shared.Allocator.{Allocator, capacity, round_up, find, erase, insert, pop, push}

find-insert : (k p : ℕ) (m : List (ℕ × ℕ)) → find k m ≡ none → find k (insert k p m) ≡ some p
unfolding find insert
find-insert k p [] h = ground arith
find-insert k p ((j, q) ∷ m) h = ground (arith, find-insert k p m)

erase-insert : (k p : ℕ) (m : List (ℕ × ℕ)) → find k m ≡ none → erase k (insert k p m) ≡ m
unfolding find erase insert
erase-insert k p [] h = ground arith
erase-insert k p ((j, q) ∷ m) h = ground (arith, erase-insert k p m)

find-insert_twice :
    (k p : ℕ) (m : List (ℕ × ℕ)) → find k m ≡ none → find k (insert k p (insert k p m)) ≡ some p
unfolding find insert
find-insert_twice k p [] h = ground arith
find-insert_twice k p ((j, q) ∷ m) h = ground (arith, find-insert_twice k p m)

erase-insert_twice :
    (k p : ℕ) (m : List (ℕ × ℕ))
    → find k m ≡ none
    → erase k (insert k p (insert k p m)) ≡ insert k p m
unfolding find erase insert
erase-insert_twice k p [] h = ground arith
erase-insert_twice k p ((j, q) ∷ m) h = ground (arith, erase-insert_twice k p m)

-- While the cache has room and nothing of the class, an array that is pushed under a size above 0
-- is what the next pop of the class returns; the allocator is then as it was before the push, and
-- nothing is allocated.
pub pop-push :
    (size size' p : ℕ) (a : Allocator)
    → 0 < size
    → round_up size' ≡ round_up size
    → length a.container < capacity
    → find (round_up size) a.container ≡ none
    → (a' : Allocator) × (push size (some p) a ≡ some (some p, a')) × (pop size' a' ≡ (p, a))
unfolding push pop
pop-push size size' p a pos same space miss = (
  record a { container = insert (round_up size) p a.container },
  ground (arith, lt→ltb (length a.container) capacity space),
  ground (
    arith,
    same,
    find-insert (round_up size) p a.container miss,
    erase-insert (round_up size) p a.container miss,
  ),
)

-- `push` leaves the caller's pointer as it is when it caches the array. A second push of the same
-- pointer caches it again, and two pops of the class then hand out one array twice.
push_twice :
    (size p : ℕ) (a : Allocator)
    → 0 < size
    → length a.container + 1 < capacity
    → find (round_up size) a.container ≡ none
    → (a' : Allocator) × (a'' : Allocator) × (push size (some p) a ≡ some (some p, a'))
      × (push size (some p) a' ≡ some (some p, a''))
      × ((pop size a'').0 ≡ p)
      × ((pop size (pop size a'').1).0 ≡ p)
unfolding push pop
push_twice size p a pos space miss = (
  record a { container = insert (round_up size) p a.container },
  record a { container = insert (round_up size) p (insert (round_up size) p a.container) },
  ground (arith, lt→ltb (length a.container) capacity (omega arith)),
  ground (arith, length-insert (round_up size) p a.container),
  ground (arith, find-insert_twice (round_up size) p a.container miss),
  ground (
    arith,
    find-insert_twice (round_up size) p a.container miss,
    erase-insert_twice (round_up size) p a.container miss,
    find-insert (round_up size) p a.container miss,
  ),
)
