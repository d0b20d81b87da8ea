-- ===== src/Allocator.antt =====
-- src/LazyAlloctor.hpp: a cache of arrays, keyed by their size rounded up to 1024. The member
-- functions are taken one at a time, as by one thread: `push` reads the size of the container outside
-- the mutex. `operator new` is taken to succeed; a `delete []` of an array that is not live is
-- undefined behaviour, the result `none`.
pub mod Rounding
pub mod Entries
pub mod Session
pub mod Runs
pub mod Reuse
mod Examples
use cpp_shared.Memory.{Heap, allocate, delete}
use cpp_shared.Prelude.{
  ℕ, suc, ◌+◌, ◌*◌, ◌/◌, ◌%◌, ◌^◌, bit_and, List, [], ◌∷◌, Option, none, some, ltb, ◌==◌, ◌||◌,
  if◌then◌else◌, length, Bool, true, false,
}

-- `container` is the multimap; the first entry of a size is the one that `find` returns.
pub record Allocator : Type 0 where
  pub container : List (ℕ × ℕ)
  pub heap : Heap

abbrev pub capacity : ℕ
capacity = 256

abbrev size_mod : ℕ
size_mod = 2 ^ 64

-- `std::size_t` arithmetic: `<< 10` drops the bits above the word.
pub round_up : ℕ → ℕ
round_up size = if bit_and size 0x3ff == 0 then size else (size / 2 ^ 10 + 1) * 2 ^ 10 % size_mod

-- `multimap::find`
unfoldable pub find : ℕ → List (ℕ × ℕ) → Option ℕ
find k [] = none
find k ((j, p) ∷ m) = if j == k then some p else find k m

-- `multimap::erase` at the entry that `find` returned
unfoldable pub erase : ℕ → List (ℕ × ℕ) → List (ℕ × ℕ)
erase k [] = []
erase k ((j, p) ∷ m) = if j == k then m else (j, p) ∷ erase k m

-- `multimap::insert`: behind the entries of the same size
unfoldable pub insert : ℕ → ℕ → List (ℕ × ℕ) → List (ℕ × ℕ)
insert k p [] = (k, p) ∷ []
insert k p ((j, q) ∷ m) = if ltb k j then (k, p) ∷ (j, q) ∷ m else (j, q) ∷ insert k p m

abbrev pub new : Allocator
new = record { container = []; heap = record { next = 1; sizes = λ _. none } }

unfoldable pub pop : ℕ → Allocator → ℕ × Allocator
pop size a = elim (find (round_up size) a.container) [
  | none ↦ (a.heap.next, record a { heap = allocate (round_up size) a.heap })
  | some p ↦ (p, record a { container = erase (round_up size) a.container })
]

abbrev push_live : ℕ → ℕ → Allocator → Option (Option ℕ × Allocator)
push_live size p a =
    if ltb (length a.container) capacity
    then some (some p, record a { container = insert (round_up size) p a.container })
    else elim (delete p a.heap) [ none ↦ none | some h ↦ some (none, record a { heap = h }) ]

-- The pointer is passed by reference: the result holds its value afterwards.
unfoldable pub push : ℕ → Option ℕ → Allocator → Option (Option ℕ × Allocator)
push size none a = some (none, a)
push size (some p) a = if size == 0 then some (some p, a) else push_live size p a

unfoldable pub delete_all : List (ℕ × ℕ) → Heap → Option Heap
delete_all [] h = some h
delete_all ((k, p) ∷ m) h = elim (delete p h) [ none ↦ none | some h' ↦ delete_all m h' ]

unfoldable pub clear : Allocator → Option Allocator
unfolding delete_all
clear a = elim (delete_all a.container a.heap) [
  | none ↦ none
  | some h ↦ some (record { container = []; heap = h })
]
