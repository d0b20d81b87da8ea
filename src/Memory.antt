-- ===== src/Memory.antt =====
-- What `new` and `delete` act on, for the caches of src/LazyAlloctor.hpp and
-- tcpserver/src/tcpserver.h.
pub mod Addresses
use cpp_shared.Prelude.{ℕ, suc, Option, none, some, ◌==◌, if◌then◌else◌}

-- The length of each live array, by address.
pub record Heap : Type 0 where
  pub next : ℕ
  pub sizes : ℕ → Option ℕ

abbrev pub update : (ℕ → Option ℕ) → ℕ → Option ℕ → ℕ → Option ℕ
update f p o q = if q == p then o else f q

abbrev pub allocate : ℕ → Heap → Heap
allocate n h = record { next = suc h.next; sizes = update h.sizes h.next (some n) }

abbrev pub delete : ℕ → Heap → Option Heap
delete p h = elim (h.sizes p) [
  | none ↦ none
  | some n ↦ some (record h { sizes = update h.sizes p none })
]
