-- ===== src/Allocator/Entries.antt =====
-- The multimap of the allocator: how often an address stands in it, and what its arrays can hold.
use cpp_shared.Prelude.{
  ℕ, suc, ◌≤◌, ◌<◌, ◌≡◌, refl, List, [], ◌∷◌, Option, none, some, arith, ◌==◌, ltb, if◌then◌else◌,
  length, All,
}
use cpp_shared.Memory.{Heap, delete, update}
use cpp_shared.Allocator.{find, erase, insert, delete_all}

abbrev pub count : ℕ → List (ℕ × ℕ) → ℕ
count p [] = 0
count p ((k, q) ∷ m) = if q == p then suc (count p m) else count p m

pub count-insert : (p k q : ℕ) (m : List (ℕ × ℕ)) → count p (insert k q m) ≡ count p ((k, q) ∷ m)
unfolding insert
count-insert p k q [] = refl
count-insert p k q ((j, r) ∷ m) = ground (arith, count-insert p k q m)

pub length-insert : (k q : ℕ) (m : List (ℕ × ℕ)) → length (insert k q m) ≡ suc (length m)
unfolding insert
length-insert k q [] = refl
length-insert k q ((j, r) ∷ m) = ground (arith, length-insert k q m)

pub count-erase :
    (p k q : ℕ) (m : List (ℕ × ℕ)) → find k m ≡ some q → count p m ≡ count p ((k, q) ∷ erase k m)
unfolding find erase
count-erase p k q [] h = ground arith
count-erase p k q ((j, r) ∷ m) h = ground (arith, count-erase p k q m)

pub length-erase :
    (k q : ℕ) (m : List (ℕ × ℕ)) → find k m ≡ some q → length m ≡ suc (length (erase k m))
unfolding find erase
length-erase k q [] h = ground arith
length-erase k q ((j, r) ∷ m) h = ground (arith, length-erase k q m)

-- One more than the length of a live array, and 0 for an address that is not live.
abbrev pub room : Option ℕ → ℕ
room none = 0
room (some n) = suc n

-- The array at an address is live and has at least the elements that its entry promises.
abbrev pub Fits : Heap → ℕ × ℕ → Type 0
Fits h (k, p) = k < room (h.sizes p)

pub Fits-insert :
    (h : Heap) (k p : ℕ) (m : List (ℕ × ℕ))
    → k < room (h.sizes p)
    → All (Fits h) m
    → All (Fits h) (insert k p m)
unfolding insert
Fits-insert h k p [] f fs = (f, tt)
Fits-insert h k p ((j, q) ∷ m) f fs = ground (arith, Fits-insert h k p m f fs.1)

pub Fits-find :
    (h : Heap) (k p : ℕ) (m : List (ℕ × ℕ))
    → find k m ≡ some p
    → All (Fits h) m
    → k < room (h.sizes p)
unfolding find
Fits-find h k p [] e fs = ground arith
Fits-find h k p ((j, q) ∷ m) e fs = ground (arith, Fits-find h k p m)

pub Fits-erase : (h : Heap) (k : ℕ) (m : List (ℕ × ℕ)) → All (Fits h) m → All (Fits h) (erase k m)
unfolding erase
Fits-erase h k [] fs = tt
Fits-erase h k ((j, q) ∷ m) fs = ground (arith, Fits-erase h k m fs.1)

-- Entries that do not name an address do not notice what becomes of its array.
pub Fits-update :
    (h : Heap) (p next : ℕ) (o : Option ℕ) (m : List (ℕ × ℕ))
    → count p m ≡ 0
    → All (Fits h) m
    → All (Fits (record { next = next; sizes = update h.sizes p o })) m
Fits-update h p next o [] e fs = tt
Fits-update h p next o ((j, q) ∷ m) e fs = ground (arith, Fits-update h p next o m)

pub delete_live :
    (h : Heap) (k p : ℕ)
    → k < room (h.sizes p)
    → delete p h ≡ some (record h { sizes = update h.sizes p none })
delete_live h k p f = ground arith

-- Entries that are live and distinct are all deleted, and every other address is left alone.
pub delete_all_lem :
    (m : List (ℕ × ℕ)) (h : Heap)
    → All (Fits h) m
    → ((p : ℕ) → count p m ≤ 1)
    → (h' : Heap) × (delete_all m h ≡ some h')
      × ((p : ℕ) → h'.sizes p ≡ (if ltb 0 (count p m) then none else h.sizes p))
unfolding delete_all
delete_all_lem [] h fs once = (h, refl, λ p. refl)
delete_all_lem ((k, q) ∷ m) h fs once =
    let h1 : Heap = record h { sizes = update h.sizes q none } in
    let (h', e, same) =
      delete_all_lem m h1 (Fits-update h q h.next none m (ground (arith, once q)) fs.1)
        (λ p. ground (arith, once p)) in
    (h', ground (arith, delete_live h k q fs.0), λ p. ground (arith, same p, once p, once q))
