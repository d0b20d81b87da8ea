-- ===== src/Allocator/Session.antt =====
-- Clients of one `LazyAllocator` that return only what they hold, under the size that they asked
-- for, src/LazyAlloctor.hpp.
use cpp_shared.Prelude.{
  ℕ, zero, suc, ◌+◌, ◌≤◌, ◌<◌, ◌≡◌, inl, inr, List, [], ◌∷◌, Option, none, some, arith, leb,
  if◌then◌else◌, length, get_elem?, All, Option-cases,
}
use cpp_shared.Memory.{Heap, allocate, update}
use cpp_shared.Allocator.{Allocator, capacity, round_up, find, erase, insert, pop, push}
use cpp_shared.Allocator.Entries.{
  count, count-insert, length-insert, count-erase, length-erase, room, Fits, Fits-insert, Fits-find,
  Fits-erase, Fits-update,
}

-- `leased` holds what the clients hold: the size asked for, and the address.
pub record Session : Type 0 where
  pub cache : Allocator
  pub leased : List (ℕ × ℕ)

pub data Op : Type 0 where
  pops : (size : ℕ) → Op
  pushes : (index : ℕ) → Op

unfoldable pub remove_at : ℕ → List (ℕ × ℕ) → List (ℕ × ℕ)
remove_at i [] = []
remove_at zero (e ∷ m) = m
remove_at (suc i) (e ∷ m) = e ∷ remove_at i m

abbrev pub give_back : Session → ℕ → Option (ℕ × ℕ) → Option Session
give_back s i none = some s
give_back s i (some (size, p)) = elim (push size (some p) s.cache) [
  | none ↦ none
  | some (q, a) ↦ some (record { cache = a; leased = remove_at i s.leased })
]

unfoldable pub step : Session → Op → Option Session
step s (pops size) =
    let (p, a) = pop size s.cache in some (record { cache = a; leased = (size, p) ∷ s.leased })
step s (pushes i) = give_back s i (get_elem? s.leased i)

unfoldable pub run : Session → List Op → Option Session
unfolding step
run s [] = some s
run s (o ∷ os) = elim (step s o) [ none ↦ none | some s' ↦ run s' os ]

abbrev pub Lends : Heap → ℕ × ℕ → Type 0
Lends h (size, p) = round_up size < room (h.sizes p)

-- No address is held twice or both held and cached, and every entry names a live array that is
-- long enough.
pub record Inv (s : Session) : Type 0 where
  pub bounded : length s.cache.container ≤ capacity
  pub cached : All (Fits s.cache.heap) s.cache.container
  pub lent : All (Lends s.cache.heap) s.leased
  pub once :
      (p : ℕ)
      → count p s.cache.container + count p s.leased ≤ (if leb s.cache.heap.next p then 0 else 1)

Lends-update :
    (h : Heap) (p next : ℕ) (o : Option ℕ) (m : List (ℕ × ℕ))
    → count p m ≡ 0
    → All (Lends h) m
    → All (Lends (record { next = next; sizes = update h.sizes p o })) m
Lends-update h p next o [] e fs = tt
Lends-update h p next o ((j, q) ∷ m) e fs = ground (arith, Lends-update h p next o m)

count-remove_at :
    (q i k p : ℕ) (m : List (ℕ × ℕ))
    → get_elem? m i ≡ some (k, p)
    → count q m ≡ count q ((k, p) ∷ remove_at i m)
unfolding remove_at
count-remove_at q i k p [] h = ground arith
count-remove_at q zero k p ((j, r) ∷ m) h = ground arith
count-remove_at q (suc i) k p ((j, r) ∷ m) h = ground (arith, count-remove_at q i k p m)

Lends-remove_at :
    (h : Heap) (i : ℕ) (m : List (ℕ × ℕ)) → All (Lends h) m → All (Lends h) (remove_at i m)
unfolding remove_at
Lends-remove_at h i [] fs = tt
Lends-remove_at h zero (e ∷ m) fs = fs.1
Lends-remove_at h (suc i) (e ∷ m) fs = (fs.0, Lends-remove_at h i m fs.1)

pub Lends-get_elem? :
    (h : Heap) (i k p : ℕ) (m : List (ℕ × ℕ))
    → get_elem? m i ≡ some (k, p)
    → All (Lends h) m
    → round_up k < room (h.sizes p)
Lends-get_elem? h i k p [] e fs = ground arith
Lends-get_elem? h zero k p ((j, r) ∷ m) e fs = ground arith
Lends-get_elem? h (suc i) k p ((j, r) ∷ m) e fs = Lends-get_elem? h i k p m e fs.1

-- A pop that finds no array of the class allocates one.
fresh-Inv :
    (s : Session) (size : ℕ)
    → Inv s
    → Inv (record {
      cache = record (s.cache) { heap = allocate (round_up size) s.cache.heap };
      leased = (size, s.cache.heap.next) ∷ s.leased;
    })
fresh-Inv s size v = record {
  bounded = v.bounded;
  cached =
      Fits-update s.cache.heap _ (suc s.cache.heap.next) _ _
        (ground (arith, v.once s.cache.heap.next)) v.cached;
  lent = (
    ground arith,
    Lends-update s.cache.heap _ (suc s.cache.heap.next) _ _
        (ground (arith, v.once s.cache.heap.next)) v.lent,
  );
  once = λ p. ground (arith, v.once p);
}

-- A pop that finds one moves it from the cache to the client.
cached-Inv :
    (s : Session) (size p : ℕ)
    → find (round_up size) s.cache.container ≡ some p
    → Inv s
    → Inv (record {
      cache = record (s.cache) { container = erase (round_up size) s.cache.container };
      leased = (size, p) ∷ s.leased;
    })
cached-Inv s size p e v = record {
  bounded = omega (arith, v.bounded, length-erase _ _ s.cache.container e);
  cached = Fits-erase s.cache.heap _ _ v.cached;
  lent = (Fits-find s.cache.heap _ _ _ e v.cached, v.lent);
  once = λ q. ground (arith, v.once q, count-erase q _ _ _ e);
}

pop_cases :
    (P : ℕ × Allocator → Type 0) (size : ℕ) (a : Allocator)
    → P (a.heap.next, record a { heap = allocate (round_up size) a.heap })
    → ((p : ℕ)
        → find (round_up size) a.container ≡ some p
        → P (p, record a { container = erase (round_up size) a.container }))
    → P (pop size a)
unfolding pop
pop_cases P size a fresh found = elim (Option-cases (find (round_up size) a.container)) [
  | inl e ↦ rw (e, pop) fresh
  | inr (p, e) ↦ rw (e, pop) (found p e)
]

pub pops-Inv :
    (s : Session) (size : ℕ)
    → Inv s
    → Inv
        (record { cache = (pop size s.cache).1; leased = (size, (pop size s.cache).0) ∷ s.leased })
pops-Inv s size v =
    pop_cases (λ r. Inv (record { cache = r.1; leased = (size, r.0) ∷ s.leased })) size s.cache
      (fresh-Inv s size v) (λ p e. cached-Inv s size p e v)

-- A push of an array that a client holds either caches it or deletes it.
pub keep-Inv :
    (s : Session) (i size p : ℕ)
    → get_elem? s.leased i ≡ some (size, p)
    → length s.cache.container < capacity
    → Inv s
    → Inv (record {
      cache = record (s.cache) { container = insert (round_up size) p s.cache.container };
      leased = remove_at i s.leased;
    })
keep-Inv s i size p e h v = record {
  bounded = omega (arith, length-insert (round_up size) p s.cache.container);
  cached = Fits-insert s.cache.heap _ _ _ (Lends-get_elem? s.cache.heap i _ _ _ e v.lent) v.cached;
  lent = Lends-remove_at s.cache.heap i _ v.lent;
  once = λ q. ground (
    arith,
    v.once q,
    count-insert q (round_up size) p s.cache.container,
    count-remove_at q i size p _ e,
  );
}

pub drop-Inv :
    (s : Session) (i size p : ℕ)
    → get_elem? s.leased i ≡ some (size, p)
    → Inv s
    → Inv (record {
      cache = record (s.cache) {
        heap = record (s.cache.heap) { sizes = update s.cache.heap.sizes p none };
      };
      leased = remove_at i s.leased;
    })
drop-Inv s i size p e v = record {
  bounded = v.bounded;
  cached =
      Fits-update s.cache.heap _ s.cache.heap.next _ _
        (ground (arith, v.once p, count-remove_at p i size p _ e)) v.cached;
  lent =
      Lends-update s.cache.heap _ s.cache.heap.next _ _
        (ground (arith, v.once p, count-remove_at p i size p _ e))
        (Lends-remove_at s.cache.heap i _ v.lent);
  once = λ q. ground (arith, v.once q, count-remove_at q i size p _ e);
}

-- One that is returned under size 0 is neither cached nor deleted.
pub forget-Inv :
    (s : Session) (i size p : ℕ)
    → get_elem? s.leased i ≡ some (size, p)
    → Inv s
    → Inv (record { cache = s.cache; leased = remove_at i s.leased })
forget-Inv s i size p e v = record {
  bounded = v.bounded;
  cached = v.cached;
  lent = Lends-remove_at s.cache.heap i _ v.lent;
  once = λ q. ground (arith, v.once q, count-remove_at q i size p _ e);
}
