-- ===== src/Allocator/Runs.antt =====
-- Runs of the clients of one `LazyAllocator`, src/LazyAlloctor.hpp, and its `clear`.
use cpp_shared.Prelude.{
  ℕ, ◌≡◌, refl, inl, inr, List, [], ◌∷◌, Option, none, some, arith, ltb, ltb→lt, ◌==◌,
  if◌then◌else◌, length, get_elem?, Bool-cases,
}
use cpp_shared.Allocator.{Allocator, capacity, round_up, new, push, clear}
use cpp_shared.Allocator.Entries.{count, delete_live, delete_all_lem}
use cpp_shared.Allocator.Session.{
  Session, Op, pops, pushes, give_back, step, run, Inv, Lends-get_elem?, pops-Inv, keep-Inv,
  drop-Inv, forget-Inv,
}

pushes-Inv :
    (s : Session) (i : ℕ) (o : Option (ℕ × ℕ))
    → get_elem? s.leased i ≡ o
    → Inv s
    → (s' : Session) × (give_back s i o ≡ some s') × Inv s'
unfolding push
pushes-Inv s i none e v = (s, refl, v)
pushes-Inv s i (some (size, p)) e v = elim (Bool-cases (size == 0)) [
  | inl z ↦ (_, ground arith, forget-Inv s i size p e v)
  | inr nz ↦ elim (Bool-cases (ltb (length s.cache.container) capacity)) [
    | inl space ↦ (_, ground arith, keep-Inv s i size p e (ltb→lt _ _ space) v)
    | inr full ↦ (
      _,
      ground (
        arith,
        delete_live s.cache.heap (round_up size) p
            (Lends-get_elem? s.cache.heap i size p _ e v.lent),
      ),
      drop-Inv s i size p e v,
    )
  ]
]

-- Every step of clients that keep to the rules is defined and keeps the invariant: no array is
-- deleted twice, handed out twice or shorter than its size class, and at most 256 are cached.
pub step-Inv : (s : Session) (o : Op) → Inv s → (s' : Session) × (step s o ≡ some s') × Inv s'
unfolding step
step-Inv s (pops size) v = (_, refl, pops-Inv s size v)
step-Inv s (pushes i) v = pushes-Inv s i (get_elem? s.leased i) refl v

run_from-Inv : (s : Session) (os : List Op) → Inv s → (s' : Session) × (run s os ≡ some s') × Inv s'
unfolding run
run_from-Inv s [] v = (s, refl, v)
run_from-Inv s (o ∷ os) v =
    let (s1, e1, v1) = step-Inv s o v in
    let (s2, e2, v2) = run_from-Inv s1 os v1 in (s2, rw (e1, run) e2, v2)

abbrev pub start : Session
start = record { cache = new; leased = [] }

start-Inv : Inv start
start-Inv = record { bounded = omega arith; cached = tt; lent = tt; once = λ p. ground arith }

-- From a new allocator, any sequence of pops and of pushes of arrays that are held, each under the size
-- that it was asked for, runs to its end without undefined behaviour, in a state that satisfies the
-- invariant: at most 256 arrays are cached, every array that is cached or held is live with at least
-- the elements of its size class, and no address is cached or held more than once in all.
pub run-Inv : (os : List Op) → (s : Session) × (run start os ≡ some s) × Inv s
run-Inv os = run_from-Inv start os start-Inv

-- `clear`, hence the destructor, is defined after such a sequence: it empties the cache, deletes the
-- cached arrays and no others.
clear_lem :
    (s : Session)
    → Inv s
    → (a : Allocator) × (clear s.cache ≡ some a)
      × (a.container ≡ [])
      × ((p : ℕ)
          → a.heap.sizes p
            ≡ (if ltb 0 (count p s.cache.container) then none else s.cache.heap.sizes p))
unfolding clear
clear_lem s v =
    let (h, e, gone) =
      delete_all_lem s.cache.container s.cache.heap v.cached (λ p. ground (arith, v.once p)) in
    (record { container = []; heap = h }, ground arith, refl, gone)
