-- ===== src/Memory/Addresses.antt =====
-- Lists of addresses: how often one stands in them, and whether what they name is live.
use cpp_shared.Prelude.{
  ℕ, suc, ◌+◌, ◌≡◌, List, [], ◌∷◌, ◌++◌, Option, none, some, arith, ◌==◌, if◌then◌else◌, All,
}
use cpp_shared.Memory.{Heap, update}

abbrev pub count : ℕ → List ℕ → ℕ
count p [] = 0
count p (q ∷ l) = if q == p then suc (count p l) else count p l

pub count-append : (p : ℕ) (l m : List ℕ) → count p (l ++ m) ≡ count p l + count p m
count-append p [] m = omega arith
count-append p (q ∷ l) m = ground (arith, count-append p l m)

abbrev pub is_live : Option ℕ → ℕ
is_live none = 0
is_live (some n) = 1

abbrev pub Live : Heap → ℕ → Type 0
Live h p = is_live (h.sizes p) ≡ 1

-- Addresses of a list that does not hold `p` stay live whatever happens to `p`.
pub Live-update :
    (h : Heap) (p next : ℕ) (o : Option ℕ) (l : List ℕ)
    → count p l ≡ 0
    → All (Live h) l
    → All (Live (record { next = next; sizes = update h.sizes p o })) l
Live-update h p next o [] e fs = tt
Live-update h p next o (q ∷ l) e fs = ground (arith, Live-update h p next o l)

pub Live-append :
    (h : Heap) (l m : List ℕ) → All (Live h) l → All (Live h) m → All (Live h) (l ++ m)
Live-append h [] m u v = v
Live-append h (q ∷ l) m u v = (u.0, Live-append h l m u.1 v)
