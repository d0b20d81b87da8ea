-- ===== src/PacketPool/Clearing.antt =====
-- What a packet holds when the pool of tcpserver/src/tcpserver.h hands it out again, and what
-- `clear` leaves behind.
use cpp_shared.Memory.{Heap, update}
use cpp_shared.Memory.Addresses.{Live}
use cpp_shared.Prelude.{
  ℕ, ◌≤◌, ◌<◌, ◌≡◌, refl, List, [], ◌∷◌, none, some, arith, length, if◌then◌else◌, ◌==◌, inl, inr,
  Option-cases, false,
}
use cpp_shared.PacketPool.{ObjectPool, to_size, is_over, zeros, get, push, delete_each, clear}

-- A live packet pushed on an empty pool is what the next `get` hands out, with every byte zeroed.
get-push :
    (o : ℕ) (p : ObjectPool)
    → p.pool ≡ []
    → 0 < to_size p.max_object_count
    → Live p.heap o
    → (p' : ObjectPool) × (push (some o) p ≡ some (some o, p'))
      × (get p'
          ≡ some
              (o, record p { pool = []; contents = λ q. if q == o then zeros else p.contents q }))
unfolding push get
get-push o p e h live =
    let low : is_over p ≡ false = rw e (ground arith) in
    let few : is_over (record p { pool = o ∷ [] }) ≡ false = ground arith in
    (record p { pool = o ∷ [] }, rw (low, e) refl, rw few (ground arith))

stays_dead :
    (l : List ℕ) (h h' : Heap) (o : ℕ)
    → h.sizes o ≡ none
    → delete_each l h ≡ some h'
    → h'.sizes o ≡ none
unfolding delete_each
stays_dead [] h h' o dead e = ground arith
stays_dead (q ∷ l) h h' o dead e = elim (Option-cases (h.sizes q)) [
  | inl gone ↦ ground arith
  | inr (n, there) ↦
      stays_dead l (record h { sizes = update h.sizes q none }) h' o (ground arith) (ground arith)
]

front_dies :
    (o : ℕ) (l : List ℕ) (h h' : Heap) → delete_each (o ∷ l) h ≡ some h' → h'.sizes o ≡ none
unfolding delete_each
front_dies o l h h' e = elim (Option-cases (h.sizes o)) [
  | inl gone ↦ ground arith
  | inr (n, there) ↦
      stays_dead l (record h { sizes = update h.sizes o none }) h' o (ground arith) (ground arith)
]

-- `clear` leaves the deleted packets in the list, so that the next `get` writes to a deleted
-- packet, and a second `clear`, such as that of the destructor, deletes one twice.
clear_dangles :
    (o : ℕ) (l : List ℕ) (p p' : ObjectPool)
    → p.pool ≡ o ∷ l
    → length p.pool ≤ to_size p.max_object_count
    → clear p ≡ some p'
    → (get p' ≡ none) × (clear p' ≡ none)
unfolding clear get
clear_dangles o l p p' e small done = elim (Option-cases (delete_each (o ∷ l) p.heap)) [
  | inl never ↦ ground arith
  | inr (h, all) ↦
      let dead : h.sizes o ≡ none = front_dies o l p.heap h all in
      let same : p' ≡ record p { heap = h } = ground arith in
      let low : is_over (record p { heap = h }) ≡ false = ground arith in
      let nothing : delete_each (o ∷ l) h ≡ none = rw (delete_each, dead) refl in
      rw (same, low, e) (rw dead refl, rw (clear, nothing) refl)
]
