-- ===== src/PacketPool.antt =====
-- `ObjectPool` of tcpserver/src/tcpserver.h: a list of packets that are free. Its mutex makes each
-- member function one step. To zero or to delete a packet that is not live is undefined behaviour,
-- the result `none`. `clear` uses `delete []` on what `new Packet()` made, which is undefined
-- behaviour as well; it is taken as a deletion.
pub mod Limits
pub mod Clearing
mod Examples
use cpp_shared.Memory.{Heap, update, allocate, delete}
use cpp_shared.Prelude.{
  ℕ, suc, ◌-◌, ◌^◌, List, [], ◌∷◌, ◌++◌, Option, none, some, ltb, if◌then◌else◌, length, replicate,
  Bytes, ℤ, pos, negsuc, ◌==◌, Bool, ◌+◌,
}

-- `sizeof(Packet)`: three shorts, two names of 32 bytes, and the payload.
abbrev pub max_packet_payload_len : ℕ
max_packet_payload_len = 1024 - 70

abbrev pub packet_size : ℕ
packet_size = 6 + 32 + 32 + max_packet_payload_len

-- The packets are known by their addresses; `contents` has the bytes at each.
pub record ObjectPool : Type 0 where
  pub max_object_count : ℤ
  pub pool : List ℕ
  pub heap : Heap
  pub contents : ℕ → Bytes

-- The conversion of an `int` for the comparison with `pool.size()`.
abbrev pub to_size : ℤ → ℕ
to_size (pos n) = n
to_size (negsuc n) = 2 ^ 64 - suc n

-- `ObjectPool(int count)`
abbrev pub new : ℤ → Heap → (ℕ → Bytes) → ObjectPool
new count h c = record { max_object_count = count; pool = []; heap = h; contents = c }

abbrev pub is_over : ObjectPool → Bool
is_over p = ltb (to_size p.max_object_count) (length p.pool)

abbrev pub zeros : Bytes
zeros = replicate packet_size 0

-- `new Packet()`
abbrev pub fresh : ObjectPool → ℕ × ObjectPool
fresh p = (p.heap.next, record p { heap = allocate packet_size p.heap })

abbrev pub take_front : ObjectPool → List ℕ → ℕ × ObjectPool
take_front p [] = fresh p
take_front p (o ∷ l) = (o, record p { pool = l })

abbrev pub choose : ObjectPool → ℕ × ObjectPool
choose p = if is_over p then fresh p else take_front p p.pool

-- `memset(obj, 0, sizeof(Packet))`
abbrev pub zero_packet : ℕ → ObjectPool → Option ℕ → Option (ℕ × ObjectPool)
zero_packet o p none = none
zero_packet o p (some n) =
    some (o, record p { contents = λ q. if q == o then zeros else p.contents q })

unfoldable pub get : ObjectPool → Option (ℕ × ObjectPool)
get p = let (o, p') = choose p in zero_packet o p' (p'.heap.sizes o)

abbrev pub delete_packet : ObjectPool → Option Heap → Option (Option ℕ × ObjectPool)
delete_packet p none = none
delete_packet p (some h) = some (none, record p { heap = h })

-- The pointer is passed by reference: the result holds its value afterwards.
unfoldable pub push : Option ℕ → ObjectPool → Option (Option ℕ × ObjectPool)
push none p = some (none, p)
push (some o) p =
    if is_over p
    then delete_packet p (delete o p.heap)
    else some (some o, record p { pool = p.pool ++ (o ∷ []) })

unfoldable pub delete_each : List ℕ → Heap → Option Heap
delete_each [] h = some h
delete_each (o ∷ l) h = elim (delete o h) [ none ↦ none | some h' ↦ delete_each l h' ]

-- The list keeps its pointers.
unfoldable pub clear : ObjectPool → Option ObjectPool
unfolding delete_each
clear p = elim (delete_each p.pool p.heap) [ none ↦ none | some h ↦ some (record p { heap = h }) ]
