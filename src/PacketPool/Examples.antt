-- ===== src/PacketPool/Examples.antt =====
-- Runs of the pool of tcpserver/src/tcpserver.h.
use cpp_shared.Memory.{Heap}
use cpp_shared.Prelude.{
  ℕ, suc, ◌≤◌, ◌≡◌, refl, [], ◌∷◌, none, some, length, if◌then◌else◌, ◌==◌, Bytes, pos,
}
use cpp_shared.PacketPool.{ObjectPool, to_size, new, push, clear}
use cpp_shared.PacketPool.Limits.{pushes, run, pool_is_bounded}

-- Two live packets, at the addresses 0 and 1.
abbrev heap : Heap
heap = record {
  next = 2;
  sizes = λ p. if p == 0 then some 1024 else if p == 1 then some 1024 else none;
}

abbrev noise : ℕ → Bytes
noise p = 9 ∷ []

abbrev empty : ObjectPool
empty = new (pos 1) heap noise

abbrev filled : ObjectPool
filled = record empty { pool = 1 ∷ [] }

filled_run : run (pushes (some 1) ∷ []) empty ≡ some filled
unfolding run push
filled_run = refl

pool_is_bounded_example : length filled.pool ≤ suc (to_size (pos 1))
pool_is_bounded_example =
    pool_is_bounded (pos 1) heap noise (pushes (some 1) ∷ []) filled filled_run

abbrev cleared : ObjectPool
cleared = record filled {
  heap = record {
    next = 2;
    sizes = λ p.
        if p == 1 then none else if p == 0 then some 1024 else if p == 1 then some 1024 else none;
  };
}

filled_cleared : clear filled ≡ some cleared
unfolding clear
filled_cleared = refl
