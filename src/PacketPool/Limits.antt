-- ===== src/PacketPool/Limits.antt =====
-- The limit of the pool of tcpserver/src/tcpserver.h, the packets that it hands out, and what
-- `clear` leaves behind.
use cpp_shared.Memory.{Heap}
use cpp_shared.Prelude.{
  ℕ, suc, ◌+◌, ◌≤◌, ◌≡◌, refl, List, [], ◌∷◌, ◌++◌, Option, none, some, arith, length,
  length-append, ℤ, inl, inr, Option-cases, append-nil, append_assoc, false, Bytes, ap, ◌∙◌,
}
use cpp_shared.PacketPool.{ObjectPool, to_size, is_over, new, get, push, clear}

pub data Call : Type 0 where
  gets : Call
  pushes : (obj : Option ℕ) → Call
  clears : Call

abbrev pool_after : {A : Type 0} → Option (A × ObjectPool) → Option ObjectPool
pool_after none = none
pool_after (some (a, p)) = some p

unfoldable pub call : Call → ObjectPool → Option ObjectPool
call gets p = pool_after (get p)
call (pushes o) p = pool_after (push o p)
call clears p = clear p

unfoldable pub run : List Call → ObjectPool → Option ObjectPool
unfolding call
run [] p = some p
run (c ∷ cs) p = elim (call c p) [ none ↦ none | some p' ↦ run cs p' ]

push_bound :
    (o : Option ℕ) (p p' : ObjectPool)
    → pool_after (push o p) ≡ some p'
    → length p.pool ≤ suc (to_size p.max_object_count)
    → (length p'.pool ≤ suc (to_size p.max_object_count))
      × (p'.max_object_count ≡ p.max_object_count)
unfolding push
push_bound none p p' e h = ground arith
push_bound (some o) p p' e h = ground (arith, length-append p.pool (o ∷ []))

get_bound :
    (p p' : ObjectPool)
    → pool_after (get p) ≡ some p'
    → length p.pool ≤ suc (to_size p.max_object_count)
    → (length p'.pool ≤ suc (to_size p.max_object_count))
      × (p'.max_object_count ≡ p.max_object_count)
unfolding get
get_bound p p' e h = ground arith

clear_bound :
    (p p' : ObjectPool)
    → clear p ≡ some p'
    → length p.pool ≤ suc (to_size p.max_object_count)
    → (length p'.pool ≤ suc (to_size p.max_object_count))
      × (p'.max_object_count ≡ p.max_object_count)
unfolding clear
clear_bound p p' e h = ground arith

call_bound :
    (c : Call) (p p' : ObjectPool)
    → call c p ≡ some p'
    → length p.pool ≤ suc (to_size p.max_object_count)
    → (length p'.pool ≤ suc (to_size p.max_object_count))
      × (p'.max_object_count ≡ p.max_object_count)
unfolding call
call_bound gets p p' e h = get_bound p p' e h
call_bound (pushes o) p p' e h = push_bound o p p' e h
call_bound clears p p' e h = clear_bound p p' e h

run_bound :
    (cs : List Call) (p p' : ObjectPool)
    → run cs p ≡ some p'
    → length p.pool ≤ suc (to_size p.max_object_count)
    → length p'.pool ≤ suc (to_size p.max_object_count)
unfolding run
run_bound [] p p' e h = ground arith
run_bound (c ∷ cs) p p' e h = elim (Option-cases (call c p)) [
  | inl none_ ↦ ground arith
  | inr (q, step) ↦
      let (small, same) = call_bound c p q step h in
      let rest : run cs q ≡ some p' = ground arith in
      rw (← same) (run_bound cs q p' rest (rw same small))
]

-- Whatever calls are made on a new pool, it never keeps more packets than one over its limit.
pub pool_is_bounded :
    (count : ℤ) (h : Heap) (c : ℕ → Bytes) (calls : List Call) (p : ObjectPool)
    → run calls (new count h c) ≡ some p
    → length p.pool ≤ suc (to_size count)
pool_is_bounded count h c calls p e = run_bound calls (new count h c) p e (omega arith)

unfoldable pub push_all : List ℕ → List Call
push_all [] = []
push_all (o ∷ l) = pushes (some o) ∷ push_all l

push_all_from :
    (l : List ℕ) (p : ObjectPool)
    → length p.pool + length l ≤ suc (to_size p.max_object_count)
    → run (push_all l) p ≡ some (record p { pool = p.pool ++ l })
unfolding push_all run call push
push_all_from [] p h = rw (append-nil p.pool) refl
push_all_from (o ∷ l) p h =
    let room : is_over p ≡ false = ground arith in
    rw (run, call, push, room)
      (push_all_from l (record p { pool = p.pool ++ (o ∷ []) })
          (omega (arith, length-append p.pool (o ∷ [])))
        ∙ ap (λ m. some (record p { pool = m })) (append_assoc p.pool (o ∷ []) l))

-- One packet over the limit is kept: pushing that many packets on a new pool stores them all, in
-- order.
keeps_one_over :
    (count : ℤ) (h : Heap) (c : ℕ → Bytes) (l : List ℕ)
    → length l ≡ suc (to_size count)
    → run (push_all l) (new count h c) ≡ some (record (new count h c) { pool = l })
keeps_one_over count h c l e = push_all_from l (new count h c) (omega arith)
