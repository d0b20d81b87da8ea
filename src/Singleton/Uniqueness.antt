-- ===== src/Singleton/Uniqueness.antt =====
-- What the double-checked lock of src/singleton.hpp promises.
use cpp_shared.Prelude.{
  ℕ, ◌≤◌, ◌≡◌, ◌≢◌, ◌⊎◌, inl, refl, true, false, none, some, arith, ◌==◌, ℕ_discrete,
}
use cpp_shared.Singleton.{
  Pc, assigning, races, outside, first_test, wants_lock, second_test, makes, unlocks, reads,
  returned, Shared, System, init, instance_step, step, Reach, start, later,
}

-- What thread `i` can rely on at each place.
abbrev Fact : ℕ → Shared → Pc → Type 0
Fact i m outside = Unit
Fact i m first_test = Unit
Fact i m wants_lock = Unit
Fact i m second_test = (m.mutex ≡ some i) × (m.assigned_now ≡ false)
Fact i m makes = (m.mutex ≡ some i) × (m.assigned_now ≡ false) × (m.ptr ≡ none)
Fact i m (assigning object) =
    (m.mutex ≡ some i) × (m.assigned_now ≡ true) × (m.ptr ≡ none) × (object ≡ 0)
Fact i m unlocks = (m.mutex ≡ some i) × (m.ptr ≡ some 0)
Fact i m reads = m.ptr ≡ some 0
Fact i m (returned r) = (m.ptr ≡ some 0) × (r ≡ some 0)
Fact i m races = Unit

abbrev IsMade : Shared → Type 0
IsMade m =
    ((m.assigned_now ≡ false)
      × (((m.ptr ≡ none) × (m.made ≡ 0)) ⊎ ((m.ptr ≡ some 0) × (m.made ≡ 1))))
    ⊎ ((m.assigned_now ≡ true) × (m.ptr ≡ none) × (m.made ≡ 1) × (m.mutex ≢ none))

record Inv (s : System) : Type 0 where
  made : IsMade s.shared
  facts : (i : ℕ) → Fact i s.shared (s.pc i)

step-IsMade : (i : ℕ) (m : Shared) (p : Pc) → IsMade m → Fact i m p → IsMade (instance_step i p m).1
unfolding instance_step
step-IsMade i m outside h f = h
step-IsMade i m p h f = ground arith

own-Fact :
    (i : ℕ) (m : Shared) (p : Pc)
    → IsMade m
    → Fact i m p
    → Fact i (instance_step i p m).1 (instance_step i p m).0
unfolding instance_step
own-Fact i m outside h f = tt
own-Fact i m p h f = ground arith

-- Another thread's step does not touch what thread `j` relies on.
other-Fact :
    (i j : ℕ) (m : Shared) (p q : Pc)
    → i ≢ j
    → IsMade m
    → Fact i m p
    → Fact j m q
    → Fact j (instance_step i p m).1 q
unfolding instance_step
other-Fact i j m outside outside ne h f g = tt
other-Fact i j m p q ne h f g = ground arith

eq_self : (i : ℕ) → (i == i) ≡ true
eq_self i = ground arith

ne→== : (i j : ℕ) → i ≢ j → (i == j) ≡ false
ne→== i j h = ground arith

step-Inv : (i : ℕ) (s : System) → Inv s → Inv (step i s)
unfolding step
step-Inv i s v = record {
  made = step-IsMade i s.shared (s.pc i) v.made (v.facts i);
  facts = λ j. elim (ℕ_discrete i j) [
    | yes same ↦ rw (← same, eq_self i) (own-Fact i s.shared (s.pc i) v.made (v.facts i))
    | no other ↦
        rw (ne→== i j other)
          (other-Fact i j s.shared (s.pc i) (s.pc j) other v.made (v.facts i) (v.facts j))
  ];
}

Reach-Inv : {s : System} → Reach s → Inv s
unfolding init
Reach-Inv start = record { made = inl (refl, inl (refl, refl)); facts = λ i. tt }
Reach-Inv (later i r) = step-Inv i _ (Reach-Inv r)

-- Whatever the interleaving, at most one object is constructed.
one_object : {s : System} → Reach s → s.shared.made ≤ 1
one_object r = ground (arith, (Reach-Inv r).made)
