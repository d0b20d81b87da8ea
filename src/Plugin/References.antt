-- ===== src/Plugin/References.antt =====
-- The references that the loader for Linux holds, src/pluginloader.h.
use cpp_shared.Plugin.{
  Linker, IsLinker, same, Loader, open_null, open_plugin, closed_with, close_handle, close_plugin,
}
use cpp_shared.Prelude.{
  ℕ, ◌+◌, ◌≡◌, refl, List, [], ◌∷◌, Option, none, some, Bool, arith, Bytes, ℤ, pos, int_eq,
  Bool-cases, inl, inr,
}

-- The result of `dlclose` on success.
abbrev pub is_zero : ℤ → Bool
is_zero r = int_eq r (pos 0)

pub data Op : Type 0 where
  opens : (name : Bytes) → Op
  closes : Op

unfoldable pub step : {F : Type 0} (l : Linker F) → Op → Loader l → Loader l
step l (opens name) p = (open_plugin l name p).1
step l closes p = close_plugin l p

unfoldable pub run : {F : Type 0} (l : Linker F) → List Op → Loader l → Loader l
unfolding step
run l [] p = p
run l (o ∷ os) p = run l os (step l o p)

-- The reference that the loader has.
abbrev pub held : Option ℕ → ℕ → ℕ
held none g = 0
held (some h) g = same g h

null_held : {o : Option ℕ} → o ≡ none → (g : ℕ) → held o g ≡ 0
null_held at g = ground arith

module _ {F : Type 0} (l : Linker F) (laws : IsLinker l is_zero) where
  -- `base` counts the references of all others.
  abbrev IsBalanced : (ℕ → ℕ) → Loader l → Type 0
  IsBalanced base p = (g : ℕ) → laws.refs p.state g ≡ base g + held p.handle g

  opened-IsBalanced :
      (base : ℕ → ℕ) (name : Bytes) (s s' : l.State) (o : Option ℕ)
      → l.open_library name s ≡ (o, s')
      → ((g : ℕ) → laws.refs s g ≡ base g)
      → (g : ℕ) → laws.refs s' g ≡ base g + held o g
  opened-IsBalanced base name s s' none e b g =
      omega (arith, b g, laws.refs-open_failed name s s' g e)
  opened-IsBalanced base name s s' (some h) e b g =
      omega (arith, b g, laws.refs-open name s s' h g e)

  open_null-IsBalanced :
      (base : ℕ → ℕ) (name : Bytes) (p : Loader l) (o : Option ℕ)
      → p.handle ≡ o
      → IsBalanced base p
      → IsBalanced base (open_null l name p o).1
  open_null-IsBalanced base name p (some h) at b g = b g
  open_null-IsBalanced base name p none at b g = ground (
    arith,
    opened-IsBalanced base name p.state (l.open_library name p.state).1
        (l.open_library name p.state).0 refl (λ k. omega (arith, b k, null_held at k)) g,
  )

  open-IsBalanced :
      (base : ℕ → ℕ) (name : Bytes) (p : Loader l)
      → IsBalanced base p
      → IsBalanced base (open_plugin l name p).1
  unfolding open_plugin
  open-IsBalanced base [] p b g = b g
  open-IsBalanced base (c ∷ name) p b g = open_null-IsBalanced base (c ∷ name) p p.handle refl b g

  closed_with-IsBalanced :
      (base : ℕ → ℕ) (p : Loader l) (h : ℕ) (r : ℤ) (s' : l.State)
      → p.handle ≡ some h
      → l.close_library (some h) p.state ≡ (r, s')
      → IsBalanced base p
      → IsBalanced base (closed_with l p (r, s'))
  closed_with-IsBalanced base p h r s' at e b g = elim (Bool-cases (is_zero r)) [
    | inl ok ↦
        ground (arith, b g, b h, at, laws.refs-close p.state s' h g r (ground (arith, b h)) e ok)
    | inr bad ↦ ground (arith, b g, at, laws.refs-close_failed p.state s' (some h) g r e bad)
  ]

  close_handle-IsBalanced :
      (base : ℕ → ℕ) (p : Loader l) (o : Option ℕ)
      → p.handle ≡ o
      → IsBalanced base p
      → IsBalanced base (close_handle l p o)
  close_handle-IsBalanced base p none at b g = b g
  close_handle-IsBalanced base p (some h) at b g =
      closed_with-IsBalanced base p h (l.close_library (some h) p.state).0
        (l.close_library (some h) p.state).1 at refl b g

  step-IsBalanced :
      (base : ℕ → ℕ) (o : Op) (p : Loader l) → IsBalanced base p → IsBalanced base (step l o p)
  unfolding step close_plugin
  step-IsBalanced base (opens name) p b = open-IsBalanced base name p b
  step-IsBalanced base closes p b = close_handle-IsBalanced base p p.handle refl b

  run-IsBalanced :
      (base : ℕ → ℕ) (os : List Op) (p : Loader l)
      → IsBalanced base p
      → IsBalanced base (run l os p)
  unfolding run
  run-IsBalanced base [] p b = b
  run-IsBalanced base (o ∷ os) p b =
      run-IsBalanced base os (step l o p) (step-IsBalanced base o p b)

  -- Whatever opens and closes are made on a new loader, and whichever of them fail, beyond the
  -- references that there were before it holds one to the library of its handle and none to any
  -- other.
  pub references_held :
      (os : List Op) (s : l.State) (g : ℕ)
      → laws.refs (run l os (record { handle = none; state = s })).state g
        ≡ laws.refs s g + held (run l os (record { handle = none; state = s })).handle g
  references_held os s g =
      run-IsBalanced (λ k. laws.refs s k) os (record { handle = none; state = s })
        (λ k. omega arith) g
