-- ===== src/Plugin/Windows.antt =====
-- `PluginLoader` of src/pluginloader.h for Windows, where `FreeLibrary` returns zero if it fails.
use cpp_shared.Plugin.{Linker, IsLinker, Loader, opened}
use cpp_shared.Prelude.{
  ℕ, ◌+◌, ◌<◌, ◌≡◌, ◌⊎◌, ap, sym, [], ◌∷◌, Option, none, some, Bool, true, false, not, arith,
  if◌then◌else◌, Bytes, ℤ, pos, int_eq, Bool-cases, inl, inr,
}

module _ {F : Type 0} (l : Linker F) where
  abbrev pub open_null : Bytes → Loader l → Option ℕ → Bool × Loader l
  open_null name p (some h) = (true, p)
  open_null name p none = opened l (l.open_library name p.state)

  unfoldable pub open_module : Bytes → Loader l → Bool × Loader l
  open_module [] p = (false, p)
  open_module (c ∷ name) p = open_null (c ∷ name) p p.handle

  abbrev pub closed_with : Loader l → ℤ × l.State → Loader l
  closed_with p (r, s) = record { handle = if int_eq r (pos 0) then none else p.handle; state = s }

  unfoldable pub close_module : Loader l → Loader l
  close_module p = closed_with p (l.close_library p.handle p.state)

  -- `~PluginLoader`
  abbrev pub destroy_with : Loader l → Option ℕ → Loader l
  destroy_with p none = close_module p
  destroy_with p (some h) = p

  unfoldable pub destroy_module : Loader l → Loader l
  destroy_module p = destroy_with p p.handle

abbrev pub is_nonzero : ℤ → Bool
is_nonzero r = not (int_eq r (pos 0))

module _ {F : Type 0} (l : Linker F) (laws : IsLinker l is_nonzero) where
  closed-cases :
      (p : Loader l) (h : ℕ) (r : ℤ) (s' : l.State)
      → p.handle ≡ some h
      → 0 < laws.refs p.state h
      → l.close_library (some h) p.state ≡ (r, s')
      → (((closed_with l p (r, s')).handle ≡ some h) × (laws.refs s' h + 1 ≡ laws.refs p.state h))
        ⊎ (((closed_with l p (r, s')).handle ≡ none) × (laws.refs s' h ≡ laws.refs p.state h))
  closed-cases p h r s' at live e = elim (Bool-cases (is_nonzero r)) [
    | inl ok ↦ inl (ground arith, ground (arith, laws.refs-close p.state s' h h r live e ok))
    | inr bad ↦ inr (ground arith, laws.refs-close_failed p.state s' (some h) h r e bad)
  ]

  -- `close` keeps the handle exactly when the library was released, and drops it exactly when it was
  -- not: it takes the result of `FreeLibrary` the wrong way round.
  close_inverted :
      (p : Loader l) (h : ℕ)
      → p.handle ≡ some h
      → 0 < laws.refs p.state h
      → (((close_module l p).handle ≡ some h)
          × (laws.refs (close_module l p).state h + 1 ≡ laws.refs p.state h))
        ⊎ (((close_module l p).handle ≡ none)
            × (laws.refs (close_module l p).state h ≡ laws.refs p.state h))
  unfolding close_module
  close_inverted p h at live =
      closed-cases p h (l.close_library p.handle p.state).0 (l.close_library p.handle p.state).1 at
        live (ap (λ o. l.close_library o p.state) (sym at))

  -- The destructor releases no library that is loaded, and with a null handle it calls `FreeLibrary`
  -- on the null pointer.
  destroy_inverted : (p : Loader l) (h : ℕ) → p.handle ≡ some h → destroy_module l p ≡ p
  unfolding destroy_module
  destroy_inverted p h at = ground arith
