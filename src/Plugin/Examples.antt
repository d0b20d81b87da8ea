-- ===== src/Plugin/Examples.antt =====
-- Runs of the plugin loader, src/pluginloader.h, over a linker that counts references.
use cpp_shared.Plugin.{Linker, IsLinker, same}
use cpp_shared.Plugin.References.{is_zero, Op, opens, closes, run, held, references_held}
use cpp_shared.Prelude.{
  ℕ, ap, sym, ◌∙◌, ◌<◌, ◌≢◌, Bool, ◌+◌, ◌-◌, ◌≡◌, refl, List, [], ◌∷◌, Option, none, some, true,
  false, arith, if◌then◌else◌, Bytes, codes, ℤ, pos, negsuc, bytes_eq,
}

-- A library is known by the length of its name; the empty name is not found.
abbrev opened_by : Bytes → (ℕ → ℕ) → Option ℕ × (ℕ → ℕ)
opened_by [] s = (none, s)
opened_by (x ∷ name) s = (some x, λ g. s g + same g x)

abbrev closed_by : ℤ → ℤ → Option ℕ → (ℕ → ℕ) → ℤ × (ℕ → ℕ)
closed_by good bad none s = (bad, s)
closed_by good bad (some h) s = (good, λ g. s g - same g h)

abbrev symbols : Option ℕ → Bytes → (ℕ → ℕ) → Option ℕ
symbols none name s = none
symbols (some h) name s = if bytes_eq name (codes "animal_init") then none else some 7

abbrev linker : ℤ → ℤ → Linker ℕ
linker good bad = record {
  State = ℕ → ℕ;
  open_library = opened_by;
  close_library = closed_by good bad;
  symbol = symbols;
}

none_found : {x : ℕ} → none ≡ some x → ⊥
none_found e = cc

some_found : {x y : ℕ} → some x ≡ some y → y ≡ x
some_found e = cc

true_not_false : true ≢ false
true_not_false e = cc

opened_refs :
    (name : Bytes) (s s' : ℕ → ℕ) (h g : ℕ)
    → opened_by name s ≡ (some h, s')
    → s' g ≡ s g + same g h
opened_refs [] s s' h g e = absurd (none_found (ap (λ p. p.0) e))
opened_refs (x ∷ name) s s' h g e =
    let at : h ≡ x = some_found (ap (λ p. p.0) e) in
    let after : (λ k. s k + same k x) ≡ s' = ap (λ p. p.1) e in
    sym (ap (λ f. f g) after) ∙ ap (λ k. s g + same g k) (sym at)

unopened_refs : (name : Bytes) (s s' : ℕ → ℕ) (g : ℕ) → opened_by name s ≡ (none, s') → s' g ≡ s g
unopened_refs [] s s' g e = ap (λ p. p.1 g) (sym e)
unopened_refs (x ∷ name) s s' g e = absurd (none_found (ap (λ p. p.0) (sym e)))

closed_refs :
    (good bad : ℤ) (s s' : ℕ → ℕ) (h g : ℕ) (r : ℤ)
    → 0 < s h
    → closed_by good bad (some h) s ≡ (r, s')
    → s' g + same g h ≡ s g
closed_refs good bad s s' h g r live e =
    let after : s g - same g h ≡ s' g = ap (λ p. p.1 g) e in ground arith

unclosed_refs :
    (good bad : ℤ) (closed : ℤ → Bool)
    → closed good ≡ true
    → (s s' : ℕ → ℕ) (o : Option ℕ) (g : ℕ) (r : ℤ) → closed_by good bad o s ≡ (r, s')
    → closed r ≡ false
    → s' g ≡ s g
unclosed_refs good bad closed well s s' none g r e failed = ap (λ p. p.1 g) (sym e)
unclosed_refs good bad closed well s s' (some h) g r e failed =
    let same_result : good ≡ r = ap (λ p. p.0) e in
    absurd (true_not_false (sym well ∙ ap closed same_result ∙ failed))

abbrev closes_well : IsLinker (linker (pos 0) (negsuc 0)) is_zero
closes_well = record {
  refs = λ s g. s g;
  refs-open = λ name s s' h g e. opened_refs name s s' h g e;
  refs-open_failed = λ name s s' g e. unopened_refs name s s' g e;
  refs-close = λ s s' h g r live e ok. closed_refs (pos 0) (negsuc 0) s s' h g r live e;
  refs-close_failed =
      λ s s' o g r e bad. unclosed_refs (pos 0) (negsuc 0) is_zero refl s s' o g r e bad;
}

abbrev linux : Linker ℕ
linux = linker (pos 0) (negsuc 0)

abbrev session : List Op
session = opens (5 ∷ []) ∷ opens (9 ∷ []) ∷ closes ∷ []

abbrev linux_state : ℕ → ℕ
linux_state = (run linux session (record { handle = none; state = λ g. 0 })).state

-- Two opens, the second for nothing, and a close.
references_held_example :
    linux_state 5 ≡ 0 + held (run linux session (record { handle = none; state = λ g. 0 })).handle 5
references_held_example = references_held linux closes_well session (λ g. 0) 5
