-- ===== src/Prelude/Maps.antt =====
-- `std::map` as an association list kept in the order of its keys.
use mathlib.Core.Path.{◌≡◌, refl}
use mathlib.Core.Bool.{true}
use mathlib.Core.Option.{Option, none, some}
use mathlib.Core.List.{List, [], ◌∷◌}
use native.Mathlib.Omega.{arith}
use cpp_shared.Prelude.Tests.{if◌then◌else◌}
use cpp_shared.Prelude.Keys.{Key}

abbrev pub Map : Type 0 → Type 0 → Type 0
Map K V = List (K × V)

pub eq_refl : {K : Type 0} ⦃k : Key K⦄ (a : K) → k.eq a a ≡ true
eq_refl ⦃k⦄ a = (k.eq_iff a a).1 refl

module _ {K V : Type 0} ⦃k : Key K⦄ where
  -- `find`, with `none` for `end()`
  unfoldable pub lookup : K → Map K V → Option V
  lookup a [] = none
  lookup a ((b, v) ∷ m) = if k.eq a b then some v else lookup a m

  -- `m[a] = v`
  unfoldable pub assign : K → V → Map K V → Map K V
  assign a v [] = (a, v) ∷ []
  assign a v ((b, w) ∷ m) =
      if k.eq a b
      then (a, v) ∷ m
      else if k.lt a b
      then (a, v) ∷ (b, w) ∷ m
      else (b, w) ∷ assign a v m

  -- `m.insert(pair(a, v))`: a key that is there keeps its value
  unfoldable pub insert : K → V → Map K V → Map K V
  insert a v m = elim (lookup a m) [ none ↦ assign a v m | some w ↦ m ]

  -- `m.erase(a)`
  unfoldable pub erase : K → Map K V → Map K V
  erase a [] = []
  erase a ((b, w) ∷ m) = if k.eq a b then erase a m else (b, w) ∷ erase a m

  pub lookup-assign :
      (a b : K) (v : V) (m : Map K V)
      → lookup b (assign a v m) ≡ (if k.eq b a then some v else lookup b m)
  unfolding lookup assign
  lookup-assign a b v [] = refl
  lookup-assign a b v ((c, w) ∷ m) =
      ground (arith, k.eq_iff b a, k.eq_iff a c, k.eq_iff b c, lookup-assign a b v m)

  pub lookup-assign_self : (a : K) (v : V) (m : Map K V) → lookup a (assign a v m) ≡ some v
  lookup-assign_self a v m = rw (lookup-assign a a v m, eq_refl a)

  pub lookup-insert_new :
      (a : K) (v : V) (m : Map K V) → lookup a m ≡ none → lookup a (insert a v m) ≡ some v
  unfolding insert
  lookup-insert_new a v m h = rw (h, insert) (lookup-assign_self a v m)

  pub insert_old : (a : K) (v : V) (m : Map K V) {w : V} → lookup a m ≡ some w → insert a v m ≡ m
  unfolding insert
  insert_old a v m h = rw (h, insert)

  pub lookup-erase :
      (a b : K) (m : Map K V) → lookup b (erase a m) ≡ (if k.eq b a then none else lookup b m)
  unfolding lookup erase
  lookup-erase a b [] = ground arith
  lookup-erase a b ((c, w) ∷ m) =
      ground (arith, k.eq_iff b a, k.eq_iff a c, k.eq_iff b c, lookup-erase a b m)
