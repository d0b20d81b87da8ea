-- ===== src/Log/Entries.antt =====
-- An entry of the log can be taken apart again: src/log.hpp, src/logger.hpp.
use cpp_shared.Log.{Call, to_string, bracketed, entry}
use cpp_shared.Prelude.{
  ℕ, suc, ◌≡◌, ◌≢◌, refl, sym, ap, [], ◌∷◌, ◌++◌, arith, ◌==◌, false, print, print_injective,
  print-All, IsDigit, Bytes, codes, ℤ, pos, negsuc, All,
}

-- A byte of a field that is not its closing bracket.
abbrev pub IsInner : ℕ → Type 0
IsInner c = (c == b']') ≡ false

-- Two texts without the bracket, each before a bracket and a rest.
bracket_injective :
    (a b r s : Bytes)
    → All IsInner a
    → All IsInner b
    → a ++ (b']' ∷ r) ≡ b ++ (b']' ∷ s)
    → (a ≡ b) × (r ≡ s)
bracket_injective [] [] r s ha hb e = (refl, cc)
bracket_injective [] (y ∷ b) r s ha hb e = ground arith
bracket_injective (x ∷ a) [] r s ha hb e = ground arith
bracket_injective (x ∷ a) (y ∷ b) r s ha hb e =
    let rest : a ++ (b']' ∷ r) ≡ b ++ (b']' ∷ s) = cc in
    let (same, tails) = bracket_injective a b r s ha.1 hb.1 rest in
    let head : x ≡ y = cc in (cc, tails)

append_injective : (l a b : Bytes) → l ++ a ≡ l ++ b → a ≡ b
append_injective [] a b e = e
append_injective (x ∷ l) a b e = let rest : l ++ a ≡ l ++ b = cc in append_injective l a b rest

bracketed_injective :
    (label : Bytes) {a b r s : Bytes}
    → bracketed label a r ≡ bracketed label b s
    → All IsInner a
    → All IsInner b
    → (a ≡ b) × (r ≡ s)
unfolding bracketed
bracketed_injective label {a} {b} {r} {s} e ha hb =
    bracket_injective a b r s ha hb (append_injective label (a ++ (b']' ∷ r)) (b ++ (b']' ∷ s)) e)

digits-IsInner : (s : Bytes) → All IsDigit s → All IsInner s
digits-IsInner [] h = tt
digits-IsInner (c ∷ s) h = (ground arith, digits-IsInner s h.1)

to_string-IsInner : (n : ℤ) → All IsInner (to_string n)
unfolding to_string
to_string-IsInner (pos n) = digits-IsInner (print n) (print-All n)
to_string-IsInner (negsuc n) = (refl, digits-IsInner (print (suc n)) (print-All (suc n)))

minus_is_no_digit : (s t : Bytes) → All IsDigit s → s ≢ b'-' ∷ t
minus_is_no_digit [] t h e = cc
minus_is_no_digit (c ∷ s) t h e = let same : c ≡ b'-' = cc in absurd (omega arith)

to_string_injective : (m n : ℤ) → to_string m ≡ to_string n → m ≡ n
unfolding to_string
to_string_injective (pos m) (pos n) e = ap pos (print_injective m n e)
to_string_injective (pos m) (negsuc n) e =
    absurd (minus_is_no_digit (print m) (print (suc n)) (print-All m) e)
to_string_injective (negsuc m) (pos n) e =
    absurd (minus_is_no_digit (print n) (print (suc m)) (print-All n) (sym e))
to_string_injective (negsuc m) (negsuc n) e =
    let tails : print (suc m) ≡ print (suc n) = cc in
    let same : suc m ≡ suc n = print_injective (suc m) (suc n) tails in cc

pub record IsReadable (time level : Bytes) (c : Call) : Type 0 where
  pub time_inner : All IsInner time
  pub level_inner : All IsInner level
  pub file_inner : All IsInner c.file_name
  pub function_inner : All IsInner c.function
  pub info_inner : All IsInner c.info

-- Equal entries record the same: no field that is logged is lost or runs into another, if no text
-- has a closing bracket.
pub entry_injective :
    (time time' level level' : Bytes) (c c' : Call)
    → IsReadable time level c
    → IsReadable time' level' c'
    → entry time level c ≡ entry time' level' c'
    → (time ≡ time') × (level ≡ level') × (c ≡ c')
unfolding entry
entry_injective time time' level level' c c' h h' e =
    let (e1, r1) = bracketed_injective (codes "[") e h.time_inner h'.time_inner in
    let (e2, r2) = bracketed_injective (codes "[") r1 h.level_inner h'.level_inner in
    let (e3, r3) = bracketed_injective (codes "[FILE:") r2 h.file_inner h'.file_inner in
    let (e4, r4) =
      bracketed_injective (codes "[LINE:") r3 (to_string-IsInner c.line_no)
        (to_string-IsInner c'.line_no) in
    let (e5, r5) = bracketed_injective (codes "[FUNC:") r4 h.function_inner h'.function_inner in
    let (e6, r6) = bracketed_injective (codes "[MESSAGE:") r5 h.info_inner h'.info_inner in
    let e7 : c.line_no ≡ c'.line_no = to_string_injective c.line_no c'.line_no e4 in
    (e1, e2, ground arith)
