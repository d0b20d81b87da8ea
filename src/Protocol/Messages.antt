-- ===== src/Protocol/Messages.antt =====
-- What `parse` makes of a text that `build` made, src/tcppipe.hpp.
use cpp_shared.Protocol.{build, tokens, split, find, throws, parse, add_first}
use cpp_shared.Prelude.{
  ℕ, ◌≡◌, refl, ap, ◌∙◌, [], ◌∷◌, ◌++◌, none, some, false, ◌==◌, Bytes, codes, arith, All,
}

-- No byte of a field is a comma.
abbrev pub IsPlain : ℕ → Type 0
IsPlain c = (c == 44) ≡ false

tokens-plain : (s m : Bytes) → All IsPlain s → tokens (s ++ (44 ∷ m)) ≡ s ∷ tokens m
unfolding tokens
tokens-plain [] m h = refl
tokens-plain (c ∷ s) m h = rw (h.0) (ap (add_first c) (tokens-plain s m h.1))

built_tokens :
    (s f t c m : Bytes)
    → All IsPlain s
    → All IsPlain f
    → All IsPlain t
    → build (s ∷ f ∷ t ∷ c ∷ []) ≡ some m
    → split m
      ≡ (codes "service:" ++ s)
        ∷ (codes "from:" ++ f)
        ∷ (codes "to:" ++ t)
        ∷ tokens (codes "content:" ++ c)
unfolding build split
built_tokens s f t c m hs hf ht e =
    let rest_t : Bytes = codes "content:" ++ c in
    let rest_f : Bytes = codes "to:" ++ (t ++ (44 ∷ rest_t)) in
    let rest_s : Bytes = codes "from:" ++ (f ++ (44 ∷ rest_f)) in
    let same : codes "service:" ++ (s ++ (44 ∷ rest_s)) ≡ m = ground arith in
    rw (← same) (
      tokens-plain (codes "service:" ++ s) rest_s
        (refl, (refl, (refl, (refl, (refl, (refl, (refl, (refl, hs))))))))
      ∙ ap (λ l. (codes "service:" ++ s) ∷ l)
          (tokens-plain (codes "from:" ++ f) rest_f (refl, (refl, (refl, (refl, (refl, hf)))))
            ∙ ap (λ l. (codes "from:" ++ f) ∷ l)
                (tokens-plain (codes "to:" ++ t) rest_t (refl, (refl, (refl, ht))))))

-- A message that `build` made of fields without commas, and whose destination does not hold the word
-- that stands before the content, is not read back: `parse` throws, since it looks for the content
-- in the token of the destination.
pub parse-build :
    (s f t c m : Bytes)
    → All IsPlain s
    → All IsPlain f
    → All IsPlain t
    → find (codes "content:") (codes "to:" ++ t) ≡ none
    → build (s ∷ f ∷ t ∷ c ∷ []) ≡ some m
    → parse m ≡ throws
unfolding parse find
parse-build s f t c m hs hf ht missing e =
    let split_m : _ = built_tokens s f t c m hs hf ht e in rw (parse, split_m) (rw missing refl)
