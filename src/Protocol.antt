-- ===== src/Protocol.antt =====
-- `Protocol` of src/tcppipe.hpp: the text of a message, and its fields. An index that is out of
-- range is undefined behaviour; `substr` throws for a position past the end.
pub mod Messages
mod Examples
use cpp_shared.Prelude.{
  ℕ, suc, List, [], ◌∷◌, ◌++◌, Option, none, some, Bool, true, false, if◌then◌else◌, drop,
  get_elem?, ◌==◌, Bytes, codes,
}

-- The four fields are read as data[0] to data[3].
unfoldable pub build : List Bytes → Option Bytes
build (service ∷ from ∷ to ∷ content ∷ more) = some (
    codes "service:"
    ++ (service
        ++ (codes ","
            ++ (codes "from:"
                ++ (from
                    ++ (codes ","
                        ++ (codes "to:"
                            ++ (to ++ (codes "," ++ (codes "content:" ++ content))))))))))
build _ = none

-- The tokens between the commas; what is behind the last comma is one only if it is not empty.
abbrev pub add_first : ℕ → List Bytes → List Bytes
add_first c [] = (c ∷ []) ∷ []
add_first c (t ∷ ts) = (c ∷ t) ∷ ts

unfoldable pub tokens : Bytes → List Bytes
tokens [] = []
tokens (c ∷ m) = if c == 44 then [] ∷ tokens m else add_first c (tokens m)

-- `std::sregex_token_iterator` with -1: an empty message is one empty token.
unfoldable pub split : Bytes → List Bytes
split [] = [] ∷ []
split (c ∷ m) = tokens (c ∷ m)

abbrev pub starts_with : Bytes → Bytes → Bool
starts_with [] s = true
starts_with (c ∷ p) [] = false
starts_with (c ∷ p) (d ∷ s) = if c == d then starts_with p s else false

-- `std::string::find`, with `none` for `npos`
unfoldable pub find : Bytes → Bytes → Option ℕ
find p [] = if starts_with p [] then some 0 else none
find p (d ∷ s) =
    let rest = find p s in
    if starts_with p (d ∷ s) then some 0 else elim rest [ none ↦ none | some n ↦ some (suc n) ]

pub data Parsed (A : Type 0) : Type 0 where
  undefined : Parsed A
  throws : Parsed A
  parsed : (value : A) → Parsed A

-- `dataVec[i].substr(dataVec[i].find(key))`
abbrev pub cut : Bytes → Option ℕ → Parsed Bytes
cut s none = throws
cut s (some n) = parsed (drop n s)

abbrev pub field : Option Bytes → Bytes → Parsed Bytes
field none key = undefined
field (some s) key = cut s (find key s)

abbrev pub and_then : {A B : Type 0} → Parsed A → (A → Parsed B) → Parsed B
and_then undefined f = undefined
and_then throws f = throws
and_then (parsed a) f = f a

pub record Message : Type 0 where
  pub service : Bytes
  pub from : Bytes
  pub to : Bytes
  pub content : Bytes

-- The content is looked for in the third token, as the destination is.
unfoldable pub parse : Bytes → Parsed Message
parse message =
    let data_vec = split message in
    and_then (field (get_elem? data_vec 0) (codes "service:")) (λ service.
      and_then (field (get_elem? data_vec 1) (codes "from:")) (λ from.
        and_then (field (get_elem? data_vec 2) (codes "to:")) (λ to.
          and_then (field (get_elem? data_vec 2) (codes "content:")) (λ content.
            parsed (record { service = service; from = from; to = to; content = content })))))
