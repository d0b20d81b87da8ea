-- ===== src/Buffer/Examples.antt =====
-- Runs of src/buffer.hpp on blocks of four bytes.
use cpp_shared.Prelude.{ℕ, ◌≡◌, [], ◌∷◌, ◌++◌, some, arith}
use cpp_shared.Buffer.{Buffer, write}
use cpp_shared.Buffer.Contents.{IsValid, stored, write_appends}

abbrev at_length : ℕ → Buffer
at_length n = record {
  w_data = some (5 ∷ 6 ∷ 7 ∷ 0 ∷ []);
  w_len = n;
  r_data = some (1 ∷ 2 ∷ 3 ∷ 4 ∷ []);
  r_len = 4;
  capacity = 4;
}

write_appends_example :
    (b' : Buffer) × (write (8 ∷ 9 ∷ []) (at_length 2) ≡ some (0, b'))
    × IsValid b'
    × (stored b'.w_len b'.w_data ≡ (5 ∷ 6 ∷ []) ++ (8 ∷ 9 ∷ []))
    × (b'.r_data ≡ some (1 ∷ 2 ∷ 3 ∷ 4 ∷ []))
    × (b'.r_len ≡ 4)
write_appends_example =
    write_appends (at_length 2) (8 ∷ 9 ∷ []) (omega arith) (omega arith) (omega arith)
