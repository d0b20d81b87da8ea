-- ===== src/Buffer.antt =====
-- src/buffer.hpp: two blocks of memory that swap their roles when the one being written is full.
-- A block is the list of its bytes; `none` is the null pointer. Counters are `unsigned long`s of 64
-- bits. A copy that leaves its block, or that is made through a null pointer, is undefined
-- behaviour, the result `none`.
pub mod Contents
mod Examples
use cpp_shared.Prelude.{
  ℕ, ◌+◌, ◌%◌, ◌^◌, List, [], ◌∷◌, ◌++◌, Option, none, some, Bool, true, false, leb, if◌then◌else◌,
  length, take, drop, replicate, Bytes,
}

pub record Buffer : Type 0 where
  pub w_data : Option Bytes
  pub w_len : ℕ
  pub r_data : Option Bytes
  pub r_len : ℕ
  pub capacity : ℕ

unfoldable pub new : Buffer
new = record { w_data = none; w_len = 0; r_data = none; r_len = 0; capacity = 0 }

-- `memcpy(block + at, bytes, bytes.size())`
unfoldable pub memcpy_at : ℕ → Bytes → Bytes → Option Bytes
memcpy_at at bytes block =
    if leb (at + length bytes) (length block)
    then some (take at block ++ (bytes ++ drop (at + length bytes) block))
    else none

-- `memset(block, 0, n)`, which may be given a null pointer when there is nothing to write
unfoldable pub memset_zero : ℕ → Option Bytes → Option (Option Bytes)
memset_zero n none = if leb n 0 then some none else none
memset_zero n (some block) =
    if leb n (length block) then some (some (replicate n 0 ++ drop n block)) else none

abbrev swap : Buffer → Option (ℕ × Buffer)
swap b = elim (memset_zero b.capacity b.r_data) [
  | none ↦ none
  | some p ↦ some (1, record b { r_data = b.w_data; r_len = b.w_len; w_data = p; w_len = 0 })
]

abbrev append_at : Bytes → Buffer → Option Bytes → Option (ℕ × Buffer)
append_at bytes b none = none
append_at bytes b (some block) = elim (memcpy_at b.w_len bytes block) [
  | none ↦ none
  | some block' ↦
      some (0, record b { w_data = some block'; w_len = (b.w_len + length bytes) % 2 ^ 64 })
]

-- The result 1 says that the blocks were swapped and nothing was stored.
unfoldable pub write : Bytes → Buffer → Option (ℕ × Buffer)
write bytes b = if leb b.capacity b.w_len then swap b else append_at bytes b b.w_data
