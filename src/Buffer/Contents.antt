-- ===== src/Buffer/Contents.antt =====
-- What src/buffer.hpp stores, and where it writes past its block.
use cpp_shared.Prelude.{
  ℕ, zero, ◌+◌, ◌^◌, ◌<◌, ◌≤◌, ◌≡◌, refl, [], ◌++◌, Option, none, some, arith, length, take, drop,
  replicate, Bytes, length-append, length-take, length-drop, length-replicate, append_assoc,
  take-append,
}
use cpp_shared.Buffer.{Buffer, memcpy_at, memset_zero, write}

-- A block of `c` bytes.
abbrev pub Sized : ℕ → Option Bytes → Type 0
Sized c none = ⊥
Sized c (some block) = length block ≡ c

-- The first `n` bytes of a block.
abbrev pub stored : ℕ → Option Bytes → Bytes
stored n none = []
stored n (some block) = take n block

-- Both blocks are there and as long as `capacity` says.
pub record IsValid (b : Buffer) : Type 0 where
  pub writable : Sized b.capacity b.w_data
  pub readable : Sized b.capacity b.r_data
  pub w_within : b.w_len ≤ b.capacity
  pub small : b.capacity < 2 ^ 64

take-splice :
    (m : ℕ) (xs ys zs : Bytes)
    → m ≤ length xs
    → take (m + length ys) (take m xs ++ (ys ++ zs)) ≡ take m xs ++ ys
take-splice m xs ys zs h =
    let e : m + length ys ≡ length (take m xs ++ ys) =
      omega (arith, length-append (take m xs) ys, length-take m xs) in
    rw (e, ← append_assoc (take m xs) ys zs) (take-append (take m xs ++ ys) zs)

length-splice :
    (m : ℕ) (xs ys : Bytes)
    → m + length ys ≤ length xs
    → length (take m xs ++ (ys ++ drop (m + length ys) xs)) ≡ length xs
length-splice m xs ys h = omega (
  arith,
  length-append (take m xs) (ys ++ drop (m + length ys) xs),
  length-append ys (drop (m + length ys) xs),
  length-take m xs,
  length-drop (m + length ys) xs,
)

append_fits :
    (b : Buffer) (bytes : Bytes) (o : Option Bytes)
    → b.w_data ≡ o
    → IsValid b
    → b.w_len < b.capacity
    → b.w_len + length bytes ≤ b.capacity
    → (b' : Buffer) × (write bytes b ≡ some (0, b'))
      × IsValid b'
      × (stored b'.w_len b'.w_data ≡ stored b.w_len b.w_data ++ bytes)
      × (b'.r_data ≡ b.r_data)
      × (b'.r_len ≡ b.r_len)
unfolding write memcpy_at
append_fits b bytes none e v h fits = absurd (rw e at v.writable)
append_fits b bytes (some w) e v h fits =
    let size : length w ≡ b.capacity = rw e at v.writable in
    (
      record b {
        w_data = some (take b.w_len w ++ (bytes ++ drop (b.w_len + length bytes) w));
        w_len = b.w_len + length bytes;
      },
      ground arith,
      record {
        writable = omega (arith, length-splice b.w_len w bytes (omega arith));
        readable = v.readable;
        w_within = fits;
        small = v.small;
      },
      rw e (take-splice b.w_len w bytes _ (omega arith)),
      refl,
      refl,
    )

-- A write that fits behind what is stored appends its bytes, and leaves the other block alone.
pub write_appends :
    (b : Buffer) (bytes : Bytes)
    → IsValid b
    → b.w_len < b.capacity
    → b.w_len + length bytes ≤ b.capacity
    → (b' : Buffer) × (write bytes b ≡ some (0, b'))
      × IsValid b'
      × (stored b'.w_len b'.w_data ≡ stored b.w_len b.w_data ++ bytes)
      × (b'.r_data ≡ b.r_data)
      × (b'.r_len ≡ b.r_len)
write_appends b bytes v h fits = append_fits b bytes b.w_data refl v h fits

length-zeroed : (c : ℕ) (w : Bytes) → length w ≡ c → length (replicate c 0 ++ drop c w) ≡ c
length-zeroed c w h =
    omega
      (arith, length-append (replicate c 0) (drop c w), length-replicate c (zero), length-drop c w)

swap_full :
    (b : Buffer) (bytes : Bytes) (o : Option Bytes)
    → b.r_data ≡ o
    → IsValid b
    → b.capacity ≤ b.w_len
    → (b' : Buffer) × (write bytes b ≡ some (1, b'))
      × IsValid b'
      × (stored b'.r_len b'.r_data ≡ stored b.w_len b.w_data)
      × (stored b'.w_len b'.w_data ≡ [])
unfolding write memset_zero
swap_full b bytes none e v h = absurd (rw e at v.readable)
swap_full b bytes (some r) e v h =
    let size : length r ≡ b.capacity = rw e at v.readable in
    (
      record b {
        r_data = b.w_data;
        r_len = b.w_len;
        w_data = some (replicate b.capacity 0 ++ drop b.capacity r);
        w_len = 0;
      },
      ground arith,
      record {
        writable = length-zeroed b.capacity r size;
        readable = v.writable;
        w_within = omega arith;
        small = v.small;
      },
      refl,
      refl,
    )

-- A write to a full block stores nothing: it hands the full block to the reader and starts again
-- with the other one.
write_swaps :
    (b : Buffer) (bytes : Bytes)
    → IsValid b
    → b.capacity ≤ b.w_len
    → (b' : Buffer) × (write bytes b ≡ some (1, b'))
      × IsValid b'
      × (stored b'.r_len b'.r_data ≡ stored b.w_len b.w_data)
      × (stored b'.w_len b'.w_data ≡ [])
write_swaps b bytes v h = swap_full b bytes b.r_data refl v h

overflow :
    (b : Buffer) (bytes : Bytes) (o : Option Bytes)
    → b.w_data ≡ o
    → Sized b.capacity o
    → b.w_len < b.capacity
    → b.capacity < b.w_len + length bytes
    → write bytes b ≡ none
unfolding write memcpy_at
overflow b bytes none e size h long = absurd size
overflow b bytes (some w) e size h long = ground arith

-- A write that begins inside the block and does not fit leaves the block: the guard compares only
-- what is stored already, so the copy goes past the end.
write_overflows :
    (b : Buffer) (bytes : Bytes)
    → IsValid b
    → b.w_len < b.capacity
    → b.capacity < b.w_len + length bytes
    → write bytes b ≡ none
write_overflows b bytes v h long = overflow b bytes b.w_data refl v.writable h long
