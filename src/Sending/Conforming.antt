-- ===== src/Sending/Conforming.antt =====
-- What `send` promises: it fails, or takes some of the bytes that it is given, from the front, and
-- puts them on the wire.
use cpp_shared.Prelude.{◌≤◌, ◌<◌, ◌≡◌, ◌++◌, length, take, Bytes, ℤ, pos, negsuc}

-- A blocking socket that takes all it is given; the network is the bytes on the wire.
abbrev pub SendsAll : (Bytes → Bytes → ℤ × Bytes) → Type 0
SendsAll send = (chunk wire : Bytes) → send chunk wire ≡ (pos (length chunk), wire ++ chunk)

-- The documented result: an error that sends nothing, or a count of at least one byte.
abbrev pub Outcome : ℤ × Bytes → Bytes → Bytes → Type 0
Outcome (negsuc n, wire') chunk wire = wire' ≡ wire
Outcome (pos n, wire') chunk wire = (0 < n) × (n ≤ length chunk) × (wire' ≡ wire ++ take n chunk)

abbrev pub IsConforming : (Bytes → Bytes → ℤ × Bytes) → Type 0
IsConforming send = (chunk wire : Bytes) → 0 < length chunk → Outcome (send chunk wire) chunk wire
