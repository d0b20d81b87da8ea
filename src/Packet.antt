-- ===== src/Packet.antt =====
-- `Packet` of tcpserver/src/packet.h, and the 1024 bytes that it has in memory and on the wire: the
-- structure has no padding, since three shorts are followed by arrays of bytes. A short has its low
-- byte first, as on the machines that the program is built for.
pub mod Layout
pub mod Fields
mod Examples
use cpp_shared.Prelude.{
  ℕ, [], ◌∷◌, ◌++◌, ◌+◌, ◌*◌, ◌/◌, ◌%◌, ◌<◌, ◌≡◌, none, some, Bytes, get_elem?, take, drop, length,
  All,
}

pub record Packet : Type 0 where
  pub signature : ℕ
  pub type_ : ℕ
  pub datasize : ℕ
  pub src : Bytes
  pub dst : Bytes
  pub data_ : Bytes

-- An unsigned short in memory, the low byte first.
abbrev pub short_bytes : ℕ → Bytes
short_bytes n = n % 256 ∷ n / 256 % 256 ∷ []

abbrev pub byte_at : Bytes → ℕ → ℕ
byte_at b i = elim (get_elem? b i) [ none ↦ 0 | some n ↦ n ]

abbrev pub short_at : Bytes → ℕ → ℕ
short_at b i = byte_at b i + 256 * byte_at b (i + 1)

-- The memory of a packet, and the packet that `(Packet*)buf` reads.
unfoldable pub encode : Packet → Bytes
encode p =
    short_bytes p.signature
    ++ (short_bytes p.type_ ++ (short_bytes p.datasize ++ (p.src ++ (p.dst ++ p.data_))))

unfoldable pub decode : Bytes → Packet
decode b = record {
  signature = short_at b 0;
  type_ = short_at b 2;
  datasize = short_at b 4;
  src = take 32 (drop 6 b);
  dst = take 32 (drop 38 b);
  data_ = take 954 (drop 70 b);
}

-- What the types of the fields admit: the arrays have their lengths, the shorts 16 bits.
pub record IsPacket (p : Packet) : Type 0 where
  pub signature_fits : p.signature < 65536
  pub type_fits : p.type_ < 65536
  pub datasize_fits : p.datasize < 65536
  pub length-src : length p.src ≡ 32
  pub length-dst : length p.dst ≡ 32
  pub length-data : length p.data_ ≡ 954

abbrev pub IsByte : ℕ → Type 0
IsByte n = n < 256

pub record IsBlock (b : Bytes) : Type 0 where
  pub whole : length b ≡ 1024
  pub bytes : All IsByte b
