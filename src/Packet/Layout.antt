-- ===== src/Packet/Layout.antt =====
-- The layout of `Packet`, tcpserver/src/packet.h, both ways.
use cpp_shared.Packet.{Packet, encode, decode, IsPacket, IsByte, IsBlock}
use cpp_shared.Prelude.{
  ℕ, zero, suc, ◌+◌, ◌*◌, ◌/◌, ◌%◌, ◌<◌, ◌≤◌, ◌≡◌, refl, sym, ap, ◌∙◌, [], ◌∷◌, ◌++◌, Bytes, arith,
  take, drop, length, length-append, length-drop, take_first, drop_first, take-length, drop-drop,
  All,
}

-- A short from its two bytes, and the two bytes of a short.
pub short_whole : (n : ℕ) → n < 65536 → n % 256 + 256 * (n / 256 % 256) ≡ n
short_whole n h = omega arith

short_low : (x y : ℕ) → x < 256 → (x + 256 * y) % 256 ≡ x
short_low x y hx = omega arith

short_high : (x y : ℕ) → x < 256 → y < 256 → (x + 256 * y) / 256 % 256 ≡ y
short_high x y hx hy = omega arith

take-drop : (n : ℕ) (a : Bytes) → take n a ++ drop n a ≡ a
take-drop zero a = refl
take-drop (suc n) [] = refl
take-drop (suc n) (x ∷ a) = ap (λ l. x ∷ l) (take-drop n a)

pub take_all : (n : ℕ) (a : Bytes) → length a ≡ n → take n a ≡ a
take_all n a e = rw (sym e) (take-length a)

pub six_bytes :
    (b : Bytes)
    → 6 ≤ length b
    → (x0 : ℕ) × (x1 : ℕ) × (x2 : ℕ) × (x3 : ℕ) × (x4 : ℕ) × (x5 : ℕ) × (rest : Bytes) × (b
        ≡ x0 ∷ x1 ∷ x2 ∷ x3 ∷ x4 ∷ x5 ∷ rest)
six_bytes [] h = absurd (omega arith)
six_bytes (x0 ∷ []) h = absurd (omega arith)
six_bytes (x0 ∷ x1 ∷ []) h = absurd (omega arith)
six_bytes (x0 ∷ x1 ∷ x2 ∷ []) h = absurd (omega arith)
six_bytes (x0 ∷ x1 ∷ x2 ∷ x3 ∷ []) h = absurd (omega arith)
six_bytes (x0 ∷ x1 ∷ x2 ∷ x3 ∷ x4 ∷ []) h = absurd (omega arith)
six_bytes (x0 ∷ x1 ∷ x2 ∷ x3 ∷ x4 ∷ x5 ∷ rest) h = (x0, x1, x2, x3, x4, x5, rest, refl)

decode_parts :
    (x0 x1 x2 x3 x4 x5 : ℕ) (rest : Bytes)
    → decode (x0 ∷ x1 ∷ x2 ∷ x3 ∷ x4 ∷ x5 ∷ rest) ≡ record {
      signature = x0 + 256 * x1;
      type_ = x2 + 256 * x3;
      datasize = x4 + 256 * x5;
      src = take 32 rest;
      dst = take 32 (drop 32 rest);
      data_ = take 954 (drop 64 rest);
    }
unfolding decode
decode_parts x0 x1 x2 x3 x4 x5 rest = refl

-- A packet that is written to memory and read from it again is the same packet.
pub decode-encode : (p : Packet) → IsPacket p → decode (encode p) ≡ p
unfolding decode encode
decode-encode p h =
    let tail : Bytes = p.dst ++ p.data_ in
    decode_parts _ _ _ _ _ _ (p.src ++ tail)
    ∙ rw
        (
          short_whole p.signature h.signature_fits,
          short_whole p.type_ h.type_fits,
          short_whole p.datasize h.datasize_fits,
          take_first 32 p.src tail (sym h.length-src),
          sym (drop-drop 32 32 (p.src ++ tail)),
          drop_first 32 p.src tail (sym h.length-src),
          take_first 32 p.dst p.data_ (sym h.length-dst),
          drop_first 32 p.dst p.data_ (sym h.length-dst),
          take_all 954 p.data_ h.length-data,
        )
        refl

pub length-encode : (p : Packet) → IsPacket p → length (encode p) ≡ 1024
unfolding encode
length-encode p h = omega (
  arith,
  h.length-src,
  h.length-dst,
  h.length-data,
  length-append p.src (p.dst ++ p.data_),
  length-append p.dst p.data_,
)

encode_parts :
    (x0 x1 x2 x3 x4 x5 : ℕ) (rest : Bytes)
    → IsBlock (x0 ∷ x1 ∷ x2 ∷ x3 ∷ x4 ∷ x5 ∷ rest)
    → encode (decode (x0 ∷ x1 ∷ x2 ∷ x3 ∷ x4 ∷ x5 ∷ rest)) ≡ x0 ∷ x1 ∷ x2 ∷ x3 ∷ x4 ∷ x5 ∷ rest
unfolding decode encode
encode_parts x0 x1 x2 x3 x4 x5 rest h =
    let bs : All IsByte (x1 ∷ x2 ∷ x3 ∷ x4 ∷ x5 ∷ rest) = h.bytes.1 in
    rw
      (
        short_low x0 x1 h.bytes.0,
        short_high x0 x1 h.bytes.0 bs.0,
        short_low x2 x3 bs.1.0,
        short_high x2 x3 bs.1.0 bs.1.1.0,
        short_low x4 x5 bs.1.1.1.0,
        short_high x4 x5 bs.1.1.1.0 bs.1.1.1.1.0,
        take_all 954 (drop 64 rest) (omega (arith, h.whole, length-drop 64 rest)),
        sym (drop-drop 32 32 rest),
        take-drop 32 (drop 32 rest),
        take-drop 32 rest,
      )
      refl

-- A block of 1024 bytes that is read as a packet and written again is the same block.
pub encode-decode : (b : Bytes) → IsBlock b → encode (decode b) ≡ b
unfolding decode encode
encode-decode b h =
    let (x0, x1, x2, x3, x4, x5, rest, same) = six_bytes b (omega (arith, h.whole)) in
    rw same (encode_parts x0 x1 x2 x3 x4 x5 rest (rw (sym same) h))
