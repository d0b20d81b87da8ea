-- ===== src/Packet/Fields.antt =====
-- What is done to the bytes of a packet, said of its fields: the name that the server of
-- tcpserver/src/tcpserver.cpp puts into it, the type by which a handler is chosen, and the
-- assignments of tcpserver/src/clientd.cpp.
use cpp_shared.Packet.{Packet, encode, decode, IsPacket, IsBlock}
use cpp_shared.Packet.Layout.{decode-encode, length-encode, short_whole, take_all}
use cpp_shared.Client.Program.{greeting, hello}
use cpp_shared.Client.Greeting.{hello_parts}
use cpp_shared.TcpServer.{stamp}
use cpp_shared.TcpServer.Process.{packet_type, route}
use cpp_shared.TcpServer.Show.{stamp_parts, c_string, c_string-append, IsNonzero}
use cpp_shared.Prelude.{
  ℕ, zero, suc, ◌+◌, ◌-◌, ◌≤◌, ◌≡◌, refl, sym, ap, ◌∙◌, [], ◌∷◌, ◌++◌, Bytes, arith, take, drop,
  replicate, length, length-append, length-replicate, All, append_assoc, drop_first, drop-drop,
  length-drop, pos, ℤ, Map, lookup, some, int_key,
}

-- A packet with the name of its sender, and zeros behind it.
abbrev pub named : Bytes → Packet → Packet
named name p = record p { src = name ++ replicate (32 - length name) 0 }

length-zero_padded :
    (name : Bytes) → length name ≤ 32 → length (name ++ replicate (32 - length name) 0) ≡ 32
length-zero_padded name h = omega (
  arith,
  h,
  length-append name (replicate (32 - length name) 0),
  length-replicate {A = ℕ} (32 - length name) 0,
)

named-IsPacket :
    (name : Bytes) (p : Packet) → length name ≤ 32 → IsPacket p → IsPacket (named name p)
named-IsPacket name p short h = record {
  signature_fits = h.signature_fits;
  type_fits = h.type_fits;
  datasize_fits = h.datasize_fits;
  length-src = length-zero_padded name short;
  length-dst = h.length-dst;
  length-data = h.length-data;
}

stamp_encoded :
    (name : Bytes) (p : Packet)
    → length name ≤ 32
    → IsPacket p
    → stamp name (encode p) ≡ encode (named name p)
unfolding encode
stamp_encoded name p short h =
    let k : ℕ = 32 - length name in
    stamp_parts name (encode p) k (omega (arith, length-encode p h)) (omega arith)
    ∙ rw
        (
          drop_first 32 p.src (p.dst ++ p.data_) (sym h.length-src),
          append_assoc name (replicate k 0) (p.dst ++ p.data_),
        )
        refl

pub packet_type-encode : (p : Packet) → IsPacket p → packet_type (encode p) ≡ pos p.type_
unfolding encode
packet_type-encode p h = rw (short_whole p.type_ h.type_fits) refl

route-encode :
    {H : Type 0} (router : Map ℤ H) (p : Packet)
    → IsPacket p
    → route router (encode p) ≡ lookup (pos p.type_) router
unfolding route encode
route-encode router p h = rw (route, short_whole p.type_ h.type_fits) refl

-- When the server has put the name of the sender into a packet, the packet that a handler reads is
-- the one that was sent with its source replaced, the handler is the one for the type that was sent,
-- and the source is the name as a C string. The name has at most 31 bytes and no zero.
pub stamp-encode :
    {H : Type 0} (router : Map ℤ H) (name : Bytes) (p : Packet)
    → IsPacket p
    → length name ≤ 31
    → All IsNonzero name
    → (decode (stamp name (encode p)) ≡ named name p)
      × (route router (stamp name (encode p)) ≡ lookup (pos p.type_) router)
      × (c_string (decode (stamp name (encode p))).src ≡ name)
stamp-encode router name p h short nonzero =
    let packet : IsPacket (named name p) = named-IsPacket name p (omega arith) h in
    let k : ℕ = 31 - length name in
    let padding : 32 - length name ≡ suc k = omega arith in
    rw (stamp_encoded name p (omega arith) h, decode-encode (named name p) packet)
      (
        refl,
        route-encode router (named name p) packet,
        rw padding (c_string-append name (replicate k 0) nonzero),
      )

-- The packet that `main` of the client sends, with what it does not set left as it was.
abbrev pub greeted : Packet → Packet
greeted p = record p {
  signature = 44814;
  type_ = 1;
  datasize = 12;
  data_ = greeting ++ drop 12 p.data_;
}

take_split : (k m n : ℕ) (l : Bytes) → k ≡ m + n → take k l ≡ take m l ++ take n (drop m l)
take_split k zero n l e = let same : k ≡ n = omega arith in ap (λ t. take t l) same
take_split zero (suc m) n l e = absurd (omega arith)
take_split (suc k) (suc m) zero [] e = refl
take_split (suc k) (suc m) (suc n) [] e = refl
take_split (suc k) (suc m) n (x ∷ l) e = ap (λ t. x ∷ t) (take_split k m n l (omega arith))

-- Of any 1024 bytes of memory the client program makes the packet that it is to send: the signature
-- 0xAF0E, the type of `TcpServer_Show`, the size of the text and the text, and every other field as
-- the memory has it.
pub hello-decode : (b : Bytes) → IsBlock b → hello b ≡ some (encode (greeted (decode b)))
unfolding decode encode
hello-decode b h =
    hello_parts b h.whole
    ∙ ap some (
        let text : Bytes = greeting ++ drop 82 b in
        rw
          (
            take_split 64 32 32 (drop 6 b) (omega arith),
            drop-drop 6 32 b,
            take_all 954 (drop 70 b) (omega (arith, h.whole, length-drop 70 b)),
            drop-drop 70 12 b,
          )
          (ap (λ l. 14 ∷ 175 ∷ 1 ∷ 0 ∷ 12 ∷ 0 ∷ l)
            (append_assoc (take 32 (drop 6 b)) (take 32 (drop 38 b)) text)))
