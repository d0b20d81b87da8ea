-- ===== src/TcpServer/Delivery.antt =====
-- From `encode` to the handlers: the server of tcpserver/src/tcpserver.cpp between clients that send
-- whole packets, tcpserver/src/packet.h, and the functions that it calls for them.
use cpp_shared.Packet.{Packet, encode, decode, IsPacket}
use cpp_shared.Packet.Fields.{named, stamp-encode}
use cpp_shared.TcpServer.{stamp}
use cpp_shared.TcpServer.Process.{route}
use cpp_shared.TcpServer.Show.{IsNonzero}
use cpp_shared.TcpServer.System.{System, started, Reach}
use cpp_shared.TcpServer.Carrying.{under_way}
use cpp_shared.TcpServer.Contents.{messages_intact}
use cpp_shared.Prelude.{
  suc, ◌≤◌, ◌≡◌, refl, sym, ap, ◌∙◌, List, [], ◌∷◌, ◌++◌, Option, Bytes, ℤ, pos, Map, lookup,
  int_key, map, map-append, length, All,
}

-- A packet and the name of the client that sends it.
pub record Message : Type 0 where
  pub sender : Bytes
  pub packet : Packet

pub record IsMessage (m : Message) : Type 0 where
  pub whole : IsPacket m.packet
  pub short : length m.sender ≤ 31
  pub nonzero : All IsNonzero m.sender

-- The bytes of a message once it is received: those of the packet, with the name in them.
abbrev pub as_received : Message → Bytes
as_received m = stamp m.sender (encode m.packet)

-- What a round of `process` makes of the bytes of a packet: the packet and its handler.
abbrev pub sees : {H : Type 0} → Map ℤ H → Bytes → Packet × Option H
sees router b = (decode b, route router b)

abbrev pub means : {H : Type 0} → Map ℤ H → Message → Packet × Option H
means router m = (named m.sender m.packet, lookup (pos m.packet.type_) router)

all_seen :
    {H : Type 0} (router : Map ℤ H) (ms : List Message)
    → All IsMessage ms
    → map (sees router) (map as_received ms) ≡ map (means router) ms
all_seen router [] h = refl
all_seen router (m ∷ ms) h =
    let (packet, handler, name) =
      stamp-encode router m.sender m.packet h.0.whole h.0.short h.0.nonzero in
    rw (packet, handler, all_seen router ms h.1) refl

length-map : {A B : Type 0} (f : A → B) (l : List A) → length (map f l) ≡ length l
length-map f [] = refl
length-map f (x ∷ l) = ap suc (length-map f l)

-- Where what `recv` has filled is whole packets of clients with names of at most 31 bytes and no zero,
-- `process` has seen, in their order, the packets that were sent, each with its source replaced by
-- the name of its sender, and for each the handler of the type that was sent; what it has not seen
-- yet are as many packets as are under way: just taken, in the queue, or about to be queued.
pub handlers_see :
    {H : Type 0} (router : Map ℤ H) (count_ fd : ℤ) {s : System} (ms : List Message)
    → Reach (started count_ fd) s
    → All IsMessage ms
    → s.received ≡ map as_received ms
    → (rest : List (Packet × Option H)) × (map (sees router) s.handled ++ rest
        ≡ map (means router) ms)
      × (length rest ≡ length (under_way s))
handlers_see router count_ fd {s} ms r h sent =
    let rest : List Bytes = map s.server.object_pool.contents (under_way s) in
    (
      map (sees router) rest,
      sym (map-append (sees router) s.handled rest)
          ∙ ap (λ l. map (sees router) l) (sym (messages_intact count_ fd r) ∙ sent)
          ∙ all_seen router ms h,
      length-map (sees router) rest ∙ length-map s.server.object_pool.contents (under_way s),
    )
