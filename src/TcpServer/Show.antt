-- ===== src/TcpServer/Show.antt =====
-- `TcpServer_Show` of tcpserver/src/serverhandler.cpp, and the source name that the server writes
-- into a packet, tcpserver/src/tcpserver.cpp. What `snprintf` prints is an argument.
use cpp_shared.Sending.{Sent, send_data}
use cpp_shared.TcpServer.{Client, stamp}
use cpp_shared.TcpServer.Process.{get_client}
use cpp_shared.Prelude.{
  ℕ, zero, suc, ◌+◌, ◌≤◌, ◌<◌, ◌≡◌, refl, sym, ap, ◌∙◌, [], ◌∷◌, ◌++◌, Option, none, some, Bytes, ℤ,
  arith, if◌then◌else◌, leb, length, Map, take, drop, replicate, bytes_key, length-append,
  length-take, length-drop, length-replicate, append_assoc, drop-drop, ◌-◌, All, take_first,
  drop_first,
}

-- A C string: the bytes before the first zero.
unfoldable pub c_string : Bytes → Bytes
c_string [] = []
c_string (zero ∷ b) = []
c_string (suc n ∷ b) = suc n ∷ c_string b

-- `memset(packet->data, 0, 1024)`, with the data at 70; `none` where the packet is shorter.
abbrev pub clear_data : Bytes → Option Bytes
clear_data b =
    if leb (70 + 1024) (length b)
    then some (take 70 b ++ (replicate 1024 0 ++ drop (70 + 1024) b))
    else none

-- `snprintf` of at most 255 characters and a zero
abbrev pub print_data : Bytes → Bytes → Bytes
print_data text b =
    take 70 b ++ take 255 text ++ (0 ∷ []) ++ drop (70 + suc (length (take 255 text))) b

-- `unknown` is the result -1, `overruns` a write past the end of the packet.
pub data Shown (W : Type 0) : Type 0 where
  unknown : Shown W
  overruns : Shown W
  answered : Bytes → Sent W → Shown W

abbrev pub answer :
    {W : Type 0} → (ℤ → Bytes → W → ℤ × W) → ℕ → Bytes → Client → W → Option Bytes → Shown W
answer send fuel text c w none = overruns
answer send fuel text c w (some b) =
    let printed = print_data text b in answered printed (send_data (send c.fd) fuel printed w)

unfoldable pub show :
    {W : Type 0}
    → (ℤ → Bytes → W → ℤ × W)
    → (Bytes → Bytes → Bytes)
    → ℕ
    → Map Bytes Client
    → Bytes
    → W
    → Shown W
show send format fuel clients b w = elim (get_client (c_string (drop 6 b)) clients) [
  | none ↦ unknown
  | some c ↦
      answer send fuel (format (c_string (drop 6 b)) (take 64 (drop 70 b))) c w (clear_data b)
]

-- The bytes of a C string.
abbrev pub IsNonzero : ℕ → Type 0
IsNonzero n = 0 < n

pub c_string-append : (name b : Bytes) → All IsNonzero name → c_string (name ++ (0 ∷ b)) ≡ name
unfolding c_string
c_string-append [] b h = refl
c_string-append (zero ∷ name) b h = absurd (omega (arith, h.0))
c_string-append (suc n ∷ name) b h = ap (λ l. suc n ∷ l) (c_string-append name b h.1)

drop_past : (n k : ℕ) (xs ys : Bytes) → n ≡ length xs → drop (n + k) (xs ++ ys) ≡ drop k ys
drop_past n k xs ys e = sym (drop-drop n k (xs ++ ys)) ∙ ap (λ l. drop k l) (drop_first n xs ys e)

drop-zeros : (n m k : ℕ) (d : Bytes) → m ≡ n + k → drop n (replicate m 0 ++ d) ≡ replicate k 0 ++ d
drop-zeros zero m k d e = let same : m ≡ k = omega arith in rw same refl
drop-zeros (suc n) zero k d e = absurd (omega arith)
drop-zeros (suc n) (suc m) k d e = drop-zeros n m k d (omega arith)

-- A packet in its parts: what is before the source name, the name, its zeros, and the rest.
abbrev pub padded : Bytes → Bytes → ℕ → Bytes
padded name b k = take 6 b ++ (name ++ (replicate k 0 ++ drop 38 b))

pub stamp_parts :
    (name b : Bytes) (k : ℕ) → 38 ≤ length b → length name + k ≡ 32 → stamp name b ≡ padded name b k
unfolding stamp
stamp_parts name b k h e =
    let six : 6 ≡ length (take 6 b) = omega (arith, length-take 6 b) in
    let rest : drop (6 + length name) (take 6 b ++ (replicate 32 0 ++ drop 38 b))
        ≡ replicate k 0 ++ drop 38 b =
      drop_past 6 (length name) (take 6 b) (replicate 32 0 ++ drop 38 b) six
      ∙ drop-zeros (length name) 32 k (drop 38 b) (omega arith) in
    ap (λ l. l ++ (name ++ drop (6 + length name) (take 6 b ++ (replicate 32 0 ++ drop 38 b))))
      (take_first 6 (take 6 b) (replicate 32 0 ++ drop 38 b) six)
    ∙ ap (λ l. take 6 b ++ (name ++ l)) rest

length-padded :
    (name b : Bytes) (k : ℕ)
    → 38 ≤ length b
    → length name + k ≡ 32
    → length (padded name b k) ≡ length b
length-padded name b k h e = omega (
  arith,
  length-append (take 6 b) (name ++ (replicate k 0 ++ drop 38 b)),
  length-append name (replicate k 0 ++ drop 38 b),
  length-append (replicate k 0) (drop 38 b),
  length-replicate {A = ℕ} k 0,
  length-take 6 b,
  length-drop 38 b,
)

drop-padded :
    (name b : Bytes) (k : ℕ)
    → 38 ≤ length b
    → length name + k ≡ 32
    → drop 38 (padded name b k) ≡ drop 38 b
drop-padded name b k h e =
    let field : 32 ≡ length (name ++ replicate k 0) =
      omega (arith, length-append name (replicate k 0), length-replicate {A = ℕ} k 0) in
    drop_past 6 32 (take 6 b) (name ++ (replicate k 0 ++ drop 38 b))
      (omega (arith, length-take 6 b))
    ∙ ap (λ l. drop 32 l) (sym (append_assoc name (replicate k 0) (drop 38 b)))
    ∙ drop_first 32 (name ++ replicate k 0) (drop 38 b) field

c_string-padded :
    (name b : Bytes) (k : ℕ)
    → 38 ≤ length b
    → All IsNonzero name
    → c_string (drop 6 (padded name b (suc k))) ≡ name
c_string-padded name b k h nonzero =
    ap c_string (
      drop_first 6 (take 6 b) (name ++ (replicate (suc k) 0 ++ drop 38 b))
        (omega (arith, length-take 6 b)))
    ∙ c_string-append name (replicate k 0 ++ drop 38 b) nonzero

-- The source name of a packet reads back as the name of its sender, if that has at most 31 bytes and
-- no zero; the header before it and all that is behind it, destination and data, stay.
stamp_lem :
    (name b : Bytes)
    → 38 ≤ length b
    → length name ≤ 31
    → All IsNonzero name
    → (c_string (drop 6 (stamp name b)) ≡ name)
      × (take 6 (stamp name b) ≡ take 6 b)
      × (drop 38 (stamp name b) ≡ drop 38 b)
      × (length (stamp name b) ≡ length b)
stamp_lem name b h short nonzero =
    let k : ℕ = 31 - length name in
    let total : length name + suc k ≡ 32 = omega arith in
    rw (stamp_parts name b (suc k) h total) (
      c_string-padded name b k h nonzero,
      take_first 6 (take 6 b) (name ++ (replicate (suc k) 0 ++ drop 38 b))
          (omega (arith, length-take 6 b)),
      drop-padded name b (suc k) h total,
      length-padded name b (suc k) h total,
    )

-- For a packet of 1024 bytes from a client that is still registered under its name, the handler
-- writes past the end of the packet: `memset` clears 1024 bytes of data, where there are 954.
pub show_overruns :
    {W : Type 0} (send : ℤ → Bytes → W → ℤ × W) (format : Bytes → Bytes → Bytes) (fuel : ℕ)
    (clients : Map Bytes Client) (name b : Bytes) (c : Client) (w : W)
    → length b ≡ 1024
    → length name ≤ 31
    → All IsNonzero name
    → get_client name clients ≡ some c
    → show send format fuel clients (stamp name b) w ≡ overruns
unfolding show
show_overruns send format fuel clients name b c w whole short nonzero there =
    let (src, head, tail, same) = stamp_lem name b (omega arith) short nonzero in
    rw (show, src, there) (ground (arith, same, whole))
