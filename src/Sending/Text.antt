-- ===== src/Sending/Text.antt =====
-- What the text version of `sendMessage` puts on the wire: src/tcppipe.hpp and
-- tcpserver/src/socket.hpp.
use cpp_shared.Prelude.{
  ℕ, zero, suc, ◌+◌, ◌≤◌, ◌<◌, ◌≡◌, ◌≢◌, ◌⊎◌, inl, inr, refl, sym, ap, ◌∙◌, [], ◌∷◌, ◌++◌, Option,
  Bool, none, some, true, false, arith, ltb, ltb→lt, ◌==◌, length, take, drop, Bytes, ℤ, pos,
  negsuc, length-take, length-drop, append_assoc, drop-drop, take-take-drop, append_cancel_last,
  drop-append, take-length, Bool-cases,
}
use cpp_shared.Sending.{
  Sent, done, faults, runs_on, max_payload_len, read, text_loop, send_message, send_text, sent_by,
  after_text, all_sent,
}
use cpp_shared.Sending.Conforming.{Outcome, IsConforming}

abbrev memory_of : Bytes → Bytes
memory_of content = content ++ (0 ∷ [])

read_cases :
    (m : Bytes) (at n : ℕ)
    → ((read m at n ≡ none) × (length m < at + n))
      ⊎ ((read m at n ≡ some (take n (drop at m))) × (at + n ≤ length m))
unfolding read
read_cases m at n = ground arith

-- Bytes of the memory that move to the wire in order leave the two together as they were.
pub kept_step :
    (m wire w : Bytes) (at k : ℕ)
    → k ≤ 1024
    → w ≡ wire ++ take k (take 1024 (drop at m))
    → w ++ drop (at + k) m ≡ wire ++ drop at m
kept_step m wire w at k h e = rw e (
    append_assoc wire (take k (take 1024 (drop at m))) (drop (at + k) m)
    ∙ ap (λ l. wire ++ l)
        (ap (λ l. take k (take 1024 (drop at m)) ++ l) (sym (drop-drop at k m))
          ∙ take-take-drop k 1024 (drop at m) h))

pub length-chunk :
    (m : Bytes) (at : ℕ) → at + 1024 ≤ length m → length (take 1024 (drop at m)) ≡ 1024
length-chunk m at h = omega (arith, length-take 1024 (drop at m), length-drop at m)

abbrev Kept : Bytes → Bytes → ℕ → Sent Bytes → Type 0
Kept m wire at (done p wire') = wire' ++ drop p m ≡ wire ++ drop at m
Kept m wire at faults = Unit
Kept m wire at runs_on = Unit

Kept-trans :
    (m wire w : Bytes) (at p : ℕ) (r : Sent Bytes)
    → w ++ drop p m ≡ wire ++ drop at m
    → Kept m w p r
    → Kept m wire at r
Kept-trans m wire w at p (done q v) e h = h ∙ e
Kept-trans m wire w at p faults e h = tt
Kept-trans m wire w at p runs_on e h = tt

module _ (send : Bytes → Bytes → ℤ × Bytes) where
  round-Kept :
      (fuel : ℕ) (content wire : Bytes) (at : ℕ) (r : ℤ × Bytes)
      → ltb at (length content) ≡ true
      → read (memory_of content) at 1024 ≡ some (take 1024 (drop at (memory_of content)))
      → at + 1024 ≤ length (memory_of content)
      → send (take 1024 (drop at (memory_of content))) wire ≡ r
      → Outcome r (take 1024 (drop at (memory_of content))) wire
      → ((n : ℕ) (w : Bytes)
          → Kept (memory_of content) w (at + n) (text_loop send fuel content (at + n) w))
      → Kept (memory_of content) wire at (text_loop send (suc fuel) content at wire)
  unfolding text_loop
  round-Kept fuel content wire at (negsuc k, w) lt e within s o ih = rw (lt, e, s, o) refl
  round-Kept fuel content wire at (pos k, w) lt e within s o ih =
      let small : k ≤ 1024 = omega (arith, o.1, length-chunk (memory_of content) at within) in
      rw (lt, e, s)
        (Kept-trans (memory_of content) wire w at (at + k) _
          (kept_step (memory_of content) wire w at k small o.2) (ih k w))

  loop-Kept :
      (fuel : ℕ) (content wire : Bytes) (at : ℕ)
      → IsConforming send
      → Kept (memory_of content) wire at (text_loop send fuel content at wire)
  unfolding text_loop
  loop-Kept zero content wire at c = tt
  loop-Kept (suc fuel) content wire at c = elim (Bool-cases (ltb at (length content))) [
    | inr stop ↦ rw stop refl
    | inl lt ↦ elim (read_cases (memory_of content) at 1024) [
      | inl (e, over) ↦ rw (lt, e) tt
      | inr (e, within) ↦
          round-Kept fuel content wire at _ lt e within refl
            (c _ wire (omega (arith, length-chunk (memory_of content) at within)))
            (λ n w. loop-Kept fuel content w (at + n) c)
    ]
  ]

  round_ends :
      (fuel : ℕ) (content wire : Bytes) (at : ℕ) (r : ℤ × Bytes)
      → Outcome r (take 1024 (drop at (memory_of content))) wire
      → ((n : ℕ) (w : Bytes) → 0 < n → text_loop send fuel content (at + n) w ≢ runs_on)
      → after_text (λ n w'. text_loop send fuel content n w') at r ≢ runs_on
  round_ends fuel content wire at (negsuc k, w) o ih e = cc
  round_ends fuel content wire at (pos k, w) o ih e = ih k w o.0 e

  loop_ends :
      (fuel : ℕ) (content wire : Bytes) (at : ℕ)
      → IsConforming send
      → length content < fuel + at
      → 0 < fuel
      → text_loop send fuel content at wire ≢ runs_on
  unfolding text_loop
  loop_ends zero content wire at c lt some_fuel e = absurd (omega arith)
  loop_ends (suc fuel) content wire at c lt some_fuel e =
      elim (Bool-cases (ltb at (length content))) [
        | inr stop ↦ cc (rw stop at e)
        | inl more ↦ elim (read_cases (memory_of content) at 1024) [
          | inl (none_, over) ↦ cc (rw (more, none_) at e)
          | inr (chunk, within) ↦
              round_ends fuel content wire at _
                (c _ wire (omega (arith, length-chunk (memory_of content) at within)))
                (λ n w pos_n.
                  loop_ends fuel content w (at + n) c (omega arith)
                    (omega (arith, ltb→lt at (length content) more)))
                (rw (more, chunk) at e)
        ]
      ]

drop_memory : (content : Bytes) → drop (length content) (memory_of content) ≡ 0 ∷ []
drop_memory content = drop-append content (0 ∷ [])

short_sound :
    (content wire wire' : Bytes) (r : ℤ × Bytes)
    → Outcome r content wire
    → (elim (r.0) [ pos n ↦ n == length content | negsuc n ↦ false ]) ≡ true
    → r.1 ≡ wire'
    → wire' ≡ wire ++ content
short_sound content wire wire' (negsuc n, w) o t e = cc
short_sound content wire wire' (pos n, w) o t e =
    let all : n ≡ length content = ground arith in
    sym e ∙ o.2 ∙ ap (λ l. wire ++ l) (ap (λ k. take k content) all ∙ take-length content)

all_sent_sound :
    (content wire wire' : Bytes) (r : Sent Bytes)
    → Kept (memory_of content) wire 0 r
    → all_sent (length content) r ≡ some (true, wire')
    → wire' ≡ wire ++ content
all_sent_sound content wire wire' (done p w) k e =
    let at_end : p ≡ length content = ground arith in
    let same : w ≡ wire' = ground arith in
    append_cancel_last wire' (wire ++ content) 0 0 (
      ap (λ l. l ++ (0 ∷ [])) (sym same)
      ∙ ap (λ l. w ++ l) (sym (ap (λ n. drop n (memory_of content)) at_end ∙ drop_memory content))
      ∙ k
      ∙ sym (append_assoc wire content (0 ∷ [])))
all_sent_sound content wire wire' faults k e = cc
all_sent_sound content wire wire' runs_on k e = cc

-- Over any `send` that keeps to its documented results, `sendMessage` returns true only if exactly
-- the message was put on the wire.
pub send_message_sound :
    (send : Bytes → Bytes → ℤ × Bytes) (fuel : ℕ) (content wire wire' : Bytes)
    → IsConforming send
    → 0 < length content
    → send_message send fuel content wire ≡ some (true, wire')
    → wire' ≡ wire ++ content
unfolding send_message
send_message_sound send fuel content wire wire' c some_bytes e =
    elim (Bool-cases (ltb (length content) max_payload_len)) [
      | inl short ↦
          short_sound content wire wire' (send content wire) (c content wire some_bytes)
            (ground arith) (ground arith)
      | inr long ↦
          all_sent_sound content wire wire' (text_loop send fuel content 0 wire)
            (loop-Kept send fuel content wire 0 c) (ground arith)
    ]

-- Over any `send` that keeps to its documented results, the loop of `sendMessage` for a text ends, by
-- its return or by a read past the end of the text, after at most one round for each byte and one
-- more: with one unit of fuel more than there are bytes it does not run out.
pub text_loop_ends :
    (send : Bytes → Bytes → ℤ × Bytes) (content wire : Bytes)
    → IsConforming send
    → text_loop send (suc (length content)) content 0 wire ≢ runs_on
text_loop_ends send content wire c =
    loop_ends send (suc (length content)) content wire 0 c (omega arith) (omega arith)

state_after : {W : Type 0} → Option (Bool × W) → Option W
state_after none = none
state_after (some (ok, w)) = some w

state_after-all_sent :
    {W : Type 0} (total : ℕ) (r : Sent W) → state_after (all_sent total r) ≡ sent_by r
unfolding state_after
state_after-all_sent total (done at w) = refl
state_after-all_sent total faults = refl
state_after-all_sent total runs_on = refl

-- The two versions of the text loop leave the same state of the network, and fault or run out of fuel
-- alike: that of tcpserver/src/socket.hpp only drops the result.
send_text_lem :
    {W : Type 0} (send : Bytes → W → ℤ × W) (fuel : ℕ) (content : Bytes) (w : W)
    → state_after (send_message send fuel content w) ≡ send_text send fuel content w
unfolding send_message send_text state_after
send_text_lem send fuel content w = elim (Bool-cases (ltb (length content) max_payload_len)) [
  | inl short ↦ rw (send_message, send_text, short) refl
  | inr long ↦
      rw (send_message, send_text, long)
        (state_after-all_sent (length content) (text_loop send fuel content 0 w))
]
