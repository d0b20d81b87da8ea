-- ===== src/Sending/Blocks.antt =====
-- What the loop for texts does with the last piece of a message, over a `send` that takes all it is
-- given: src/tcppipe.hpp and tcpserver/src/socket.hpp.
use cpp_shared.Prelude.{
  ℕ, zero, suc, ◌+◌, ◌*◌, ◌≤◌, ◌<◌, ◌≡◌, refl, sym, ap, ◌∙◌, [], ◌∷◌, ◌++◌, none, some, true, arith,
  lt→ltb, length, take, drop, Bytes, ℤ, length-append, take-length,
}
use cpp_shared.Sending.{done, faults, read, text_loop, send_message}
use cpp_shared.Sending.Conforming.{SendsAll, IsConforming}
use cpp_shared.Sending.Text.{length-chunk, send_message_sound}

pub read_all : (m : Bytes) (at n : ℕ) → at + n ≤ length m → read m at n ≡ some (take n (drop at m))
unfolding read
read_all m at n h = ground arith

pub read_past : (m : Bytes) (at n : ℕ) → length m < at + n → read m at n ≡ none
unfolding read
read_past m at n h = ground arith

message_result :
    (send : Bytes → Bytes → ℤ × Bytes) (fuel : ℕ) (content wire : Bytes) (at : ℕ) (w : Bytes)
    → 1024 ≤ length content
    → text_loop send fuel content 0 wire ≡ done at w
    → at ≡ length content
    → send_message send fuel content wire ≡ some (true, w)
unfolding send_message
message_result send fuel content wire at w h e same = ground arith

module _ (send : Bytes → Bytes → ℤ × Bytes) where
  -- One full round of either loop.
  text_round :
      (fuel : ℕ) (content wire : Bytes) (at : ℕ)
      → SendsAll send
      → at + 1024 ≤ length content
      → text_loop send (suc fuel) content at wire
        ≡ text_loop send fuel content
            (at + 1024)
            (wire ++ take 1024 (drop at (content ++ (0 ∷ []))))
  unfolding text_loop
  text_round fuel content wire at all h =
      let long : length (content ++ (0 ∷ [])) ≡ length content + 1 =
        length-append content (0 ∷ []) in
      rw (
        lt→ltb at (length content) (omega arith),
        read_all (content ++ (0 ∷ [])) at 1024 (omega arith),
        all (take 1024 (drop at (content ++ (0 ∷ [])))) wire,
        length-chunk (content ++ (0 ∷ [])) at (omega arith),
      )

  text_blocks :
      (k fuel : ℕ) (content wire : Bytes) (at : ℕ)
      → SendsAll send
      → length content ≡ at + k * 1024
      → k < fuel
      → (w : Bytes) × (text_loop send fuel content at wire ≡ done (length content) w)
  unfolding text_loop
  text_blocks k zero content wire at all e lt = absurd (omega arith)
  text_blocks zero (suc fuel) content wire at all e lt =
      let here : at ≡ length content = omega arith in (wire, ground arith)
  text_blocks (suc k) (suc fuel) content wire at all e lt =
      let (w, ends) =
        text_blocks k fuel content (wire ++ take 1024 (drop at (content ++ (0 ∷ [])))) (at + 1024)
          all (omega arith) (omega arith) in
      (w, text_round fuel content wire at all (omega arith) ∙ ends)

  text_part :
      (k r fuel : ℕ) (content wire : Bytes) (at : ℕ)
      → SendsAll send
      → length content ≡ at + k * 1024 + r
      → 0 < r
      → r < 1023
      → k < fuel
      → text_loop send fuel content at wire ≡ faults
  unfolding text_loop
  text_part k r zero content wire at all e pos_r small lt = absurd (omega arith)
  text_part zero r (suc fuel) content wire at all e pos_r small lt = rw (
    lt→ltb at (length content) (omega arith),
    read_past (content ++ (0 ∷ [])) at 1024 (omega (arith, length-append content (0 ∷ []))),
  )
  text_part (suc k) r (suc fuel) content wire at all e pos_r small lt =
      text_round fuel content wire at all (omega arith)
      ∙ text_part k r fuel content (wire ++ take 1024 (drop at (content ++ (0 ∷ [])))) (at + 1024)
          all (omega arith) pos_r small (omega arith)

  pub SendsAll-IsConforming : SendsAll send → IsConforming send
  SendsAll-IsConforming all chunk wire some_bytes =
      rw (all chunk wire) (some_bytes, omega arith, ap (λ l. wire ++ l) (sym (take-length chunk)))

  -- A text whose length is a positive multiple of 1024 is sent whole, and the result is true.
  send_message_blocks :
      (k fuel : ℕ) (content wire : Bytes)
      → SendsAll send
      → length content ≡ suc k * 1024
      → suc k < fuel
      → send_message send fuel content wire ≡ some (true, wire ++ content)
  send_message_blocks k fuel content wire all e lt =
      let (w, ends) = text_blocks (suc k) fuel content wire 0 all (omega arith) lt in
      let result : send_message send fuel content wire ≡ some (true, w) =
        message_result send fuel content wire (length content) w (omega arith) ends refl in
      rw
        (← send_message_sound send fuel content wire w (SendsAll-IsConforming all) (omega arith)
          result)
        result

  -- A longer text whose last piece has 1 to 1022 bytes is not sent correctly: the last `send` is
  -- told to read 1024 bytes, past the end of the text and its final zero.
  send_message_part_faults :
      (k r fuel : ℕ) (content wire : Bytes)
      → SendsAll send
      → length content ≡ suc k * 1024 + r
      → 0 < r
      → r < 1023
      → suc k < fuel
      → send_message send fuel content wire ≡ none
  unfolding send_message
  send_message_part_faults k r fuel content wire all e pos_r small lt =
      ground (arith, text_part (suc k) r fuel content wire 0 all (omega arith) pos_r small lt)
