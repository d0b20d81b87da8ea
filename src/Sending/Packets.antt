-- ===== src/Sending/Packets.antt =====
-- What the loop for data does with the last piece of it, over a `send` that takes all it is given, and
-- over one that fails: tcpserver/src/socket.hpp.
use cpp_shared.Prelude.{
  ℕ, zero, suc, ◌+◌, ◌-◌, ◌*◌, ◌≤◌, ◌<◌, ◌≡◌, refl, sym, ap, ◌∙◌, [], ◌++◌, arith, lt→ltb, length,
  take, drop, Bytes, ℤ, negsuc, append-nil, drop-length, take-take,
}
use cpp_shared.Sending.{done, faults, runs_on, data_loop, send_data, buf_len}
use cpp_shared.Sending.Conforming.{SendsAll}
use cpp_shared.Sending.Text.{kept_step, length-chunk}
use cpp_shared.Sending.Blocks.{read_all, read_past}

module _ (send : Bytes → Bytes → ℤ × Bytes) where
  data_round :
      (fuel : ℕ) (content wire : Bytes) (at : ℕ)
      → SendsAll send
      → at + 1024 ≤ length content
      → data_loop send (suc fuel) content at wire
        ≡ data_loop send fuel content (at + 1024) (wire ++ take 1024 (drop at content))
  unfolding data_loop
  data_round fuel content wire at all h =
      let full : buf_len (length content - at) ≡ 1024 = ground arith in
      rw (
        lt→ltb at (length content) (omega arith),
        full,
        read_all content at 1024 h,
        all (take 1024 (drop at content)) wire,
        length-chunk content at h,
      )

  data_blocks :
      (k fuel : ℕ) (content wire : Bytes) (at : ℕ)
      → SendsAll send
      → length content ≡ at + k * 1024
      → k < fuel
      → data_loop send fuel content at wire ≡ done (length content) (wire ++ drop at content)
  unfolding data_loop
  data_blocks k zero content wire at all e lt = absurd (omega arith)
  data_blocks zero (suc fuel) content wire at all e lt =
      let here : at ≡ length content = omega arith in
      let nothing : drop at content ≡ [] = ap (λ n. drop n content) here ∙ drop-length content in
      rw (nothing, append-nil wire) (ground arith)
  data_blocks (suc k) (suc fuel) content wire at all e lt =
      let w : Bytes = wire ++ take 1024 (drop at content) in
      let rest : w ++ drop (at + 1024) content ≡ wire ++ drop at content =
        kept_step content wire w at 1024 (omega arith)
          (ap (λ l. wire ++ l) (sym (take-take 1024 (drop at content)))) in
      data_round fuel content wire at all (omega arith)
      ∙ data_blocks k fuel content w (at + 1024) all (omega arith) (omega arith)
      ∙ ap (done (length content)) rest

  data_part :
      (k r fuel : ℕ) (content wire : Bytes) (at : ℕ)
      → SendsAll send
      → length content ≡ at + k * 1024 + r
      → 0 < r
      → r < 512
      → k < fuel
      → data_loop send fuel content at wire ≡ faults
  unfolding data_loop
  data_part k r zero content wire at all e pos_r small lt = absurd (omega arith)
  data_part zero r (suc fuel) content wire at all e pos_r small lt =
      let missing : buf_len (length content - at) ≡ 1024 - r = ground arith in
      rw (
        lt→ltb at (length content) (omega arith),
        missing,
        read_past content at (1024 - r) (omega arith),
      )
  data_part (suc k) r (suc fuel) content wire at all e pos_r small lt =
      data_round fuel content wire at all (omega arith)
      ∙ data_part k r fuel content (wire ++ take 1024 (drop at content)) (at + 1024) all
          (omega arith) pos_r small (omega arith)

  -- Data whose length is a multiple of 1024, such as one packet, is sent whole.
  pub send_data_blocks :
      (k fuel : ℕ) (content wire : Bytes)
      → SendsAll send
      → length content ≡ k * 1024
      → k < fuel
      → send_data send fuel content wire ≡ done (length content) (wire ++ content)
  unfolding send_data
  send_data_blocks k fuel content wire all e lt =
      data_blocks k fuel content wire 0 all (omega arith) lt

  -- Data whose last piece has 1 to 511 bytes is not sent correctly: the length of that piece is
  -- taken as 1024 minus what is left, which reads past the end of the data.
  send_data_part_faults :
      (k r fuel : ℕ) (content wire : Bytes)
      → SendsAll send
      → length content ≡ k * 1024 + r
      → 0 < r
      → r < 512
      → k < fuel
      → send_data send fuel content wire ≡ faults
  unfolding send_data
  send_data_part_faults k r fuel content wire all e pos_r small lt =
      data_part k r fuel content wire 0 all (omega arith) pos_r small lt

-- Where `send` always fails, as after the peer has closed the connection, the data version never
-- returns, whatever the number of rounds.
send_data_never_ends :
    (send : Bytes → Bytes → ℤ × Bytes) (fuel : ℕ) (content wire : Bytes)
    → ((chunk w : Bytes) → send chunk w ≡ (negsuc 0, w))
    → 1024 ≤ length content
    → send_data send fuel content wire ≡ runs_on
unfolding send_data data_loop
send_data_never_ends send zero content wire fails h = refl
send_data_never_ends send (suc fuel) content wire fails h =
    let full : buf_len (length content - 0) ≡ 1024 = ground arith in
    rw
      (
        lt→ltb 0 (length content) (omega arith),
        full,
        read_all content 0 1024 h,
        fails (take 1024 content) wire,
      )
      (send_data_never_ends send fuel content wire fails h)
