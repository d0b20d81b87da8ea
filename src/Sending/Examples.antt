-- ===== src/Sending/Examples.antt =====
-- Runs of the `sendMessage` loops of src/tcppipe.hpp and tcpserver/src/socket.hpp.
use cpp_shared.Prelude.{
  suc, ◌≡◌, ◌≢◌, refl, [], ◌∷◌, ◌++◌, some, true, arith, length, replicate, Bytes, ℤ, pos,
}
use cpp_shared.Sending.{runs_on, text_loop, send_message}
use cpp_shared.Sending.Conforming.{SendsAll, IsConforming}
use cpp_shared.Sending.Text.{send_message_sound, text_loop_ends}
use cpp_shared.Sending.Blocks.{SendsAll-IsConforming}

abbrev send : Bytes → Bytes → ℤ × Bytes
send chunk wire = (pos (length chunk), wire ++ chunk)

send-SendsAll : SendsAll send
send-SendsAll chunk wire = refl

send-IsConforming : IsConforming send
send-IsConforming = SendsAll-IsConforming send send-SendsAll

abbrev greeting : Bytes
greeting = 104 ∷ 105 ∷ []

abbrev block : Bytes
block = replicate 1024 7

greeting_sent : send_message send 4 greeting [] ≡ some (true, greeting)
unfolding send_message
greeting_sent = refl

send_message_sound_example : greeting ≡ [] ++ greeting
send_message_sound_example =
    send_message_sound send 4 greeting [] greeting send-IsConforming (omega arith) greeting_sent

text_loop_ends_example : text_loop send (suc (length block)) block 0 [] ≢ runs_on
text_loop_ends_example = text_loop_ends send block [] send-IsConforming
