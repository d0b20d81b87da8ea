-- ===== src/Client/Examples.antt =====
-- Runs of the client of tcpserver/src/tcpclient.cpp.
use cpp_shared.Client.{Setup}
use cpp_shared.Client.Program.{hello, exits, waits, run_main}
use cpp_shared.Client.Greeting.{hello_packet, copies, main_sends, hello_overruns}
use cpp_shared.TcpServer.{Client, stamp}
use cpp_shared.TcpServer.Process.{route, get_client}
use cpp_shared.TcpServer.Show.{overruns, show}
use cpp_shared.Prelude.{
  true, false, ℕ, ◌≡◌, refl, [], ◌∷◌, ◌++◌, some, length, replicate, length-replicate, Bytes, ℤ,
  pos, Map, lookup, int_key, bytes_key, codes, arith,
}

abbrev send : ℤ → Bytes → Bytes → ℤ × Bytes
send fd chunk wire = (pos (length chunk), wire ++ chunk)

abbrev packet : Bytes
packet = replicate 1024 1

-- The type is 1 + 256 here.
abbrev router : Map ℤ ℕ
router = (pos 257, 9) ∷ []

abbrev memory : Bytes
memory = replicate 1024 7

abbrev accepted : Setup
accepted = record { socket_fd = pos 3; connected = pos 0 }

main_sends_example :
    (run_main send 2 true accepted memory 2 [] ≡ exits (pos 0) (copies 2 (hello_packet memory)))
    × (run_main send 2 false accepted memory 2 [] ≡ waits (copies 2 (hello_packet memory)))
main_sends_example =
    main_sends send 2 accepted memory 2 [] (λ chunk wire. refl) refl refl
      (length-replicate {A = ℕ} 1024 7) (omega arith)

abbrev peer : Client
peer = record { fd = pos 4; name = codes "h:1" }

made : hello memory ≡ some (hello_packet memory)
unfolding hello cpp_shared.Buffer.memcpy_at
made = refl

hello_overruns_example :
    (route router (stamp (codes "h:1") (hello_packet memory)) ≡ lookup (pos 1) router)
    × (show send
          (λ src text. src)
          4
          ((codes "h:1", peer) ∷ [])
          (stamp (codes "h:1") (hello_packet memory))
          []
        ≡ overruns)
unfolding get_client lookup
hello_overruns_example =
    hello_overruns send (λ src text. src) 4 ((codes "h:1", peer) ∷ []) router (codes "h:1") memory
      (hello_packet memory) peer [] (length-replicate {A = ℕ} 1024 7) made (omega arith)
      (omega arith, (omega arith, (omega arith, tt))) refl
