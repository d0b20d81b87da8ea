-- ===== src/Pipe/Threads.antt =====
-- The threads of a server, a client and a pipe, src/tcppipe.hpp.
use cpp_shared.Net.{Calls, Held, is_negative}
use cpp_shared.Net.Connecting
use cpp_shared.Pipe.{
  Outcome, ended, goes_on, and_then, TcpServer, TcpClient, start, run, enter, new_client, connected,
  connect_host, destroy_client, join_with, new_pipe,
}
use cpp_shared.Prelude.{
  ℕ, ◌≡◌, ◌≢◌, ◌⊎◌, inl, inr, refl, Option, none, some, Bool, true, false, not, Bool-cases, Bytes,
  arith,
}

module _ (c : Calls) where
  -- A second `run` ends the program if it comes before the thread has entered its loop, since it
  -- assigns to a thread that is joinable; afterwards it does nothing.
  run_twice :
      (v v' : TcpServer c)
      → v.is_running ≡ false
      → run c v ≡ goes_on v'
      → (run c v' ≡ ended) × (run c (enter c v') ≡ goes_on (enter c v'))
  unfolding run enter
  run_twice v v' idle e = (ground (arith, idle, e), refl)

  connected_fd :
      (host : Bytes) (port : ℕ) (h : Held c) (b : Bool)
      → (Connecting.connect_host c host port h).0 ≡ some b
      → is_negative (Connecting.connect_host c host port h).1.fd ≡ not b
  unfolding Connecting.connect_host
  connected_fd host port h b e = ground (arith, e)

  connected-destroy :
      (v v' : TcpClient c) (o : Option Bool) (h : Held c)
      → v.has_thread ≡ false
      → ((b : Bool) → o ≡ some b → is_negative h.fd ≡ not b)
      → connected c v (o, h) ≡ goes_on v'
      → ((is_negative v'.socket.fd ≡ true) × (destroy_client c v' ≡ ended))
        ⊎ ((is_negative v'.socket.fd ≡ false) × (destroy_client c v' ≢ ended))
  unfolding destroy_client
  connected-destroy v v' none h fresh fd e = cc
  connected-destroy v v' (some false) h fresh fd e = ground (arith, fresh, fd false refl, e)
  connected-destroy v v' (some true) h fresh fd e = ground (arith, fresh, fd true refl, e)

  -- A client that could not connect ends the program when it is destroyed, since its destructor joins
  -- a thread that was never started; one that could connect does not.
  destroy-connect_host :
      (host : Bytes) (port : ℕ) (s : c.State) (v : TcpClient c)
      → connect_host c host port (new_client c s) ≡ goes_on v
      → ((is_negative v.socket.fd ≡ true) × (destroy_client c v ≡ ended))
        ⊎ ((is_negative v.socket.fd ≡ false) × (destroy_client c v ≢ ended))
  unfolding connect_host new_client
  destroy-connect_host host port s v e =
      connected-destroy (new_client c s) v
        (Connecting.connect_host c host port (new_client c s).socket).0
        (Connecting.connect_host c host port (new_client c s).socket).1 refl
        (λ b. connected_fd host port (new_client c s).socket b) e

  start-keeps :
      (host : Bytes) (port : ℕ) (v v' : TcpServer c)
      → start c host port v ≡ goes_on v'
      → (v'.is_running ≡ v.is_running) × (v'.has_thread ≡ v.has_thread)
  unfolding start
  start-keeps host port v v' e = ground (arith, e)

  run-idle : (v : TcpServer c) → v.is_running ≡ false → v.has_thread ≡ true → run c v ≡ ended
  unfolding run
  run-idle v idle has = ground (arith, idle, has)

  and_then-run :
      (host : Bytes) (port : ℕ) (o : Outcome (TcpServer c))
      → ((v : TcpServer c) → o ≡ goes_on v → run c v ≡ ended)
      → (f : TcpServer c → Outcome (TcpServer c × TcpClient c))
      → and_then o (λ v1. and_then (run c v1) f) ≡ ended
  and_then-run host port ended h f = refl
  and_then-run host port (goes_on v) h f = rw (h v refl) refl

  joined-server :
      (v v' : TcpServer c) (k : TcpClient c) (o : Outcome (TcpClient c))
      → join_with c v o ≡ goes_on (v', k)
      → v ≡ v'
  joined-server v v' k ended e = cc
  joined-server v v' k (goes_on k') e = cc

  -- The server of a new pipe has a thread that has not entered its loop.
  piped-thread :
      (o : Outcome (TcpServer c)) (v' : TcpServer c) (k : TcpClient c)
      → ((v : TcpServer c) → o ≡ goes_on v → v.is_running ≡ false)
      → (f : TcpServer c → Outcome (TcpClient c))
      → and_then o (λ v1. and_then (run c v1) (λ v2. join_with c v2 (f v2))) ≡ goes_on (v', k)
      → (v'.is_running ≡ false) × (v'.has_thread ≡ true)
  unfolding run
  piped-thread ended v' k idle f e = cc
  piped-thread (goes_on v) v' k idle f e = elim (Bool-cases v.has_thread) [
    | inl has ↦ ground (arith, idle v refl, has, e)
    | inr fresh ↦
        let v2 : TcpServer c = record v { has_thread = true } in
        let same : v2 ≡ v' = joined-server v2 v' k (f v2) (ground (arith, idle v refl, fresh, e)) in
        (ground (arith, same, idle v refl), ground (arith, same))
  ]

  -- Two pipes, whose server is one object: the second ends the program if it is made before the
  -- server's thread has entered its loop, and afterwards it leaves the server as it is.
  second_pipe :
      (host : Bytes) (port : ℕ) (v v' : TcpServer c) (k : TcpClient c)
      → v.is_running ≡ false
      → new_pipe c host port v ≡ goes_on (v', k)
      → (new_pipe c host port v' ≡ ended)
        × (new_pipe c host port (enter c v')
            ≡ join_with c (enter c v') (connect_host c host port (new_client c v'.socket.state)))
  unfolding new_pipe enter
  second_pipe host port v v' k idle e =
      let (idle', has) =
        piped-thread (start c host port v) v' k
          (λ v1 at. ground (arith, idle, start-keeps host port v v1 at))
          (λ v2. connect_host c host port (new_client c v2.socket.state)) e in
      (
        and_then-run host port (start c host port v')
            (λ v1 at.
              let (same_flag, same_thread) = start-keeps host port v' v1 at in
              run-idle v1 (ground (arith, same_flag, idle')) (ground (arith, same_thread, has)))
            _,
        refl,
      )
