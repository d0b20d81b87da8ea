-- ===== src/TcpServer/Finishing.antt =====
-- The thread in `process` of tcpserver/src/tcpserver.cpp while the thread of `main` waits for its end.
use cpp_shared.TcpServer.{TcpServer}
use cpp_shared.TcpServer.Process.{takes, breaks, take_packet, give_back}
use cpp_shared.TcpServer.System.{
  Processor, waiting, handling, returning, left, System, started, processor_takes, processor_breaks,
  processor_handles, processor_gives_back, processor_leaves, Reach, later,
}
use cpp_shared.TcpServer.Safety.{returning_never_faults}
use cpp_shared.TcpServer.Program.{
  WhileJoining, no_step, takes_another, breaks_off, handles_it, gives_it_back, ends,
}
use cpp_shared.Prelude.{ℕ, ◌≡◌, refl, ◌∙◌, some, false, Bytes, ℤ, arith, Option-cases, inl, inr}

give_back_keeps :
    (packet : ℕ) (s t : TcpServer)
    → give_back packet s ≡ some t
    → (t.is_running ≡ s.is_running) × (t.receiver ≡ s.receiver) × (t.clients ≡ s.clients)
unfolding give_back
give_back_keeps packet s t e = ground arith

take_packet_keeps :
    (packet : ℕ) (s t : TcpServer)
    → take_packet s ≡ takes packet t
    → (t.receiver ≡ s.receiver) × (t.clients ≡ s.clients)
unfolding take_packet
take_packet_keeps packet s t e = ground arith

take_packet_breaking :
    (s t : TcpServer)
    → take_packet s ≡ breaks t
    → (t.receiver ≡ s.receiver) × (t.clients ≡ s.clients)
unfolding take_packet
take_packet_breaking s t e = ground arith

-- The receiver and the clients do not change meanwhile.
pub WhileJoining_keeps :
    {s t : System}
    → WhileJoining s t
    → (t.server.receiver ≡ s.server.receiver) × (t.server.clients ≡ s.server.clients)
WhileJoining_keeps no_step = (refl, refl)
WhileJoining_keeps (takes_another {t} packet u w at e) =
    let same = WhileJoining_keeps w in
    let here_ = take_packet_keeps packet t.server u e in (here_.0 ∙ same.0, here_.1 ∙ same.1)
WhileJoining_keeps (breaks_off {t} u w at e) =
    let same = WhileJoining_keeps w in
    let here_ = take_packet_breaking t.server u e in (here_.0 ∙ same.0, here_.1 ∙ same.1)
WhileJoining_keeps (handles_it packet b w at) = WhileJoining_keeps w
WhileJoining_keeps (gives_it_back {t} packet u w at e) =
    let same = WhileJoining_keeps w in
    let here_ = give_back_keeps packet t.server u e in (here_.1 ∙ same.0, here_.2 ∙ same.1)
WhileJoining_keeps (ends w at off) = WhileJoining_keeps w

-- The steps of the thread are steps of the server.
pub WhileJoining_reached : {r s t : System} → Reach r s → WhileJoining s t → Reach r t
WhileJoining_reached r no_step = r
WhileJoining_reached r (takes_another packet u w at e) =
    later (WhileJoining_reached r w) (processor_takes packet u at e)
WhileJoining_reached r (breaks_off u w at e) =
    later (WhileJoining_reached r w) (processor_breaks u at e)
WhileJoining_reached r (handles_it packet b w at) =
    later (WhileJoining_reached r w) (processor_handles packet b at)
WhileJoining_reached r (gives_it_back packet u w at e) =
    later (WhileJoining_reached r w) (processor_gives_back packet u at e)
WhileJoining_reached r (ends w at off) = later (WhileJoining_reached r w) (processor_leaves at off)

after_returning :
    (count_ fd : ℤ) {s t : System} (packet : ℕ)
    → Reach (started count_ fd) t
    → WhileJoining s t
    → t.server.is_running ≡ false
    → t.processor ≡ returning packet
    → (u : System) × WhileJoining s u × (u.processor ≡ left)
after_returning count_ fd {s} {t} packet r w off at =
    elim (Option-cases (give_back packet t.server)) [
      | inl stuck ↦ absurd (returning_never_faults count_ fd packet r at stuck)
      | inr (u, e) ↦
          let running = (give_back_keeps packet t.server u e).0 in
          (_, ends (gives_it_back packet u w at e) refl (running ∙ off), refl)
    ]

-- The thread can come to its end from wherever it is when `isRunning` is false, by a handler that
-- leaves `b`.
may_end_from :
    (count_ fd : ℤ) (b : Bytes) {s : System} (p : Processor)
    → Reach (started count_ fd) s
    → s.server.is_running ≡ false
    → s.processor ≡ p
    → (t : System) × WhileJoining s t × (t.processor ≡ left)
may_end_from count_ fd b {s} waiting r off at = (_, ends no_step at off, refl)
may_end_from count_ fd b {s} (handling packet) r off at =
    after_returning count_ fd packet (later r (processor_handles packet b at))
      (handles_it packet b no_step at) off refl
may_end_from count_ fd b {s} (returning packet) r off at =
    after_returning count_ fd packet r no_step off at
may_end_from count_ fd b {s} left r off at = (s, no_step, at)

pub may_end :
    (count_ fd : ℤ) (b : Bytes) {s : System}
    → Reach (started count_ fd) s
    → s.server.is_running ≡ false
    → (t : System) × WhileJoining s t × (t.processor ≡ left)
may_end count_ fd b {s} r off = may_end_from count_ fd b s.processor r off refl
