-- ===== src/TcpServer/Program.antt =====
-- The server program, tcpserver/src/serverd.cpp: `main` starts the server, and SIGINT or SIGTERM calls
-- `stop` in the thread that the signal interrupts.
use cpp_shared.TcpServer.{TcpServer}
use cpp_shared.TcpServer.Process.{
  Setup, start_throws, refused, runs, start, takes, breaks, take_packet, give_back, stop,
}
use cpp_shared.TcpServer.System.{after_handler, waiting, handling, returning, left, System}
use cpp_shared.Prelude.{
  ℕ, ◌≡◌, [], ◌∷◌, ◌++◌, Option, none, some, Bool, true, false, if◌then◌else◌, Bytes, ℤ, pos,
}

pub data Signal : Type 0 where
  sigint sigterm other_signal : Signal

-- The thread that a signal interrupts: that of `main`, which is in `run` once the server is started,
-- or that of `process`.
pub data Thread : Type 0 where
  main_thread process_thread : Thread

-- What the handler of a signal comes to: the thread goes on in a state of the server; the program
-- ends by the exception of `join`; or `join` does not return. `faulty` is undefined behaviour.
pub data Handled : Type 0 where
  continues : System → Handled
  terminates : Handled
  hangs : Handled
  faulty : Handled

abbrev pub stops_server : Signal → Bool
stops_server sigint = true
stops_server sigterm = true
stops_server other_signal = false

-- What the thread in `process` may do while the thread of `main` waits in `join`: its own steps, in
-- which it may take further packets. It may stay in any of these states for ever, since a handler or
-- its wait need not return.
pub data WhileJoining (s : System) : System → Type 0 where
  no_step : WhileJoining s s
  takes_another :
      {t : System} (packet : ℕ) (u : TcpServer)
      → WhileJoining s t
      → t.processor ≡ waiting
      → take_packet t.server ≡ takes packet u
      → WhileJoining s
          (record t { server = u; processor = handling packet; taken = t.taken ++ (packet ∷ []) })
  breaks_off :
      {t : System} (u : TcpServer)
      → WhileJoining s t
      → t.processor ≡ waiting
      → take_packet t.server ≡ breaks u
      → WhileJoining s (record t { server = u; processor = left })
  handles_it :
      {t : System} (packet : ℕ) (b : Bytes)
      → WhileJoining s t
      → t.processor ≡ handling packet
      → WhileJoining s (after_handler packet b t)
  gives_it_back :
      {t : System} (packet : ℕ) (u : TcpServer)
      → WhileJoining s t
      → t.processor ≡ returning packet
      → give_back packet t.server ≡ some u
      → WhileJoining s (record t { server = u; processor = waiting })
  ends :
      {t : System}
      → WhileJoining s t
      → t.processor ≡ waiting
      → t.server.is_running ≡ false
      → WhileJoining s (record t { processor = left })

-- The rest of `stop`, from where the thread in `process` has been joined.
abbrev pub closed : System → Option TcpServer → Handled
closed s none = faulty
closed s (some t) = continues (record s { server = t })

abbrev pub close : System → Handled
close s = closed s (stop s.server)

abbrev pub return_from_join : Option System → Handled
return_from_join none = hangs
return_from_join (some s) = close s

-- `processThread.join()`: without a thread, or in that thread, it throws. Where the interrupted thread
-- has the mutex locked, the other cannot return from its wait, and neither does `join`. Otherwise it
-- returns in the state that the thread has ended in, or, for `none`, never.
abbrev pub join_thread : Thread → Bool → Bool → Option System → Handled
join_thread on holds_mutex false s = terminates
join_thread process_thread holds_mutex true s = terminates
join_thread main_thread true true s = hangs
join_thread main_thread false true s = return_from_join s

abbrev pub halted : System → System
halted s = record s { server = record (s.server) { is_running = false } }

-- `signalHandle`: `joinable` says whether `start` has made the thread and it is not yet joined, and
-- `joined` is the state in which `join` returns, if it does.
unfoldable pub signal_handle : Signal → Thread → Bool → Bool → Option System → System → Handled
signal_handle signal on holds_mutex joinable joined s =
    if stops_server signal
    then if s.server.is_running then join_thread on holds_mutex joinable joined else close s
    else continues s

-- What `main` comes to. At its end the server is destroyed, which terminates the program where
-- `processThread` was not joined: `stop` does that where it sets `isRunning` to false.
pub data Exit : Type 0 where
  throws_out : Exit
  aborts : Exit
  exits : (result : ℤ) → (server : TcpServer) → Exit

-- `run` is what the call of `run` makes of the server, with the signals that come meanwhile.
unfoldable pub run_main : Setup → (TcpServer → TcpServer) → TcpServer → Exit
run_main u run s = elim (start u s) [
  | start_throws ↦ throws_out
  | refused t ↦ exits (pos 0) t
  | runs t ↦ if (run t).is_running then aborts else exits (pos 0) (run t)
]
