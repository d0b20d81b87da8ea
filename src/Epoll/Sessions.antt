-- ===== src/Epoll/Sessions.antt =====
-- The events that the server over `epoll` of src/tcppipe.hpp handles, one after another.
use cpp_shared.Epoll.{
  Epoll, run_setup, Accepted, accept, close_socket, receive_from, receive, Event, handle,
}
use cpp_shared.Prelude.{
  ℕ, ◌≡◌, ◌≢◌, inl, inr, [], ◌∷◌, Option, none, some, true, false, Bytes, ℤ, int_eq, Map, lookup,
  insert, int_key, bytes_key, lookup-assign, lookup-erase, arith, int_eq_iff, Option-cases,
  Bool-cases,
}

-- `epoll_wait` returns descriptors that are watched.
pub data Reach (s : Epoll) : Epoll → Type 0 where
  here : Reach s s
  later :
      {t u : Epoll} (e : Event)
      → Reach s t
      → t.interest e.fd ≡ true
      → handle e t ≡ some u
      → Reach s u

-- What is watched is the server's descriptor or has a socket.
IsWatching : Epoll → Type 0
IsWatching s = (g : ℤ) → s.interest g ≡ true → int_eq g s.fd ≡ false → lookup g s.fd2socket ≢ none

lookup-insert :
    (a b : ℤ) (v : ℕ) (m : Map ℤ ℕ)
    → lookup b (insert a v m) ≡ none
    → (lookup b m ≡ none) × (int_eq b a ≡ false)
unfolding insert
lookup-insert a b v m e = elim (Option-cases (lookup a m)) [
  | inl new ↦ ground (arith, lookup-assign a b v m)
  | inr (w, old) ↦ ground (arith, int_eq_iff b a)
]

accept-IsWatching : (a : Option Accepted) (s : Epoll) → IsWatching s → IsWatching (accept a s)
unfolding IsWatching
accept-IsWatching none s w = w
accept-IsWatching (some a) s w =
    λ g on away missing. ground (arith, w g, lookup-insert a.fd g s.next s.fd2socket missing)

close-IsWatching : (fd : ℤ) (n : ℕ) (s : Epoll) → IsWatching s → IsWatching (close_socket fd n s)
unfolding IsWatching
close-IsWatching fd n s w = λ g on away missing. ground (arith, w g, lookup-erase fd g s.fd2socket)

received-IsWatching :
    (fd : ℤ) (content : Bytes) (s t : Epoll) (o : Option ℕ)
    → receive_from fd content s o ≡ some t
    → IsWatching s
    → IsWatching t
received-IsWatching fd content s t none e w = ground arith
received-IsWatching fd [] s t (some n) e w =
    let same : close_socket fd n s ≡ t = ground arith in rw (← same) (close-IsWatching fd n s w)
received-IsWatching fd (c ∷ content) s t (some n) e w =
    let same : s ≡ t = ground arith in rw (← same) w

handle-IsWatching : (e : Event) (s t : Epoll) → handle e s ≡ some t → IsWatching s → IsWatching t
unfolding handle receive
handle-IsWatching e s t done w = elim (Bool-cases e.is_epollin) [
  | inr other ↦ let same : s ≡ t = ground arith in rw (← same) w
  | inl in_ ↦ elim (Bool-cases (int_eq e.fd s.fd)) [
    | inl server ↦
        let same : accept e.accepted s ≡ t = ground arith in
        rw (← same) (accept-IsWatching e.accepted s w)
    | inr client ↦ received-IsWatching e.fd e.content s t (lookup e.fd s.fd2socket) (ground arith) w
  ]
]

setup-IsWatching :
    (epfd added : ℤ) (s t : Epoll)
    → ((g : ℤ) → s.interest g ≡ false)
    → run_setup epfd added s ≡ (true, t)
    → IsWatching t
unfolding IsWatching run_setup
setup-IsWatching epfd added s t idle e = λ g on away missing. ground (arith, idle g)

Reach-IsWatching : {s t : Epoll} → IsWatching s → Reach s t → IsWatching t
Reach-IsWatching w here = w
Reach-IsWatching w (later {t} {u} e r on done) = handle-IsWatching e t u done (Reach-IsWatching w r)

-- From the start of the loop of `run` on, whatever connections and messages come, an event of a
-- watched descriptor is handled without a call through a null pointer: every watched descriptor but
-- that of the server has its socket in `fd2Socket`.
pub handle_never_faults :
    (epfd added : ℤ) (s : Epoll) {t u : Epoll} (e : Event)
    → ((g : ℤ) → s.interest g ≡ false)
    → run_setup epfd added s ≡ (true, t)
    → Reach t u
    → u.interest e.fd ≡ true
    → handle e u ≢ none
unfolding handle receive IsWatching
handle_never_faults epfd added s {t} {u} e idle begun r on failed =
    let w : IsWatching u = Reach-IsWatching (setup-IsWatching epfd added s t idle begun) r in
    elim (Option-cases (lookup e.fd u.fd2socket)) [
      | inl missing ↦ ground (arith, w e.fd on)
      | inr (n, found) ↦ ground arith
    ]
