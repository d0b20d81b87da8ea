-- ===== src/Pipeline/Phases.antt =====
-- Where the thread that calls `start` and `stop` of src/pipeline.hpp stands, and what it can rely on.
use cpp_shared.Prelude.{
  ℕ, zero, suc, ◌<◌, ◌≤◌, ◌≡◌, ◌≢◌, ◌⊎◌, inl, inr, refl, Bool, true, false, arith, write,
}
use cpp_shared.Pipeline.{
  Pipeline, State, state_none, state_idel, state_ready, state_terminate, max_thread_num, dispatch,
  Control, ready_to_call, start_set, spawning, stop_test, stop_set, joining, start, stop, stop_loop,
}
use cpp_shared.Pipeline.System.{Worker, absent, waiting, spawned}

abbrev pub is_live : State → Bool
is_live state_idel = true
is_live state_ready = true
is_live _ = false

-- What the thread that calls `start` and `stop` can rely on between its accesses.
abbrev pub Phase : {T : Type 0} → Control → State → (ℕ → Worker T) → Type 0
Phase ready_to_call st w = (is_live st ≡ true) ⊎ ((st ≡ state_none) × ((j : ℕ) → w j ≡ absent))
Phase start_set st w = (st ≡ state_none) × ((j : ℕ) → w j ≡ absent)
Phase (spawning i) st w =
    (is_live st ≡ true) × (i < max_thread_num) × ((j : ℕ) → i ≤ j → w j ≡ absent)
Phase stop_test st w = Unit
Phase stop_set st w = Unit
Phase joining st w = st ≡ state_none

-- A worker that is there changes what it does, and the state stays live.
pub Phase-write :
    {T : Type 0} (c : Control) (st st' : State) (w : ℕ → Worker T) (i : ℕ) (a : Worker T)
    → w i ≢ absent
    → (is_live st ≡ true → is_live st' ≡ true)
    → (st ≡ state_none → st' ≡ state_none)
    → Phase c st w
    → Phase c st' (write w i a)
Phase-write ready_to_call st st' w i a there live none_ (inl l) = inl (live l)
Phase-write ready_to_call st st' w i a there live none_ (inr (n, all)) = absurd (there (all i))
Phase-write start_set st st' w i a there live none_ (n, all) = absurd (there (all i))
Phase-write (spawning m) st st' w i a there live none_ (l, lt, above) =
    (live l, lt, λ j le. ground (arith, above j le))
Phase-write stop_test st st' w i a there live none_ p = tt
Phase-write stop_set st st' w i a there live none_ p = tt
Phase-write joining st st' w i a there live none_ p = none_ p

pub Phase-dispatch :
    {T : Type 0} (c : Control) (p : Pipeline T) (v : T) (w : ℕ → Worker T)
    → Phase c p.state w
    → Phase c (dispatch v p).state w
unfolding dispatch
Phase-dispatch ready_to_call p v w h = ground arith
Phase-dispatch start_set p v w h = ground arith
Phase-dispatch (spawning i) p v w h = ground arith
Phase-dispatch stop_test p v w h = tt
Phase-dispatch stop_set p v w h = tt
Phase-dispatch joining p v w h = ground arith

-- A worker leaves only while `stop` is in its loop.
pub Phase-leave :
    {T : Type 0} (c : Control) (st : State) (w w' : ℕ → Worker T)
    → st ≡ state_terminate
    → Phase c st w
    → Phase c state_none w'
Phase-leave ready_to_call st w w' e h = ground arith
Phase-leave start_set st w w' e h = ground arith
Phase-leave (spawning i) st w w' e h = ground arith
Phase-leave stop_test st w w' e h = tt
Phase-leave stop_set st w w' e h = tt
Phase-leave joining st w w' e h = refl

pub Phase-start :
    {T : Type 0} (st : State) (w : ℕ → Worker T) → Phase ready_to_call st w → Phase (start st) st w
unfolding start
Phase-start state_none w (inl l) = cc
Phase-start state_none w (inr h) = h
Phase-start state_idel w h = inl refl
Phase-start state_ready w h = inl refl
Phase-start state_terminate w h = h

pub Phase-stop :
    {T : Type 0} (st : State) (w : ℕ → Worker T) → Phase ready_to_call st w → Phase (stop st) st w
unfolding stop
Phase-stop state_none w h = h
Phase-stop state_idel w h = tt
Phase-stop state_ready w h = tt
Phase-stop state_terminate w h = tt

pub Phase-stop_loop : {T : Type 0} (st : State) (w : ℕ → Worker T) → Phase (stop_loop st) st w
unfolding stop_loop
Phase-stop_loop state_none w = refl
Phase-stop_loop state_idel w = tt
Phase-stop_loop state_ready w = tt
Phase-stop_loop state_terminate w = tt

pub Phase-spawned :
    {T : Type 0} (st : State) (w : ℕ → Worker T) (i : ℕ)
    → Phase (spawning i) st w
    → Phase (spawned i) st (write w i waiting)
Phase-spawned st w zero (l, lt, above) = (l, omega arith, λ j le. ground (arith, above j))
Phase-spawned st w (suc zero) (l, lt, above) = (l, omega arith, λ j le. ground (arith, above j))
Phase-spawned st w (suc (suc zero)) (l, lt, above) =
    (l, omega arith, λ j le. ground (arith, above j))
Phase-spawned st w (suc (suc (suc zero))) (l, lt, above) = inl l
Phase-spawned st w (suc (suc (suc (suc i)))) (l, lt, above) = absurd (omega arith)
