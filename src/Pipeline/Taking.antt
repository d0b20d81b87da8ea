-- ===== src/Pipeline/Taking.antt =====
-- What a worker of src/pipeline.hpp that is woken at READY takes, and when it waits.
use cpp_shared.Prelude.{ℕ, suc, ◌<◌, ◌≡◌, ◌⊎◌, inl, inr, refl, List, [], ◌∷◌, true, arith, write}
use cpp_shared.Pipeline.{Pipeline, state_idel, state_ready, takes, faults, wake}
use cpp_shared.Pipeline.System.{Worker, absent, waiting, handling, left}
use cpp_shared.Pipeline.Threads.{in_hand}
use cpp_shared.Pipeline.Workers.{is_present}

pub worker_cases :
    {T : Type 0} (w : Worker T) → ((v : T) × (w ≡ handling v)) ⊎ ((f : T → ℕ) → in_hand f w ≡ 0)
worker_cases absent = inr (λ f. refl)
worker_cases waiting = inr (λ f. refl)
worker_cases (handling v) = inl (v, refl)
worker_cases left = inr (λ f. refl)

-- A worker that is there and has nothing in its hand waits.
pub idle_waits :
    {T : Type 0} (w : Worker T) → is_present w ≡ true → in_hand (λ v. 1) w ≡ 0 → w ≡ waiting
idle_waits absent there empty = ground arith
idle_waits waiting there empty = refl
idle_waits (handling v) there empty = ground arith
idle_waits left there empty = ground arith

pub hands_below :
    {T : Type 0} (w : ℕ → Worker T) (n j : ℕ) (f : T → ℕ)
    → j < suc n
    → (j < n → in_hand f (w j) ≡ 0)
    → in_hand f (write w n waiting j) ≡ 0
hands_below w n j f lt below = ground (arith, below)

pub wake_empty :
    {T : Type 0} (p : Pipeline T) → p.state ≡ state_ready → p.data_queue ≡ [] → wake p ≡ faults
unfolding wake
wake_empty p ready none_ = ground arith

pub take_last :
    {T : Type 0} (p : Pipeline T) (v : T)
    → p.state ≡ state_ready
    → p.data_queue ≡ v ∷ []
    → wake p ≡ takes v (record { data_queue = []; state = state_idel })
unfolding wake
take_last p v ready one = ground arith

pub take_one :
    {T : Type 0} (p : Pipeline T) (v w : T) (l : List T)
    → p.state ≡ state_ready
    → p.data_queue ≡ v ∷ w ∷ l
    → wake p ≡ takes v (record { data_queue = w ∷ l; state = state_ready })
unfolding wake
take_one p v w l ready more = ground arith
