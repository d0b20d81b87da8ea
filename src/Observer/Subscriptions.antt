-- ===== src/Observer/Subscriptions.antt =====
-- How often an observer is notified, src/observer.hpp.
use cpp_shared.Prelude.{
  ℕ, suc, ◌+◌, ◌-◌, ◌≡◌, List, [], ◌∷◌, ◌++◌, some, arith, ◌==◌, if◌then◌else◌,
}
use cpp_shared.Observer.{Subject, attach, erase_first, detach, notify}

-- How often an observer is called by a `notify`.
unfoldable pub count : ℕ → List ℕ → ℕ
count o [] = 0
count o (x ∷ l) = if x == o then suc (count o l) else count o l

count-append :
    (o x : ℕ) (l : List ℕ) → count o (l ++ (x ∷ [])) ≡ (if x == o then count o l + 1 else count o l)
unfolding count
count-append o x [] = ground arith
count-append o x (y ∷ l) = ground (arith, count-append o x l)

count-erase_first :
    (o x : ℕ) (l : List ℕ)
    → count o (erase_first x l) ≡ (if x == o then count o l - 1 else count o l)
unfolding count erase_first
count-erase_first o x [] = ground arith
count-erase_first o x (y ∷ l) = ground (arith, count-erase_first o x l)

-- `attach` adds one call of the attached observer to each `notify`, `detach` takes one away if there
-- is one, and both leave the calls of every other observer as they were.
notify_counts :
    (s : Subject) (x o : ℕ)
    → (count o (notify (attach (some x) s))
        ≡ (if x == o then count o (notify s) + 1 else count o (notify s)))
      × (count o (notify (detach (some x) s))
          ≡ (if x == o then count o (notify s) - 1 else count o (notify s)))
unfolding notify attach detach
notify_counts s x o = (count-append o x s.observer_list, count-erase_first o x s.observer_list)

erase_first-append : (x : ℕ) (l : List ℕ) → count x l ≡ 0 → erase_first x (l ++ (x ∷ [])) ≡ l
unfolding count erase_first
erase_first-append x [] h = ground arith
erase_first-append x (y ∷ l) h = ground (arith, erase_first-append x l)

-- Detaching an observer right after it was first attached restores the subject.
detach-attach :
    (s : Subject) (x : ℕ) → count x (notify s) ≡ 0 → detach (some x) (attach (some x) s) ≡ s
unfolding notify attach detach
detach-attach s x h = ground (arith, erase_first-append x s.observer_list h)
