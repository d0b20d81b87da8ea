-- ===== src/Fsm/Transit.antt =====
-- Which event `transit` of src/LazyFsm.h selects.
use cpp_shared.Prelude.{
  ◌≡◌, ◌≢◌, refl, [], ◌∷◌, Option, none, some, true, false, arith, if◌then◌else◌, ℤ, pos, int_eq,
  int_lt, int_eq_iff, int_key, Map, lookup, assign, insert, All, Option-cases, Bool-cases, inl, inr,
}
use cpp_shared.Fsm.{Event, Fsm, fsm_wait, register_event, find_state, transit}

abbrev pub Above : {A : Type 0} → ℤ → Map ℤ (Event A) → Type 0
Above k m = All (λ e. int_lt k (e.0) ≡ true) m

-- The identifiers rise along the map.
abbrev pub IsSorted : {A : Type 0} → Map ℤ (Event A) → Type 0
IsSorted [] = Unit {0}
IsSorted ((k, e) ∷ m) = Above k m × IsSorted m

int_lt_trans : (a b c : ℤ) → int_lt a b ≡ true → int_lt b c ≡ true → int_lt a c ≡ true
int_lt_trans a b c h k = ground arith

int_lt_total : (a b : ℤ) → int_eq a b ≡ false → int_lt a b ≡ false → int_lt b a ≡ true
int_lt_total a b h k = ground arith

Above-trans :
    {A : Type 0} (a b : ℤ) (m : Map ℤ (Event A)) → int_lt a b ≡ true → Above b m → Above a m
Above-trans a b [] h k = tt
Above-trans a b ((c, e) ∷ m) h k = (int_lt_trans a b c h k.0, Above-trans a b m h k.1)

Above-assign :
    {A : Type 0} (a k : ℤ) (v : Event A) (m : Map ℤ (Event A))
    → int_lt a k ≡ true
    → Above a m
    → Above a (assign k v m)
unfolding assign
Above-assign a k v [] h u = (h, tt)
Above-assign a k v ((c, e) ∷ m) h u = ground (arith, Above-assign a k v m h u.1)

assign-IsSorted :
    {A : Type 0} (k : ℤ) (v : Event A) (m : Map ℤ (Event A)) → IsSorted m → IsSorted (assign k v m)
unfolding assign
assign-IsSorted k v [] u = (tt, tt)
assign-IsSorted k v ((c, e) ∷ m) u = ground (
  arith,
  int_eq_iff k c,
  int_lt_total k c,
  assign-IsSorted k v m u.1,
  Above-assign c k v m,
  Above-trans k c m,
)

-- `registerEvent` keeps the events in the order of their identifiers, so that `transit` meets the
-- smallest first.
register_event-IsSorted :
    {A : Type 0} (id state next_state : ℤ) (action : Option A) (m : Fsm A)
    → IsSorted m.events
    → IsSorted (register_event id state next_state action m).events
unfolding register_event insert
register_event-IsSorted id state next_state action m u = elim (Option-cases (lookup id m.events)) [
  | inl e ↦ rw (e, insert) (assign-IsSorted id _ m.events u)
  | inr (old, e) ↦ rw (e, insert) u
]

-- No event of the state sought has a smaller identifier than `id`.
abbrev pub IsLeast : {A : Type 0} → ℤ → ℤ → Map ℤ (Event A) → Type 0
IsLeast next_state id m = All (λ e. (e.1).state ≡ next_state → int_lt (e.0) id ≡ false) m

Above-IsLeast : {A : Type 0} (s k : ℤ) (m : Map ℤ (Event A)) → Above k m → IsLeast s k m
Above-IsLeast s k [] u = tt
Above-IsLeast s k ((c, e) ∷ m) u = ((λ h. ground arith), Above-IsLeast s k m u.1)

find_state-Above :
    {A : Type 0} (s k id : ℤ) (m : Map ℤ (Event A))
    → Above k m
    → find_state s m ≡ some id
    → int_lt k id ≡ true
unfolding find_state
find_state-Above s k id [] u e = cc
find_state-Above s k id ((c, x) ∷ m) u e = ground (arith, find_state-Above s k id m u.1)

find_state-IsLeast :
    {A : Type 0} (s id : ℤ) (m : Map ℤ (Event A))
    → IsSorted m
    → find_state s m ≡ some id
    → (e : Event A) × (lookup id m ≡ some e) × (e.state ≡ s) × IsLeast s id m
unfolding find_state lookup
find_state-IsLeast s id [] u h = cc
find_state-IsLeast s id ((c, x) ∷ m) u h = elim (Bool-cases (int_eq x.state s)) [
  | inl hit ↦
      let here : c ≡ id = ground arith in
      (
        x,
        ground (arith, int_eq_iff id c),
        (int_eq_iff x.state s).0 hit,
        ((λ e. ground arith), Above-IsLeast s id m (rw here at u.0)),
      )
  | inr miss ↦
      let rest : find_state s m ≡ some id = ground arith in
      let (e, at, right, least) = find_state-IsLeast s id m u.1 rest in
      (
        e,
        ground (arith, int_eq_iff id c, find_state-Above s c id m u.0 rest),
        right,
        ((λ same. ground (arith, int_eq_iff x.state s)), least),
      )
]

find_state_present :
    {A : Type 0} (s k : ℤ) (event : Event A) (m : Map ℤ (Event A))
    → lookup k m ≡ some event
    → event.state ≡ s
    → (id : ℤ) × (find_state s m ≡ some id)
unfolding find_state lookup
find_state_present s k event [] there same = cc
find_state_present s k event ((c, x) ∷ m) there same = elim (Bool-cases (int_eq x.state s)) [
  | inl hit ↦ (c, ground arith)
  | inr miss ↦
      let behind : lookup k m ≡ some event = ground (arith, int_eq_iff x.state s) in
      let (id, e) = find_state_present s k event m behind same in (id, ground arith)
]

find_state_missing :
    {A : Type 0} (s : ℤ) (m : Map ℤ (Event A))
    → All (λ e. (e.1).state ≢ s) m
    → find_state s m ≡ none
unfolding find_state
find_state_missing s [] h = refl
find_state_missing s ((c, x) ∷ m) h =
    ground (arith, int_eq_iff x.state s, h.0, find_state_missing s m h.1)

-- `transit` to a state for which some event is registered returns, of the events of that state, the one
-- with the smallest identifier, enters the state, and sets the status to WAIT if that state is 0. The
-- events are in the order of their identifiers, as `std::map` keeps them.
pub transit_found :
    {A : Type 0} (s k : ℤ) (event : Event A) (m : Fsm A)
    → IsSorted m.events
    → lookup k m.events ≡ some event
    → event.state ≡ s
    → (id : ℤ) × ((transit s m).0 ≡ id)
      × ((transit s m).1.current_state ≡ s)
      × ((transit s m).1.status ≡ (if int_eq s (pos 0) then fsm_wait else m.status))
      × ((e : Event A) × (lookup id m.events ≡ some e) × (e.state ≡ s))
      × IsLeast s id m.events
unfolding transit
transit_found s k event m u there same =
    let (id, h) = find_state_present s k event m.events there same in
    let (e, at, right, least) = find_state-IsLeast s id m.events u h in
    (id, ground arith, ground arith, ground arith, (e, at, right), least)

-- `transit` to a state for which no event is registered returns 0 and changes nothing.
pub transit_missing :
    {A : Type 0} (s : ℤ) (m : Fsm A)
    → All (λ e. (e.1).state ≢ s) m.events
    → transit s m ≡ (pos 0, m)
unfolding transit
transit_missing s m h = ground (arith, find_state_missing s m.events h)
