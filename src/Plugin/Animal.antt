-- ===== src/Plugin/Animal.antt =====
-- `Animal` and `main` of testplugin/main.cpp, over the loader for Linux. The functions of the plugin
-- are known by values of `F`; `none` is a call through a null pointer.
use cpp_shared.Plugin.{
  Linker, Loader, Pointer, indeterminate, found, open_plugin, close_plugin, parse,
}
use cpp_shared.Prelude.{
  ℕ, ◌≡◌, ◌⊎◌, refl, List, [], ◌∷◌, ◌++◌, Option, none, some, Bool, true, false, arith, Bytes,
  codes, inl, inr,
}

pub data Called (F : Type 0) : Type 0 where
  calls : F → Called F
  calls_with : F → Bytes → Called F

pub record Animal {F : Type 0} (l : Linker F) : Type 0 where
  pub loader : Loader l
  pub create : Option F
  pub destroy : Option F
  pub speak : Option F
  pub set_text : Option F

-- A name that is not empty gives no indeterminate pointer.
abbrev pub pointer : {F : Type 0} → Pointer F → Option F
pointer indeterminate = none
pointer (found o) = o

abbrev pub call : {F : Type 0} → Option F → List (Called F) → Option (List (Called F))
call none trace = none
call (some f) trace = some (trace ++ (calls f ∷ []))

abbrev pub call_with : {F : Type 0} → Option F → Bytes → List (Called F) → Option (List (Called F))
call_with none text trace = none
call_with (some f) text trace = some (trace ++ (calls_with f text ∷ []))

abbrev pub file_name : Bytes
file_name = codes "./lib/libanimal.so"

module _ {F : Type 0} (l : Linker F) where
  abbrev pub no_functions : Loader l → Animal l
  no_functions p = record {
    loader = p;
    create = none;
    destroy = none;
    speak = none;
    set_text = none;
  }

  unfoldable pub parsed : Loader l → Animal l
  unfolding parse
  parsed p = record {
    loader = p;
    create = pointer (parse l (codes "animal_init") p);
    destroy = pointer (parse l (codes "animal_deinit") p);
    speak = pointer (parse l (codes "animal_speak") p);
    set_text = pointer (parse l (codes "animal_setText") p);
  }

  abbrev pub created : Animal l → Option F → Animal l × List (Called F)
  created a none = (a, [])
  created a (some f) = (a, calls f ∷ [])

  abbrev pub construct_with : Bool × Loader l → Animal l × List (Called F)
  construct_with (false, p) = (no_functions p, [])
  construct_with (true, p) = created (parsed p) (parsed p).create

  -- The constructor, and the calls that it makes.
  unfoldable pub construct : l.State → Animal l × List (Called F)
  unfolding open_plugin parsed
  construct s = construct_with (open_plugin l file_name (record { handle = none; state = s }))

  unfoldable pub destruct : Animal l → List (Called F) → Option (List (Called F) × Loader l)
  unfolding close_plugin
  destruct a trace = elim (call a.destroy trace) [
    | none ↦ none
    | some trace' ↦ some (trace', close_plugin l a.loader)
  ]

  abbrev pub text : Bytes
  text = codes "seeing is believing."

  -- `animal.setText(...)`, `animal.speak()`, and the destructor
  unfoldable pub play : Animal l × List (Called F) → Option (List (Called F) × Loader l)
  unfolding destruct
  play (a, trace) = elim (call_with a.set_text text trace) [
    | none ↦ none
    | some trace1 ↦ elim (call a.speak trace1) [ none ↦ none | some trace2 ↦ destruct a trace2 ]
  ]

  -- `main`: all calls, in their order, and the loader at the end
  unfoldable pub run_main : l.State → Option (List (Called F) × Loader l)
  unfolding construct play
  run_main s = play (construct s)

  -- The library's functions, as `dlsym` finds them with a handle.
  abbrev pub symbol : ℕ → l.State → Bytes → Option F
  symbol h s name = l.symbol (some h) name s

  abbrev pub called_first : Option F → List (Called F)
  called_first none = []
  called_first (some f) = calls f ∷ []

  created-first : (a : Animal l) (o : Option F) → a.create ≡ o → created a o ≡ (a, called_first o)
  created-first a none e = refl
  created-first a (some f) e = refl

  construct_opened :
      (s s' : l.State) (h : ℕ)
      → l.open_library file_name s ≡ (some h, s')
      → construct s ≡ (
        parsed (record { handle = some h; state = s' }),
        called_first (symbol h s' (codes "animal_init")),
      )
  unfolding construct parsed parse open_plugin
  construct_opened s s' h e = rw (construct, e) (created-first _ _ refl)

  construct_unopened :
      (s s' : l.State)
      → l.open_library file_name s ≡ (none, s')
      → construct s ≡ (no_functions (record { handle = none; state = s' }), [])
  unfolding construct open_plugin
  construct_unopened s s' e = rw (construct, e) refl

  play_all :
      (a : Animal l) (trace : List (Called F)) (f g d : F)
      → a.set_text ≡ some f
      → a.speak ≡ some g
      → a.destroy ≡ some d
      → play (a, trace)
        ≡ some (
          ((trace ++ (calls_with f text ∷ [])) ++ (calls g ∷ [])) ++ (calls d ∷ []),
          close_plugin l a.loader,
        )
  unfolding play destruct
  play_all a trace f g d ef eg ed = ground arith

  play_null :
      (a : Animal l) (trace : List (Called F))
      → (a.set_text ≡ none) ⊎ ((a.speak ≡ none) ⊎ (a.destroy ≡ none))
      → play (a, trace) ≡ none
  unfolding play destruct
  play_null a trace n = ground arith

  -- If the library opens and has the three functions that are called without a test, `main` runs to
  -- its end: it calls the initialisation if there is one, then sets the text, speaks, deinitialises,
  -- and closes the library.
  pub main_runs :
      (s s' : l.State) (h : ℕ) (f g d : F)
      → l.open_library file_name s ≡ (some h, s')
      → symbol h s' (codes "animal_setText") ≡ some f
      → symbol h s' (codes "animal_speak") ≡ some g
      → symbol h s' (codes "animal_deinit") ≡ some d
      → run_main s
        ≡ some (
          ((called_first (symbol h s' (codes "animal_init")) ++ (calls_with f text ∷ []))
                ++ (calls g ∷ []))
              ++ (calls d ∷ []),
          close_plugin l (record { handle = some h; state = s' }),
        )
  unfolding run_main parsed parse
  main_runs s s' h f g d e ef eg ed =
      rw (construct_opened s s' h e)
        (play_all (parsed (record { handle = some h; state = s' })) _ f g d ef eg ed)

  -- Otherwise it calls through a null pointer: if the library does not open, or if one of the three
  -- functions is missing, whose pointers are not tested.
  pub main_faults :
      (s s' : l.State) (o : Option ℕ)
      → l.open_library file_name s ≡ (o, s')
      → (o ≡ none)
        ⊎ ((l.symbol o (codes "animal_setText") s' ≡ none)
            ⊎ ((l.symbol o (codes "animal_speak") s' ≡ none)
                ⊎ (l.symbol o (codes "animal_deinit") s' ≡ none)))
      → run_main s ≡ none
  unfolding run_main parsed parse
  main_faults s s' none e missing =
      rw (construct_unopened s s' e)
        (play_null (no_functions (record { handle = none; state = s' })) [] (inl refl))
  main_faults s s' (some h) e (inl never) = cc
  main_faults s s' (some h) e (inr missing) =
      rw (construct_opened s s' h e)
        (play_null (parsed (record { handle = some h; state = s' })) _ missing)
