-- ===== src/Plugin/Library.antt =====
-- The plugin testplugin/lib/animal.cpp, with `AnimalImpl` of testplugin/lib/animal_impl.h, and what
-- testplugin/main.cpp prints with it.
use cpp_shared.Plugin.{Linker, close_plugin}
use cpp_shared.Plugin.Animal.{
  Called, calls, calls_with, symbol, text, file_name, run_main, main_runs,
}
use cpp_shared.Prelude.{ℕ, ◌≡◌, refl, List, [], ◌∷◌, ◌++◌, Option, none, some, Bytes, codes}

pub data Function : Type 0 where
  animal_init animal_deinit animal_set_text animal_speak : Function

-- `impl`, with `none` for the null pointer and else the text of the object, and what was printed.
pub record Library : Type 0 where
  pub impl : Option Bytes
  pub printed : Bytes

abbrev pub fresh : Library
fresh = record { impl = none; printed = [] }

unfoldable pub init_with : Option Bytes → Library → Library
init_with none b = record b { impl = some [] }
init_with (some t) b = b

unfoldable pub deinit_with : Option Bytes → Library → Library
deinit_with none b = b
deinit_with (some t) b = record b { impl = none }

unfoldable pub set_text_with : Bytes → Option Bytes → Library → Library
set_text_with new none b = b
set_text_with new (some t) b = record b { impl = some new }

unfoldable pub speak_with : Option Bytes → Library → Library
speak_with none b = b
speak_with (some t) b = record b { printed = b.printed ++ (t ++ (10 ∷ [])) }

-- A call through a pointer of another type than the function's is undefined behaviour.
unfoldable pub perform : Called Function → Library → Option Library
unfolding init_with deinit_with set_text_with speak_with
perform (calls animal_init) b = some (init_with b.impl b)
perform (calls animal_deinit) b = some (deinit_with b.impl b)
perform (calls animal_speak) b = some (speak_with b.impl b)
perform (calls animal_set_text) b = none
perform (calls_with animal_set_text t) b = some (set_text_with t b.impl b)
perform (calls_with animal_init t) b = none
perform (calls_with animal_deinit t) b = none
perform (calls_with animal_speak t) b = none

unfoldable pub perform_all : List (Called Function) → Library → Option Library
unfolding perform
perform_all [] b = some b
perform_all (f ∷ trace) b = elim (perform f b) [ none ↦ none | some b' ↦ perform_all trace b' ]

-- The program with its plugin: if the library opens and the linker finds its four functions under
-- their names, then `main` runs to its end, the plugin prints the text and leaves no object behind, and
-- `close` is called. The messages of the loader are left out.
main_speaks :
    (l : Linker Function) (s s' : l.State) (h : ℕ)
    → l.open_library file_name s ≡ (some h, s')
    → symbol l h s' (codes "animal_init") ≡ some animal_init
    → symbol l h s' (codes "animal_setText") ≡ some animal_set_text
    → symbol l h s' (codes "animal_speak") ≡ some animal_speak
    → symbol l h s' (codes "animal_deinit") ≡ some animal_deinit
    → (trace : List (Called Function)) × (run_main l s
        ≡ some (trace, close_plugin l (record { handle = some h; state = s' })))
      × (perform_all trace fresh
          ≡ some (record { impl = none; printed = codes "seeing is believing." ++ (10 ∷ []) }))
unfolding perform_all
main_speaks l s s' h opens ei et es ed = (
  calls animal_init
      ∷ calls_with animal_set_text (text l)
      ∷ calls animal_speak
      ∷ calls animal_deinit
      ∷ [],
  rw (main_runs l s s' h animal_set_text animal_speak animal_deinit opens et es ed, ei) refl,
  refl,
)
