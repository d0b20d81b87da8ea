-- ===== src/Plugin.antt =====
-- `PluginLoader` of src/pluginloader.h, for Linux and for Windows, and the plugin user of
-- testplugin/main.cpp. The dynamic linker is a parameter: its operations, and in `IsLinker` what its
-- documentation says of the number of references to a library.
pub mod Windows
pub mod Animal
pub mod Library
pub mod References
mod Examples
use cpp_shared.Prelude.{
  ℕ, ◌+◌, ◌<◌, ◌≡◌, [], ◌∷◌, Option, none, some, Bool, true, false, if◌then◌else◌, ◌==◌, Bytes, ℤ,
  pos, int_eq,
}

-- `open` and `close` are `dlopen` and `dlclose`, or `LoadLibraryA` and `FreeLibrary`; `symbol` is
-- `dlsym` or `GetProcAddress`, which take a null handle too. `F` is a function of the library.
pub record Linker (F : Type 0) : Type 1 where
  pub State : Type 0
  pub open_library : Bytes → State → Option ℕ × State
  pub close_library : Option ℕ → State → ℤ × State
  pub symbol : Option ℕ → Bytes → State → Option F

abbrev pub same : ℕ → ℕ → ℕ
same a b = if a == b then 1 else 0

-- `closed` tells from the result of `close_library` whether it succeeded.
pub record IsLinker {F : Type 0} (l : Linker F) (closed : ℤ → Bool) : Type 0 where
  pub refs : l.State → ℕ → ℕ
  pub refs-open :
      (name : Bytes) (s s' : l.State) (h g : ℕ)
      → l.open_library name s ≡ (some h, s')
      → refs s' g ≡ refs s g + same g h
  pub refs-open_failed :
      (name : Bytes) (s s' : l.State) (g : ℕ)
      → l.open_library name s ≡ (none, s')
      → refs s' g ≡ refs s g
  pub refs-close :
      (s s' : l.State) (h g : ℕ) (r : ℤ)
      → 0 < refs s h
      → l.close_library (some h) s ≡ (r, s')
      → closed r ≡ true
      → refs s' g + same g h ≡ refs s g
  pub refs-close_failed :
      (s s' : l.State) (o : Option ℕ) (g : ℕ) (r : ℤ)
      → l.close_library o s ≡ (r, s')
      → closed r ≡ false
      → refs s' g ≡ refs s g

-- `handle`, or `hModule`, with the state of the linker
pub record Loader {F : Type 0} (l : Linker F) : Type 0 where
  pub handle : Option ℕ
  pub state : l.State

-- A function pointer: the uninitialised one of `parse` for an empty name, or what the linker found.
pub data Pointer (F : Type 0) : Type 0 where
  indeterminate : Pointer F
  found : Option F → Pointer F

module _ {F : Type 0} (l : Linker F) where
  abbrev pub opened : Option ℕ × l.State → Bool × Loader l
  opened (none, s) = (false, record { handle = none; state = s })
  opened (some h, s) = (true, record { handle = some h; state = s })

  abbrev pub open_null : Bytes → Loader l → Option ℕ → Bool × Loader l
  open_null name p (some h) = (false, p)
  open_null name p none = opened (l.open_library name p.state)

  unfoldable pub open_plugin : Bytes → Loader l → Bool × Loader l
  open_plugin [] p = (false, p)
  open_plugin (c ∷ name) p = open_null (c ∷ name) p p.handle

  -- `dlclose` or `FreeLibrary` gave `r`; the message printed where `dlclose` fails is left out.
  abbrev pub closed_with : Loader l → ℤ × l.State → Loader l
  closed_with p (r, s) = record { handle = if int_eq r (pos 0) then none else p.handle; state = s }

  abbrev pub close_handle : Loader l → Option ℕ → Loader l
  close_handle p none = p
  close_handle p (some h) = closed_with p (l.close_library (some h) p.state)

  unfoldable pub close_plugin : Loader l → Loader l
  close_plugin p = close_handle p p.handle

  unfoldable pub parse : Bytes → Loader l → Pointer F
  parse [] p = indeterminate
  parse (c ∷ name) p = found (l.symbol p.handle (c ∷ name) p.state)
