-- ===== src/Registry.antt =====
-- The registries by name: `Factory` of src/factory.hpp and `Interfaces` of src/interface.hpp. Both
-- reach an entry by `operator[]` of the map, which makes a null pointer for a name that is not
-- there; to call through it is undefined behaviour, `none`. A constructor of objects, or a method,
-- is known by a value of `F`.
use cpp_shared.Prelude.{
  ◌≡◌, refl, Option, none, some, Bytes, Map, lookup, assign, bytes_key, lookup-assign, arith,
  bytes_eq, eq_refl, false,
}

-- A null pointer is `none`.
abbrev pub Registry : Type 0 → Type 0
Registry F = Map Bytes (Option F)

-- `m[name]`: the pointer, and the map with the entry.
abbrev at_name : {F : Type 0} → Bytes → Registry F → Option (Option F) → Option F × Registry F
at_name name m none = (none, assign name none m)
at_name name m (some p) = (p, m)

unfoldable entry : {F : Type 0} → Bytes → Registry F → Option F × Registry F
entry name m = at_name name m (lookup name m)

-- `Factory::registerType`, with the pointer that it is given
unfoldable register_type : {F : Type 0} → Option F → Bytes → Registry F → Registry F
register_type type_instance name m = assign name type_instance m

abbrev call : {F : Type 0} → Option F × Registry F → Option (F × Registry F)
call (none, m) = none
call (some f, m) = some (f, m)

-- `Factory::get`: the constructor that is called, and the map afterwards
unfoldable get : {F : Type 0} → Bytes → Registry F → Option (F × Registry F)
unfolding entry
get name m = call (entry name m)

-- `FactoryRegister`, whose constructor registers the object itself
unfoldable factory_register : {F : Type 0} → F → Bytes → Registry F → Registry F
unfolding register_type
factory_register this name m = register_type (some this) name m

-- `Interfaces::operator[]`, which adds nothing
unfoldable method_at : {F : Type 0} → Bytes → Registry F → Option F
method_at name m = elim (lookup name m) [ none ↦ none | some p ↦ p ]

-- `registerMethod` of a function, which it wraps in a new method, and of a pointer
unfoldable register_function : {F : Type 0} → F → Bytes → Registry F → Registry F
register_function method name m = assign name (some method) m

unfoldable register_method : {F : Type 0} → Option F → Bytes → Registry F → Registry F
register_method method name m = assign name method m

-- `Interfaces::invoke`, both: the method that is called
unfoldable invoke : {F : Type 0} → Bytes → Registry F → Option (F × Registry F)
unfolding entry
invoke name m = call (entry name m)

-- What was registered last under a name is what `get` calls, and other names keep their methods.
get-register :
    {F : Type 0} (f : F) (name other : Bytes) (m : Registry F)
    → bytes_eq other name ≡ false
    → (get name (factory_register f name m) ≡ some (f, factory_register f name m))
      × (method_at other (factory_register f name m) ≡ method_at other m)
unfolding get entry factory_register register_type method_at
get-register f name other m e = (
  rw (get, entry, lookup-assign name name (some f) m, eq_refl name) refl,
  ground (arith, lookup-assign name other (some f) m),
)
