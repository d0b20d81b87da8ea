-- ===== src/Pipeline/Handlers.antt =====
-- The handlers of src/pipeline.hpp, one for each type of item.
use cpp_shared.Prelude.{◌≡◌, none, some, Key, Map, lookup, lookup-insert_new, insert_old}
use cpp_shared.Pipeline.{register_handler, handle}

module _ {T K H : Type 0} ⦃k : Key K⦄ (type : T → K) where
  -- The first handler registered for a type is called for each item of that type, also after more
  -- handlers were registered for the type.
  first_handler_stays :
      (v : T) (f g : H) (mapper : Map K H)
      → lookup (type v) mapper ≡ none
      → (handle type (register_handler (type v) f mapper) v ≡ some (f, v))
        × (register_handler (type v) g (register_handler (type v) f mapper)
            ≡ register_handler (type v) f mapper)
  unfolding handle register_handler
  first_handler_stays v f g mapper h =
      let known = lookup-insert_new (type v) f mapper h in
      (rw (known, handle), insert_old (type v) g _ known)
