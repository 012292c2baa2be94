-- ===== src/Objects.antt =====
-- The C++ layer, udynlink/udynlink.hpp: the objects that own a loaded module, and the views of a
-- symbol table. A member function takes the object and gives back the object behind the call.
pub mod Accounts
pub mod Views
pub mod Steps
use udynlink.Prelude.{ℕ, Bool, true, false, not, Option, some, none, List, [], ◌∷◌, if◌then◌else◌}
use udynlink.Memory.{Memory}
use udynlink.Header.{ErrorCode, ok, LoadMode}
use udynlink.Modules.{Module, Resolver, free_module, lookup_symbol}
use udynlink.Relocs.{is_ok}
use udynlink.Host.{Host, World}
use udynlink.Loader.{Stage, load_module, unload_module}

-- `udynlink::Module`.
pub record Object : Type 0 where
  pub mod_ : Module
  pub loaded_ : Bool

-- `Module()`.
abbrev pub fresh_object : Object
fresh_object = record { mod_ = free_module; loaded_ = false }

-- "__init_array"
abbrev pub init_array_name : List ℕ
init_array_name =
    b'_' ∷ b'_' ∷ b'i' ∷ b'n' ∷ b'i' ∷ b't' ∷ b'_' ∷ b'a' ∷ b'r' ∷ b'r' ∷ b'a' ∷ b'y' ∷ []

-- `udynlink_cpp_init`, udynlink/udynlink.c. `call` is what the module's code at an address does to
-- memory; it does not allocate from the host.
unfoldable pub cpp_init : (Memory → ℕ → Memory) → Resolver → Memory → Module → Memory
cpp_init call resolve m p_mod = elim (lookup_symbol resolve m (some p_mod) init_array_name) [
  | none ↦ m
  | some sym ↦ call m sym.val
]

-- `unload`.
unfoldable pub object_unload : World → Object → ErrorCode × Object × World
object_unload w this =
    let (err, w') = unload_module w (some this.mod_) in
    if not this.loaded_ then (ok, this, w) else (err, fresh_object, w')

-- `load` behind the call of the loader.
unfoldable pub loaded_object : (Memory → ℕ → Memory) → Host → Stage → ErrorCode × Object × World
unfolding cpp_init
loaded_object call host s =
    let loaded = s.world in
    if is_ok s.code
    then (
      s.code,
      record { mod_ = s.p_mod; loaded_ = true },
      record loaded { mem = cpp_init call host.resolve loaded.mem s.p_mod },
    )
    else (s.code, record { mod_ = s.p_mod; loaded_ = false }, s.world)

-- And behind the unloading of what was loaded before.
unfoldable pub load_fresh :
    (Memory → ℕ → Memory) → Host → World → ℕ → ℕ → ℕ → LoadMode → ErrorCode × Object × World
unfolding loaded_object
load_fresh call host w base_addr load_addr load_size mode =
    loaded_object call host
      (load_module host w (some free_module) base_addr load_addr load_size mode)

-- `load`.
unfoldable pub object_load :
    (Memory → ℕ → Memory)
    → Host
    → World
    → Object
    → ℕ
    → ℕ
    → ℕ
    → LoadMode
    → ErrorCode × Object × World
unfolding object_unload load_fresh
object_load call host w this base_addr load_addr load_size mode =
    let (err, unloaded, w') = object_unload w this in
    if not this.loaded_
    then load_fresh call host w base_addr load_addr load_size mode
    else if is_ok err
    then load_fresh call host w' base_addr load_addr load_size mode
    else (err, unloaded, w')

-- `Module::cpp_init`.
unfoldable pub object_cpp_init : (Memory → ℕ → Memory) → Resolver → Memory → Object → Memory
unfolding cpp_init
object_cpp_init call resolve m this = if this.loaded_ then cpp_init call resolve m this.mod_ else m

-- `~Module`.
unfoldable pub object_destroy : World → Object → World
object_destroy w this = if this.loaded_ then (object_unload w this).2 else w

-- `Module(Module &&other)`: the new object and the other one.
unfoldable pub object_move : Object → Object × Object
object_move other = (record { mod_ = other.mod_; loaded_ = other.loaded_ }, fresh_object)

-- `operator=(Module &&other)` with another object: this one, the other one and the world.
unfoldable pub object_assign : World → Object → Object → Object × Object × World
object_assign w this other =
    let w' = if this.loaded_ then (object_unload w this).2 else w in
    (record { mod_ = other.mod_; loaded_ = other.loaded_ }, fresh_object, w')

-- `swap` with another object.
unfoldable pub object_swap : Object → Object → Object × Object
object_swap this other = (
  record { mod_ = other.mod_; loaded_ = other.loaded_ },
  record { mod_ = this.mod_; loaded_ = this.loaded_ },
)
