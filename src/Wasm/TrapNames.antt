-- ===== src/Wasm/TrapNames.antt =====
-- The codes of traps and their names, udynlink/wasm2c_runtime/wasm-rt.h and wasm-rt-udynlink.c, and
-- the default resolution of an import.
use mathlib.Core.Option
use Prim.Native.String.{String}
use udynlink.Prelude.{ℕ, List, [], ◌∷◌, get_elem?}
use udynlink.Memory.{Memory}
use udynlink.Symbols.{SymName}
use udynlink.Modules.{Module, Resolver}

-- `wasm_rt_trap_t`.
pub data TrapCode : Type 0 where
  trap_none : TrapCode
  oob : TrapCode
  int_overflow : TrapCode
  div_by_zero : TrapCode
  invalid_conversion : TrapCode
  unreachable : TrapCode
  call_indirect : TrapCode
  uncaught_exception : TrapCode
  unaligned : TrapCode
  exhaustion : TrapCode
  oom : TrapCode

-- The number of a code.
unfoldable pub trap_number : TrapCode → ℕ
trap_number trap_none = 0
trap_number oob = 1
trap_number int_overflow = 2
trap_number div_by_zero = 3
trap_number invalid_conversion = 4
trap_number unreachable = 5
trap_number call_indirect = 6
trap_number uncaught_exception = 7
trap_number unaligned = 8
trap_number exhaustion = 9
trap_number oom = 10

abbrev pub trap_names : List String
trap_names =
    "none" ∷ "out of bounds" ∷ "integer overflow" ∷ "divide by zero" ∷ "invalid conversion"
    ∷ "unreachable" ∷ "call indirect" ∷ "uncaught exception" ∷ "unaligned" ∷ "exhaustion"
    ∷ "out of memory" ∷ []

-- `wasm_rt_strerror`.
unfoldable pub strerror : ℕ → String
strerror code = Option.get_or (get_elem? trap_names code) "unknown trap"

-- `wasm_rt_resolve_import`: the name of the module is ignored.
unfoldable pub resolve_import : Resolver → Memory → Module → String → SymName → ℕ
resolve_import resolve m p_mod from name = resolve m p_mod name
