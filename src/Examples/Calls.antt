-- ===== src/Examples/Calls.antt =====
-- Applications to two modules whose code leaves another r9 behind.
use udynlink.Prelude.{
  ℕ, ◌≡◌, ◌≢◌, ap, refl, arith, some, none, Option, List, [], ◌∷◌, if◌then◌else◌,
}
use udynlink.Memory.{Memory}
use udynlink.Header.{ok, load_unknown_symbol}
use udynlink.Symbols.{Sym}
use udynlink.Modules.{Module, Resolver, free_module, lookup_symbol}
use udynlink.Calls.{
  Machine, Code, func_at, func_by_name, func_call, is_resolved, call_module_func, Context,
  context_new, context_destroy, context_rebind,
}
use udynlink.Calls.Contexts.{
  enter, rebind, leave, call, Steps, stop, next, IsBound, contexts-IsBound,
}
use udynlink.Calls.Handles.{call_module_func-func_call}
use udynlink.Examples.Images.{base, plain, from_words}

abbrev loaded : Module
loaded = record free_module { p_header = base; num_named_syms = 2; p_ram = 0x8000 }

abbrev other : Module
other = record free_module { p_header = base; num_named_syms = 2; p_ram = 0x9000 }

abbrev code : Code
code type addr args m = (addr, record m { r9 = 1 })

abbrev start : Machine
start = record { mem = plain; r9 = 7 }

abbrev inner : Context × Machine
inner = context_new other (context_new loaded start).1

abbrev called : Machine
called = (func_call code (func_at loaded 0x8100) [] inner.1).1

abbrev bound : Context × Machine
bound = context_rebind (context_new loaded start).0 other (context_destroy inner.0 called)

program : Steps code [] start (bound.0 ∷ []) bound.1
program = next (enter loaded) (
    next (enter other)
      (next (call (func_at loaded 0x8100) []) (next leave (next (rebind other) stop))))

contexts-IsBound_example : IsBound 7 (bound.0 ∷ []) bound.1.r9
contexts-IsBound_example = contexts-IsBound code (bound.0 ∷ []) start bound.1 program

abbrev resolve : Resolver
resolve m p_mod name = 0

-- The name of the second entry.
abbrev b_name : List ℕ
b_name = b'b' ∷ []

abbrev value_of : Option Sym → ℕ
value_of none = 0
value_of (some found) = found.val

b_placed : value_of (lookup_symbol resolve plain (some loaded) b_name) ≡ 4168
unfolding lookup_symbol udynlink.Modules.find_symbol udynlink.Modules.search_names
    udynlink.Symbols.get_sym_at udynlink.Symbols.get_sym_at_raw udynlink.Header.header_at
    udynlink.Memory.read32 from_words udynlink.Memory.read16 udynlink.Memory.strcmp
    udynlink.Symbols.compare_name udynlink.Header.get_header_size
    udynlink.Header.get_sym_table_pointer udynlink.Modules.offset_sym udynlink.Modules.weak_override
    udynlink.Modules.get_code_pointer udynlink.Modules.get_code_pointer_untagged
    udynlink.Header.get_code_offset udynlink.Header.get_symtab_end_offset
b_placed = refl

placed :
    (found : Sym) → lookup_symbol resolve plain (some loaded) b_name ≡ some found → found.val ≢ 0
placed found e = omega (arith, b_placed, ap value_of e)

call_module_func-func_call_example :
    call_module_func resolve code (some loaded) (some b_name) [] start
    ≡ some (
        let f = func_by_name resolve start.mem loaded (some b_name) in
        let (result, m') = func_call code f [] start in
        (if is_resolved f then ok else load_unknown_symbol, result, m'))
call_module_func-func_call_example =
    call_module_func-func_call resolve code loaded b_name [] start (λ addr at. refl) placed
