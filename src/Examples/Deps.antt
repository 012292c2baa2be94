-- ===== src/Examples/Deps.antt =====
-- Applications to a dependency manager with room for four modules.
use udynlink.Prelude.{
  ℕ, suc, ◌+◌, ◌≡◌, inl, inr, ◌≤◌, refl, arith, true, false, some, none, [], ◌∷◌, ◌++◌, length,
}
use mathlib.Core.Option
use mathlib.Core.List.{Perm}
use udynlink.Memory.{Memory}
use udynlink.Header.{LoadMode, copy_text_data, ok, load_unknown_symbol, header_at, is_sectioned}
use udynlink.Symbols.{SymName, pooled, get_module_name}
use udynlink.Modules.{Module, free_module, sym_deferred}
use udynlink.Relocs.{is_ok}
use udynlink.Host.{Host, World}
use udynlink.Host.Balance.{Balanced}
use udynlink.Loader.{Stage, load_module}
use udynlink.Thunk.{Pool}
use udynlink.Thunk.Bounds.{IsPool}
use udynlink.Deps.{DepEntry, DepMgr, Handles, has_name, dep_find, find_entry, unregister_module}
use udynlink.Deps.Names.{dep_prefix, name_text}
use udynlink.Deps.Registry.{unregister_module-find_entry}
use udynlink.Deps.Resolve.{resolve_dependency, resolve_func}
use udynlink.Deps.Resolve.Stubs.{Keeps, modules, resolve_func-IsPool}
use udynlink.Deps.Load.{begin_load, dep_load, dep_unload, DepResult}
use udynlink.Deps.Load.Depth.{
  Calls, no_more, registering, unregistering, loading, run_calls, nesting, dep_load_stack,
}
use udynlink.Deps.Load.Circular.{HasEnd, resolve_dependency_circular, dep_load_circular}
use udynlink.Deps.Load.Undo.{dep_unload-dep_load}
use udynlink.Deps.Load.Limits.{IsMgr, run_calls-IsMgr}
use udynlink.Examples.Images.{base, plain, from_words}

abbrev mgr : DepMgr
mgr = record {
  entries =
      record { p_mod = 16; gateway = 0 }
      ∷ record { p_mod = 32; gateway = 8 }
      ∷ record { p_mod = 48; gateway = 0 }
      ∷ [];
  capacity = 4;
  loading_stack = [];
}

second_found : find_entry mgr 32 ≡ some (record { p_mod = 32; gateway = 8 })
unfolding find_entry udynlink.Deps.find_entry_loop
second_found = refl

unregister_module-find_entry_example :
    Perm mgr.entries (record { p_mod = 32; gateway = 8 } ∷ (unregister_module mgr 32).entries)
unregister_module-find_entry_example =
    unregister_module-find_entry mgr 32 (record { p_mod = 32; gateway = 8 }) second_found

-- Handles of one image, whose name is "m".
abbrev handles : Handles
handles = λ a. record free_module { p_header = base }

abbrev pool : Pool
pool = record { base = 0x2000; size = 256; gateway_top = 256; used = 0 }

pool-IsPool : IsPool pool
pool-IsPool = record {
  ordered = omega arith;
  inside = omega arith;
  addressable = omega arith;
  aligned = inr refl;
}

abbrev served : ℕ × Memory × Pool × DepMgr
served = resolve_func (λ m p_mod name. 0) plain pool handles mgr (0x61 ∷ [])

resolve_func-IsPool_example :
    Keeps 0x1000 plain pool served.1 served.2 × (modules served.3.entries ≡ (16 ∷ 32 ∷ 48 ∷ []))
resolve_func-IsPool_example =
    resolve_func-IsPool 0x1000 (λ m p_mod name. 0) plain pool handles mgr (0x61 ∷ []) pool-IsPool
      (inl (omega arith))

-- A dependency that registers a module of its own while it is loaded.
abbrev nested : Calls
nested = loading none 64 true (registering 80 no_more) (unregistering 16 no_more)

abbrev host : Host
host = record { resolve = λ m p_mod name. 0; malloc = λ log r. 0x8000 }

abbrev start : World
start = record { mem = plain; log = [] }

room : length mgr.loading_stack + suc (nesting nested) ≤ 8
unfolding nesting
room = omega arith

dep_load_stack_example :
    Option.map
      (λ after. after.loading_stack)
      (dep_load host
        (run_calls plain nested)
        (some mgr)
        handles
        start
        96
        base
        0
        0
        copy_text_data).mgr
    ≡ some []
dep_load_stack_example =
    dep_load_stack host plain nested mgr handles start 96 base 0 0 copy_text_data room

-- The name "m" of the image.
abbrev m_name : SymName
m_name = pooled 0x103C

m_named : get_module_name plain base ≡ some m_name
unfolding get_module_name udynlink.Symbols.get_sym_at udynlink.Symbols.get_sym_at_raw header_at
    udynlink.Memory.read32 from_words udynlink.Header.get_sym_table_pointer udynlink.Memory.read16
m_named = refl

m_ends : HasEnd plain m_name
unfolding from_words
m_ends = (1, omega arith, refl)

abbrev begun : DepMgr
begun = record mgr { loading_stack = m_name ∷ [] }

begins : begin_load plain mgr (some m_name) ≡ some begun
unfolding begin_load udynlink.Deps.is_loading udynlink.Deps.loading_loop udynlink.Deps.push_loading
begins = refl

resolve_dependency_circular_example :
    resolve_dependency
      (λ name. 0)
      plain
      handles
      (run_calls plain nested begun)
      (some (dep_prefix ++ name_text plain m_name))
    ≡ sym_deferred
resolve_dependency_circular_example =
    resolve_dependency_circular plain mgr begun nested m_name m_ends room begins (λ name. 0) handles

dep_load_circular_example :
    dep_load host
      (λ mgr. mgr)
      (some (run_calls plain nested begun))
      handles
      start
      96
      base
      0
      0
      copy_text_data
    ≡ record {
      code = load_unknown_symbol;
      mgr = some (run_calls plain nested begun);
      handles = handles;
      world = start;
    }
dep_load_circular_example =
    dep_load_circular plain mgr begun nested m_name m_ends room begins host (λ mgr. mgr) handles []
      96 base 0 0 copy_text_data (λ e. omega (arith, e)) (λ e. omega (arith, e)) m_named

mgr-IsMgr : IsMgr mgr
mgr-IsMgr = record { entries_fit = omega arith; stack_fits = omega arith }

run_calls-IsMgr_example : IsMgr (run_calls plain nested mgr)
run_calls-IsMgr_example = run_calls-IsMgr plain nested mgr mgr-IsMgr

abbrev clear_handles : Handles
clear_handles = λ a. free_module

abbrev after_load : DepResult
after_load =
    dep_load host (λ begun. begun) (some mgr) clear_handles start 96 base 0 0 copy_text_data

abbrev after_unload : DepResult
after_unload = dep_unload after_load.mgr after_load.handles after_load.world 96

abbrev core : Stage
core = load_module host start (some free_module) base 0 0 copy_text_data

load_good : is_ok after_load.code ≡ true
unfolding udynlink.Header.validate_header header_at udynlink.Memory.read32 from_words
    udynlink.Memory.read16 udynlink.Sections.get_sectab udynlink.Header.get_code_offset
    udynlink.Sections.empty_view udynlink.Layout.get_ram_size_for_header
    udynlink.Layout.get_ram_size_untagged udynlink.Host.external_malloc
    udynlink.Relocs.load_apply_relocations udynlink.Loader.Copy.clear_bss udynlink.Memory.memset
    udynlink.Modules.get_data_pointer udynlink.Loader.Copy.copy_untagged udynlink.Memory.memcpy
    udynlink.Header.get_sym_table_pointer load_module udynlink.Loader.load_module_image
    udynlink.Loader.Copy.image_from_memory dep_load get_module_name udynlink.Symbols.get_sym_at
    udynlink.Symbols.get_sym_at_raw udynlink.Deps.is_loading udynlink.Deps.loading_loop
    udynlink.Deps.Load.load_begun
load_good = refl

start_untagged : is_sectioned (header_at plain base) ≡ false
unfolding header_at udynlink.Memory.read16 from_words
start_untagged = refl

not_registered : find_entry mgr 96 ≡ none
unfolding find_entry udynlink.Deps.find_entry_loop
not_registered = refl

core_header : core.p_mod.p_header ≡ base
unfolding udynlink.Header.validate_header header_at udynlink.Memory.read32 from_words
    udynlink.Memory.read16 udynlink.Sections.get_sectab udynlink.Header.get_code_offset
    udynlink.Sections.empty_view udynlink.Layout.get_ram_size_for_header
    udynlink.Layout.get_ram_size_untagged udynlink.Host.external_malloc
    udynlink.Relocs.load_apply_relocations udynlink.Loader.Copy.clear_bss udynlink.Memory.memset
    udynlink.Modules.get_data_pointer udynlink.Loader.Copy.copy_untagged udynlink.Memory.memcpy
    udynlink.Header.get_sym_table_pointer load_module udynlink.Loader.load_module_image
    udynlink.Loader.Copy.image_from_memory
core_header = refl

still_untagged : is_sectioned (header_at after_load.world.mem core.p_mod.p_header) ≡ false
unfolding udynlink.Header.validate_header header_at udynlink.Memory.read32 from_words
    udynlink.Memory.read16 udynlink.Sections.get_sectab udynlink.Header.get_code_offset
    udynlink.Sections.empty_view udynlink.Layout.get_ram_size_for_header
    udynlink.Layout.get_ram_size_untagged udynlink.Host.external_malloc
    udynlink.Relocs.load_apply_relocations udynlink.Loader.Copy.clear_bss udynlink.Memory.memset
    udynlink.Modules.get_data_pointer udynlink.Loader.Copy.copy_untagged udynlink.Memory.memcpy
    udynlink.Header.get_sym_table_pointer load_module udynlink.Loader.load_module_image
    udynlink.Loader.Copy.image_from_memory dep_load get_module_name udynlink.Symbols.get_sym_at
    udynlink.Symbols.get_sym_at_raw udynlink.Deps.is_loading udynlink.Deps.loading_loop
    udynlink.Deps.Load.load_begun udynlink.Deps.Exports.generate_thunks
    udynlink.Modules.lookup_symbol udynlink.Modules.find_symbol udynlink.Modules.search_names
    udynlink.Symbols.compare_name udynlink.Memory.strcmp udynlink.Symbols.compute_num_named_syms
    udynlink.Symbols.compute_num_named_syms_raw udynlink.Symbols.named_loop
    udynlink.Symbols.sorted_loop udynlink.Symbols.names_in_order udynlink.Memory.strncmp
still_untagged = refl

dep_unload-dep_load_example :
    (after_unload.code ≡ ok)
    × (after_unload.mgr ≡ some mgr)
    × (after_unload.handles 96 ≡ free_module)
    × Balanced [] after_unload.world.log
dep_unload-dep_load_example =
    dep_unload-dep_load host mgr clear_handles start 96 base 0 0 copy_text_data load_good refl
      start_untagged (omega arith) (omega arith) not_registered (λ e. omega (arith, core_header, e))
      still_untagged
