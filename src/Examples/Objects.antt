-- ===== src/Examples/Objects.antt =====
-- An application to a program that creates an object, loads an image with it and destroys it.
use udynlink.Prelude.{none, true, ◌==◌, if◌then◌else◌, ℕ, ◌≡◌, refl, arith, false, []}
use udynlink.Memory.{Memory}
use udynlink.Header.{header_at, is_sectioned, copy_text_data}
use udynlink.Host.{Host, World}
use udynlink.Host.Balance.{Balanced}
use udynlink.CppAbi.{
  new_array_aligned, delete_array_aligned, of_array_aligned, by_array_aligned, cpp_new, cpp_delete,
  cpp_delete-cpp_new,
}
use udynlink.Objects.{Object, fresh_object, object_unload, object_load, object_destroy}
use udynlink.Objects.Accounts.{IsReady}
use udynlink.Objects.Steps.{create, load, destroy, Steps, stop, next, Steps-Balanced}
use udynlink.Examples.Images.{base, plain, from_words}

abbrev host : Host
host = record { resolve = λ m p_mod name. 0; malloc = λ log r. 0x8000 }

abbrev start : World
start = record { mem = plain; log = [] }

-- Constructors of the module that write nothing.
abbrev call : Memory → ℕ → Memory
call m addr = m

abbrev full : Object
full = (object_load call host start fresh_object base 0 0 copy_text_data).1

abbrev loaded : World
loaded = (object_load call host start fresh_object base 0 0 copy_text_data).2

fresh-IsReady : IsReady plain fresh_object
fresh-IsReady = record {
  live = λ e. absurd (ground (arith, e));
  untagged = λ e. absurd (ground (arith, e));
}

start_untagged : is_sectioned (header_at (object_unload start fresh_object).2.mem base) ≡ false
unfolding header_at udynlink.Memory.read16 object_unload from_words
start_untagged = refl

full_header : full.mod_.p_header ≡ base
unfolding udynlink.Header.validate_header header_at udynlink.Memory.read32 from_words
    udynlink.Memory.read16 udynlink.Sections.get_sectab udynlink.Header.get_code_offset
    udynlink.Sections.empty_view udynlink.Layout.get_ram_size_for_header
    udynlink.Layout.get_ram_size_untagged udynlink.Host.external_malloc
    udynlink.Relocs.load_apply_relocations udynlink.Loader.Copy.clear_bss udynlink.Memory.memset
    udynlink.Modules.get_data_pointer udynlink.Loader.Copy.copy_untagged udynlink.Memory.memcpy
    udynlink.Header.get_sym_table_pointer udynlink.Loader.load_module
    udynlink.Loader.load_module_image udynlink.Loader.Copy.image_from_memory
    udynlink.Symbols.get_sym_at udynlink.Symbols.get_sym_at_raw udynlink.Modules.lookup_symbol
    udynlink.Modules.find_symbol udynlink.Modules.search_names udynlink.Symbols.compare_name
    udynlink.Memory.strcmp udynlink.Symbols.compute_num_named_syms
    udynlink.Symbols.compute_num_named_syms_raw udynlink.Symbols.named_loop
    udynlink.Symbols.sorted_loop udynlink.Symbols.names_in_order udynlink.Memory.strncmp object_load
full_header = refl

full_untagged : is_sectioned (header_at loaded.mem full.mod_.p_header) ≡ false
unfolding udynlink.Header.validate_header header_at udynlink.Memory.read32 from_words
    udynlink.Memory.read16 udynlink.Sections.get_sectab udynlink.Header.get_code_offset
    udynlink.Sections.empty_view udynlink.Layout.get_ram_size_for_header
    udynlink.Layout.get_ram_size_untagged udynlink.Host.external_malloc
    udynlink.Relocs.load_apply_relocations udynlink.Loader.Copy.clear_bss udynlink.Memory.memset
    udynlink.Modules.get_data_pointer udynlink.Loader.Copy.copy_untagged udynlink.Memory.memcpy
    udynlink.Header.get_sym_table_pointer udynlink.Loader.load_module
    udynlink.Loader.load_module_image udynlink.Loader.Copy.image_from_memory
    udynlink.Symbols.get_sym_at udynlink.Symbols.get_sym_at_raw udynlink.Modules.lookup_symbol
    udynlink.Modules.find_symbol udynlink.Modules.search_names udynlink.Symbols.compare_name
    udynlink.Memory.strcmp udynlink.Symbols.compute_num_named_syms
    udynlink.Symbols.compute_num_named_syms_raw udynlink.Symbols.named_loop
    udynlink.Symbols.sorted_loop udynlink.Symbols.names_in_order udynlink.Memory.strncmp object_load
full_untagged = refl

full-IsReady : IsReady loaded.mem full
full-IsReady = record { live = λ _ e. omega (arith, full_header, e); untagged = λ _. full_untagged }

program : Steps call host [] start [] (object_destroy loaded full)
program = next create (
    next (load 0 base 0 0 copy_text_data (omega arith) fresh-IsReady start_untagged)
      (next (destroy full-IsReady) stop))

Steps-Balanced_example : Balanced [] (object_destroy loaded full).log
Steps-Balanced_example = Steps-Balanced call host start (object_destroy loaded full) program

abbrev array : ℕ × World
array = cpp_new 8 host start new_array_aligned 100 32

cpp_delete-cpp_new_example :
    (array.0 ≡ host.malloc start.log (record { size = 100; section = none; align = 32; flags = 0 }))
    × Balanced []
        (if array.0 == 0 then array.1 else cpp_delete 8 array.1 delete_array_aligned array.0 32).log
cpp_delete-cpp_new_example =
    cpp_delete-cpp_new 8 host start new_array_aligned delete_array_aligned true 100 32
      of_array_aligned by_array_aligned
