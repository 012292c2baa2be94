-- ===== src/Lib.antt =====
-- The udynlink loader for position-independent modules on microcontrollers, udynlink/udynlink.c, its
-- pool of call thunks, udynlink/udynlink_thunk.c, and what is built on them: the dependency manager,
-- the symbol tables of a host, the C++ objects and the runtime of WebAssembly modules.
--
-- An image is a header, relocations, a symbol table, for a sectioned image a section table, and the
-- payloads. The loader checks it (Header, Sections), computes where its sections go in one block of
-- RAM (Layout), asks the host for the block or takes the caller's, copies, and applies the
-- relocations (Loader, Relocs). A loaded module is looked into (Symbols, Modules, Api), linked again
-- (Relink), moved (Relocate) and unloaded (Loader). Thunks are written for calls into it (Thunk). The
-- dependency manager loads through the loader, keeps a registry of the modules, and answers the
-- loader's resolver with handles, addresses and thunks (Deps). A host's resolver may look names up in a
-- hash table or a trie, behind a cache (Resolvers). C++ objects own loaded modules (Objects), the
-- host calls their functions with r9 loaded for them (Calls), and a module compiled from WebAssembly
-- takes its memory from the host's allocator (Wasm).
--
-- Files and the code they model:
--   Memory: bytes by address, with the string functions of the C library that the loader calls.
--   Header: the header and the offsets in an image; udynlink_validate_header,
--     udynlink_check_arch_tag, udynlink_get_image_size.
--   Sections: sect_entry_at, get_sectab, sect_find_by_va and their helpers.
--   Layout: get_main_section_offset, get_ram_size_sections, get_ram_size_for_header,
--     udynlink_get_image_size_bounded and their helpers.
--   Symbols: get_sym_at_raw, bounded_sym_count, compute_num_named_syms_raw.
--   Modules: the handle udynlink_module_t, the bases of its parts, get_reloc_target, offset_sym,
--     udynlink_lookup_symbol.
--   Relocs: udynlink_load_apply_relocations. Relink: apply_extern_relocations_impl,
--     udynlink_link_incremental, udynlink_relink_all, udynlink_link_symbol.
--   Host: udynlink/udynlink_externals.h, as a parameter: an allocator that answers by the log of all
--     calls so far, and a resolver. The callbacks are taken not to write the loader's memory.
--   Loader: udynlink_load_module_image in its stages, udynlink_load_module, udynlink_unload_module.
--   Relocate: udynlink_relocate_module, udynlink_relocate_module_sections and the pointer walks.
--   Api: the queries on sections and symbols. Thunk: udynlink/udynlink_thunk.c.
--   Deps: udynlink/udynlink_deps.c. Resolvers: udynlink/udynlink_hash.h, udynlink_trie.h,
--     udynlink_host_utils.h. Objects: the classes Module, Symbol and SymbolView of
--     udynlink/udynlink.hpp. Wasm: udynlink/wasm2c_runtime/wasm-rt-udynlink.c.
--   Calls: udynlink/udynlink_call.h, and FuncInvoker, Func and Context of udynlink/udynlink.hpp.
--   CppAbi: udynlink/udynlink_cpp_abi.h.
--   Texts: NUL-terminated texts and what strcmp says of them.
--   Prelude has what the modules share; Examples applies the theorems to concrete images.
--
-- The words that a pass over the relocations of an untagged module writes, its slots, are the subject
-- of Relocs.Verdicts (what one relocation asks for), Relocs.Passes (rounds that write apart from each
-- other), Relocs.Linked, Relink.Linked and Relocate.Moving (a load, a link and a move); Loader.Result is
-- about the memory behind a whole load, and Loader.Contained about the memory that a load may write.
-- IsLinkable of Relocs.Slots, IsLoaded of Relocate.Untagged.Rounds and IsLoadable of Loader.Faithful are
-- conditions on an image, its block and the host: no word is relocated twice, the slots lie apart from
-- the header, the relocations and the symbols, and the host's answers for symbols do not hang on what
-- the slots hold. Sectioned images have none of these modules, and Loader.Result leaves out the
-- mode that moves the header into the block.
--
-- State is passed explicitly: memory is a function from addresses to bytes, a handle is a record, and
-- a stage gives an error code, the handle and the world. An address is a number and 0 is NULL. Words
-- keep the wrap-around of the 32-bit target where the code can reach it; the 64-bit totals do not wrap.
-- The sizes that bound a loop over relocations are read once, at its start. Loops recurse on the rounds
-- that they have left. Fuel is used where no count is at hand: the binary search has the count of names
-- plus one, of which it halves its range each round; the linear search the size of the symbol table,
-- since an entry takes eight bytes; a text is read for at most the 2^32 bytes of the address space; a
-- chain of the hash table has one unit for each symbol, and a level of the trie 257, since its
-- characters ascend.
--
-- What the host's callbacks do while a module is loaded through the dependency manager is a function on
-- the manager, `nested` of Deps.Load, and in the theorems a tree of registrations and loads, `Calls` of
-- Deps.Load.Depth. Steps of a C++ program are a relation, `Step` of Objects.Steps, whose images are
-- untagged; so are the contexts and calls of a program, `Step` of Calls.Contexts, where r9 is a
-- register of the machine that the host and the module share.
--
-- A call of a module's function goes through a variadic type in C and the exact type in C++, and the
-- code of the module may tell the two apart (CallType of Calls). A name in the host's cache is the
-- caller's pointer, whose text is read again at each lookup. The index of a word of the symbol table
-- wraps at 2^32 as a size_t does (name_off_at of Symbols).
--
-- Not modelled: debug output and error texts; the declarations that the WebAssembly runtime gives to
-- generated code; the attributes of udynlink_section.h; interrupts. What the code of a module does
-- to memory and r9 is a parameter.
pub mod Prelude
pub mod Memory
pub mod Thunk
pub mod Header
pub mod Sections
pub mod Layout
pub mod Symbols
pub mod Modules
pub mod Relocs
pub mod Relink
pub mod Host
pub mod Loader
pub mod Relocate
pub mod Api
pub mod Texts
pub mod Resolvers
pub mod Deps
pub mod Objects
pub mod Calls
pub mod CppAbi
pub mod Wasm
pub mod Examples
