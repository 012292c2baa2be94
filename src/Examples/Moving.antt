-- ===== src/Examples/Moving.antt =====
-- Applications to moves of a loaded module.
use udynlink.Prelude.{ℕ, ◌≡◌, refl, arith, true, false, some, [], ◌∷◌}
use udynlink.Memory.{Memory}
use udynlink.Header.{ok, header_at, LoadMode, copy_text_data, ErrorCode, is_sectioned}
use udynlink.Modules.{Module, free_module}
use udynlink.Relocs.{is_ok}
use udynlink.Host.{Host, World, Event, allocated, external_free}
use udynlink.Loader.{Stage, main_request, unload_module}
use udynlink.Loader.Leaks.{Owes}
use udynlink.Loader.Release.{main_block}
use udynlink.Relocate.{get_ram_size, relocate_untagged, relocate_module_sections}
use udynlink.Relocate.Accounts.{
  relocate_module_sections_refused, relocate_untagged-Owes, relocate_untagged_refused,
}
use udynlink.Examples.Images.{base, plain, tagged, from_words}

abbrev host_at : ℕ → Host
host_at p = record { resolve = λ m p_mod name. 0; malloc = λ log r. p }

abbrev owned : Module
owned = record free_module { p_header = base; p_ram = 0x8000; mode = copy_text_data }

abbrev lent : Module
lent = record owned { foreign_ram = true }

-- The world after the load of `owned`.
abbrev running : World
running = record { mem = plain; log = allocated (main_request 20 4) 0x8000 ∷ [] }

abbrev moved : Stage
moved = relocate_untagged (host_at 0x9000) running owned 0 0

size_plain : get_ram_size plain owned ≡ 20
unfolding get_ram_size udynlink.Layout.get_ram_size_for_header header_at udynlink.Memory.read16
    from_words udynlink.Layout.get_ram_size_untagged udynlink.Memory.read32
size_plain = refl

size_lent : get_ram_size plain lent ≡ 20
unfolding get_ram_size udynlink.Layout.get_ram_size_for_header header_at udynlink.Memory.read16
    from_words udynlink.Layout.get_ram_size_untagged udynlink.Memory.read32
size_lent = refl

moves_well : is_ok moved.code ≡ true
unfolding relocate_untagged get_ram_size udynlink.Layout.get_ram_size_for_header header_at
    udynlink.Memory.read16 from_words udynlink.Layout.get_ram_size_untagged udynlink.Memory.read32
    udynlink.Host.external_malloc
moves_well = refl

new_block : moved.p_mod.p_ram ≡ 0x9000
unfolding relocate_untagged get_ram_size udynlink.Layout.get_ram_size_for_header header_at
    udynlink.Memory.read16 from_words udynlink.Layout.get_ram_size_untagged udynlink.Memory.read32
    udynlink.Host.external_malloc
new_block = refl

relocate_untagged-Owes_example : Owes 4 [] moved.p_mod moved.world
relocate_untagged-Owes_example =
    relocate_untagged-Owes (host_at 0x9000) running [] owned 0 0 (omega arith)
      (omega (arith, size_plain)) (λ hits. omega arith) moves_well (omega (arith, new_block))

abbrev refused_move : Stage
refused_move =
    relocate_module_sections (host_at 0) (record running { mem = tagged }) (some owned) 0 0 []

tagged_sectioned : is_sectioned (header_at tagged base) ≡ true
unfolding header_at udynlink.Memory.read16 from_words
tagged_sectioned = refl

not_moved : is_ok refused_move.code ≡ false
unfolding relocate_module_sections udynlink.Sections.get_sectab header_at udynlink.Memory.read16
    from_words udynlink.Sections.sectioned_header_ok udynlink.Header.get_num_sections_raw
    udynlink.Memory.read32 udynlink.Sections.entries_ok udynlink.Sections.table_view
    udynlink.Sections.entry_fields_ok udynlink.Sections.sect_entry_at
    udynlink.Header.get_sectab_offset udynlink.Sections.entry_role_ok
    udynlink.Sections.entry_name_ok udynlink.Sections.entry_order_ok
    udynlink.Sections.main_sections_ok udynlink.Sections.align_up_u32
    udynlink.Header.get_sym_table_pointer udynlink.Host.external_malloc get_ram_size
    udynlink.Layout.get_ram_size_for_header udynlink.Layout.get_ram_size_sections
    udynlink.Layout.size_walk udynlink.Layout.get_main_sections_start udynlink.Sections.align_up
    udynlink.Sections.get_nonmain_bases_size
not_moved = refl

relocate_module_sections_refused_example :
    (refused_move.p_mod ≡ owned) × (refused_move.world.mem ≡ tagged)
relocate_module_sections_refused_example =
    relocate_module_sections_refused (host_at 0) (record running { mem = tagged }) owned 0 0 []
      tagged_sectioned not_moved

plain_untagged : is_sectioned (header_at plain base) ≡ false
unfolding header_at udynlink.Memory.read16 from_words
plain_untagged = refl

relocate_untagged_refused_example :
    (unload_module
      (relocate_untagged (host_at 0) running lent 0 0).world
      (some (relocate_untagged (host_at 0) running lent 0 0).p_mod)).1
    ≡ external_free (relocate_untagged (host_at 0) running lent 0 0).world (main_block 0x8000 4)
relocate_untagged_refused_example =
    relocate_untagged_refused (host_at 0) running lent 0 (omega arith) (omega arith) refl
      plain_untagged (omega (arith, size_lent)) refl
