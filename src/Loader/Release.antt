-- ===== src/Loader/Release.antt =====
-- Giving the memory of a module back, udynlink/udynlink.c: the tagged sections, then the main block.
use udynlink.Prelude.{ℕ, zero, suc, ◌+◌, ◌-◌, ◌&&◌, ◌||◌, not, none, leb, ◌==◌, ◌!=◌, if◌then◌else◌}
use udynlink.Sections.{SectView, sect_entry_at, sect_name, sect_host_flags}
use udynlink.Modules.{Module, get_section_base_idx}
use udynlink.Host.{World, Block, external_free}

abbrev pub main_block : ℕ → ℕ → Block
main_block p align = record { address = p; section = none; align = align; flags = 0 }

-- The loop of `free_nonmain_sections` from section `k`, with `left` to go.
unfoldable pub free_loop : Module → SectView → ℕ → ℕ → World → World
free_loop p_mod tab zero k w = w
free_loop p_mod tab (suc left) k w =
    let e = sect_entry_at w.mem tab k in
    let base = get_section_base_idx w.mem p_mod tab k in
    let block : Block = record {
      address = base;
      section = sect_name tab e;
      align = e.align;
      flags = sect_host_flags e;
    } in
    let skipped = free_loop p_mod tab left (k + 1) w in
    let rest = free_loop p_mod tab left (k + 1) (external_free w block) in
    if e.size == 0 then skipped else if base == 0 then w else rest

unfoldable pub free_nonmain_sections : Module → SectView → World → World
unfolding free_loop
free_nonmain_sections p_mod tab w =
    if p_mod.p_ram == 0 || leb tab.num 3 then w else free_loop p_mod tab (tab.num - 3) 3 w

-- The main block, unless the caller supplied it.
unfoldable pub free_main : Module → ℕ → World → World
free_main p_mod main_align w =
    if p_mod.p_ram != 0 && not p_mod.foreign_ram
    then external_free w (main_block p_mod.p_ram main_align)
    else w
