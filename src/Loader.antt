-- ===== src/Loader.antt =====
-- Loading and unloading, udynlink/udynlink.c: `udynlink_load_module_image` in its stages,
-- `udynlink_load_module` and `udynlink_unload_module`. The handle's content before the call is an
-- argument, since the code does not clear it. The children `Planning`, `Copy` and `Release` have the
-- checks, the copying and the freeing.
pub mod Copy
pub mod Planning
pub mod Release
pub mod Accounts
pub mod Checks
pub mod Leaks
pub mod Extents
pub mod Content
pub mod Copied
pub mod Reach
pub mod Loaded
pub mod Faithful
pub mod Result
pub mod Contained
use udynlink.Prelude.{
  ℕ, zero, suc, ◌+◌, ◌-◌, ◌*◌, ◌/◌, ◌%◌, ◌^◌, bit_and, Bool, true, false, ◌&&◌, ◌||◌, not, Option,
  some, none, ltb, leb, ◌==◌, ◌!=◌, if◌then◌else◌, add32,
}
use udynlink.Memory.{Memory, memset}
use udynlink.Header.{
  Header, header_at, LoadMode, ErrorCode, ok, load_ram_len_low, load_out_of_memory,
  load_bad_relocation_table, load_ram_unaligned, load_bad_section_table, invalid_module,
  validate_header, max_image_size, max_ram_size, get_code_offset,
}
use udynlink.Sections.{
  SectView, sect_entry_at, sect_name, sect_host_flags, get_sectab, get_nonmain_bases_size,
}
use udynlink.Layout.{
  tagged_sizes, is_payload, any_class, get_ram_size_sections, get_ram_size_for_header,
  get_main_align, get_code_payload_size,
}
use udynlink.Symbols.{compute_num_named_syms}
use udynlink.Modules.{Module, free_module, header_of, get_section_base_idx}
use udynlink.Relocs.{load_apply_relocations, is_ok}
use udynlink.Host.{Host, World, Request, Block, external_malloc, external_free}
use Copy.{
  Image, image_from_memory, copy_untagged, moved_header, clear_bss, copy_main, place_tagged,
  clear_main_bss,
}
use Planning.{Plan, plan_load}
use Release.{main_block, free_nonmain_sections, free_main}

-- A result of a stage: its code, the handle and the world.
pub record Stage : Type 0 where
  pub code : ErrorCode
  pub p_mod : Module
  pub world : World

abbrev pub main_request : ℕ → ℕ → Request
main_request size align = record { size = size; section = none; align = align; flags = 0 }

-- Accepting the block at `ram_addr`: alignment test, handle, cleared base array. A block of the
-- loader's own that is not aligned is freed again.
unfoldable pub accept_block : World → Module → Plan → Bool → ℕ → Stage
accept_block w p_mod plan own ram_addr =
    if bit_and ram_addr (plan.main_align - 1) != 0
    then record {
      code = load_ram_unaligned;
      p_mod = p_mod;
      world = if own then external_free w (main_block ram_addr plan.main_align) else w;
    }
    else record {
      code = ok;
      p_mod = record p_mod { p_ram = ram_addr };
      world =
          if ltb 0 plan.tab.num
          then record w {
            mem =
                memset w.mem (ram_addr + (header_of w.mem p_mod).num_lot * 4) 0
                  (get_nonmain_bases_size plan.tab);
          }
          else w;
    }

-- A main block of the loader's own.
unfoldable pub allocate_block : Host → World → Module → Plan → Stage
unfolding accept_block
allocate_block host w p_mod plan =
    let (p, w') = external_malloc host w (main_request plan.ram_size plan.main_align) in
    if p == 0
    then record { code = load_out_of_memory; p_mod = p_mod; world = w' }
    else accept_block w' p_mod plan true p

-- Allocating the main block, or checking the caller's. A `load_addr` of 0 is NULL.
unfoldable pub provision_ram : Host → World → Module → Plan → ℕ → ℕ → Stage
unfolding allocate_block
provision_ram host w p_mod plan load_addr load_size =
    if ltb 0 plan.ram_size
    then if load_addr == 0
      then allocate_block host w (record p_mod { foreign_ram = false }) plan
      else if ltb load_size plan.ram_size
      then record {
        code = load_ram_len_low;
        p_mod = record p_mod { foreign_ram = true };
        world = w;
      }
      else accept_block w (record p_mod { foreign_ram = true }) plan false load_addr
    else record { code = ok; p_mod = record p_mod { p_ram = 0 }; world = w }

-- Behind the label `exit`.
unfoldable pub load_exit : Plan → Stage → Stage
unfolding free_nonmain_sections free_main
load_exit plan s = if is_ok s.code then s else record s {
  p_mod = free_module;
  world = free_main s.p_mod plan.main_align (free_nonmain_sections s.p_mod plan.tab s.world);
}

-- The copying of the image, for an untagged module.
unfoldable pub copy_untagged_stage : Image → Header → Stage → Stage
copy_untagged_stage image h s =
    let p_mod = s.p_mod in
    let w = s.world in
    let dst = p_mod.p_ram + h.num_lot * 4 in
    let moved = moved_header p_mod.mode dst p_mod in
    record s {
      p_mod = moved;
      world = record w { mem = clear_bss (copy_untagged w.mem h image p_mod.mode dst) h moved };
    }

-- The same for a sectioned module: main sections, tagged sections, .bss.
unfoldable pub copy_sectioned_stage : Host → Image → Plan → Header → Stage → Stage
copy_sectioned_stage host image plan h s =
    let p_mod = s.p_mod in
    let w = s.world in
    let tab = plan.tab in
    let dst = p_mod.p_ram + h.num_lot * 4 + get_nonmain_bases_size tab in
    let moved = moved_header p_mod.mode dst p_mod in
    let copied : World = record w { mem = copy_main w.mem h tab image p_mod.mode p_mod } in
    let payload_off = add32 (get_code_payload_size w.mem h tab) h.data_size in
    let (code, placed) = place_tagged host image tab moved (tab.num - 3) 3 payload_off copied in
    record {
      code = code;
      p_mod = moved;
      world =
          if is_ok code
          then record placed { mem = clear_main_bss placed.mem h tab p_mod.mode moved }
          else placed;
    }

unfoldable pub copied_stage : Host → Image → Plan → Stage → Stage
unfolding copy_untagged_stage copy_sectioned_stage
copied_stage host image plan s =
    let h = header_at s.world.mem image.p_header in
    if ltb 0 plan.tab.num
    then copy_sectioned_stage host image plan h s
    else copy_untagged_stage image h s

-- The last stage before the label: relocations, and the count for the binary search.
unfoldable pub relocate_image : Host → Image → ℕ → Stage → Stage
relocate_image host image p_header s =
    let (code, m) =
      load_apply_relocations host.resolve s.world.mem s.p_mod p_header image.p_relocations
        image.p_symtab in
    let p_mod = s.p_mod in
    record {
      code = code;
      p_mod =
          if is_ok code
          then record p_mod { num_named_syms = compute_num_named_syms m p_mod.p_header }
          else p_mod;
      world = let w = s.world in record w { mem = m };
    }

-- A later stage runs if the one before it succeeded.
abbrev pub and_then : Stage → (Stage → Stage) → Stage
and_then s next = if is_ok s.code then next s else s

-- `udynlink_load_module_image` on a handle with the content `p_mod`; a NULL handle is `none`.
unfoldable pub load_module_image : Host → World → Option Module → Image → ℕ → ℕ → LoadMode → Stage
unfolding plan_load provision_ram copied_stage load_exit relocate_image
load_module_image host w none image load_addr load_size mode = record {
  code = invalid_module;
  p_mod = free_module;
  world = w;
}
load_module_image host w (some p_mod) image load_addr load_size mode =
    let handle = record p_mod { p_header = image.p_header; mode = mode } in
    let plan = plan_load w.mem image.p_header mode in
    let planned : Stage = record { code = plan.code; p_mod = handle; world = w } in
    let provisioned =
      and_then planned (λ s. provision_ram host s.world s.p_mod plan load_addr load_size) in
    let copied = and_then provisioned (λ s. copied_stage host image plan s) in
    load_exit plan (and_then copied (relocate_image host image image.p_header))

unfoldable pub load_module : Host → World → Option Module → ℕ → ℕ → ℕ → LoadMode → Stage
unfolding load_module_image
load_module host w p_mod base_addr load_addr load_size mode =
    load_module_image host w p_mod (image_from_memory w.mem base_addr) load_addr load_size mode

-- `udynlink_unload_module`; a NULL handle is `none`.
unfoldable pub unload_module : World → Option Module → ErrorCode × World
unfolding free_nonmain_sections free_main
unload_module w none = (invalid_module, w)
unload_module w (some p_mod) =
    if p_mod.p_header == 0
    then (invalid_module, w)
    else elim (get_sectab w.mem p_mod.p_header false) [
      | none ↦ (ok, free_main p_mod 4 w)
      | some tab ↦ (
        ok,
        free_main p_mod (if ltb 0 tab.num then get_main_align w.mem tab else 4)
            (free_nonmain_sections p_mod tab w),
      )
    ]
