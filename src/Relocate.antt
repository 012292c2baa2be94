-- ===== src/Relocate.antt =====
-- Moving a loaded module, udynlink/udynlink.c: `udynlink_relocate_module`,
-- `udynlink_relocate_module_sections` and `relocate_main_block` behind both. The children have the
-- walks that shift the pointers of the moved module, for untagged and for sectioned ones.
pub mod Untagged
pub mod Sectioned
pub mod Accounts
pub mod Moving
use udynlink.Prelude.{
  ℕ, zero, suc, ◌+◌, ◌-◌, ◌*◌, bit_and, Bool, true, false, ◌&&◌, ◌||◌, not, Option, some, none,
  List, [], ◌∷◌, ltb, leb, ◌==◌, ◌!=◌, if◌then◌else◌, sub32,
}
use udynlink.Memory.{Memory, memcpy}
use udynlink.Header.{
  header_at, ErrorCode, ok, invalid_module, load_out_of_memory, load_ram_len_low,
  load_ram_unaligned, load_bad_section_table, load_section_unresolved, load_section_unaligned,
  is_sectioned,
}
use udynlink.Sections.{SectView, sect_entry_at, get_sectab, get_nonmain_bases_size}
use udynlink.Layout.{get_ram_size_for_header, get_main_align}
use udynlink.Modules.{
  Module, free_module, header_of, get_code_pointer, get_data_pointer, set_section_base_idx, is_xip,
}
use udynlink.Relocs.{is_ok}
use udynlink.Host.{Host, World, external_malloc, external_free}
use udynlink.Loader.{Stage, main_request}
use udynlink.Loader.Copy.{is_copy_all}
use udynlink.Loader.Release.{main_block}
use Untagged.{Shift, rebase_module_pointers}
use Sectioned.{SectionMove, SectRebase, rebase_sections_pointers}

-- `udynlink_get_ram_size`.
unfoldable pub get_ram_size : Memory → Module → ℕ
get_ram_size m p_mod = get_ram_size_for_header m p_mod.p_header p_mod.mode

-- The handle of a module whose block has moved to `dest`. In `copy_all` its header moves along, and
-- stands `gap` bytes behind the start of the block.
abbrev pub moved_module : Module → ℕ → ℕ → Module
moved_module p_mod dest gap = record p_mod {
  p_ram = dest;
  p_header = if is_copy_all p_mod.mode then dest + gap else p_mod.p_header;
}

-- The copying of an untagged module to `dest`, and the freeing of the old block. The destination may
-- be the old block.
unfoldable pub move_untagged : World → Module → Bool → ℕ → ℕ → Stage
move_untagged w p_mod old_foreign dest ram_size =
    let old = p_mod.p_ram in
    let copied = memcpy w.mem dest old ram_size in
    let moved = moved_module p_mod dest ((header_of copied p_mod).num_lot * 4) in
    let data_delta = sub32 dest old in
    let shift : Shift = record {
      code_delta = if is_xip p_mod.mode then 0 else data_delta;
      data_delta = data_delta;
      old_code = get_code_pointer w.mem p_mod;
      old_data = get_data_pointer w.mem p_mod;
    } in
    let rebased : World = record w { mem = rebase_module_pointers copied moved shift } in
    let release : World → World =
      λ v. if old_foreign then v else external_free v (main_block old 4) in
    if dest == old
    then record { code = ok; p_mod = p_mod; world = release w }
    else record { code = ok; p_mod = moved; world = release rebased }

-- The part of `relocate_main_block` for untagged modules. A `new_ram` of 0 is NULL. The ownership
-- flag is set before the destination is checked.
unfoldable pub relocate_untagged : Host → World → Module → ℕ → ℕ → Stage
unfolding move_untagged
relocate_untagged host w p_mod new_ram new_size =
    let ram_size = get_ram_size w.mem p_mod in
    let old_foreign = p_mod.foreign_ram in
    let owned : Module = record p_mod { foreign_ram = false } in
    let lent : Module = record p_mod { foreign_ram = true } in
    let (dest, w') = external_malloc host w (main_request ram_size 4) in
    if ram_size == 0
    then record { code = ok; p_mod = p_mod; world = w }
    else if new_ram == 0
    then if dest == 0
      then record { code = load_out_of_memory; p_mod = owned; world = w' }
      else move_untagged w' owned old_foreign dest ram_size
    else if ltb new_size ram_size
    then record { code = load_ram_len_low; p_mod = lent; world = w }
    else move_untagged w lent old_foreign new_ram ram_size

-- The new bases of the moved tagged sections, published after the walk.
unfoldable pub publish_moves : Module → List SectionMove → Memory → Memory
publish_moves p_mod [] m = m
publish_moves p_mod (move ∷ moves) m =
    publish_moves p_mod moves (set_section_base_idx m p_mod (move.idx - 3) move.new_base)

-- The moving of a sectioned module, after the checks. `p_mod` has the new ownership flag already.
unfoldable pub move_sectioned :
    World → Module → SectView → Bool → ℕ → ℕ → ℕ → List SectionMove → Stage
unfolding publish_moves
move_sectioned w p_mod tab old_foreign main_align dest ram_size moves =
    let old = p_mod.p_ram in
    let has_block = ltb 0 ram_size in
    let copied = if has_block then memcpy w.mem dest old ram_size else w.mem in
    let gap = (header_of copied p_mod).num_lot * 4 + get_nonmain_bases_size tab in
    let moved = if has_block then moved_module p_mod dest gap else p_mod in
    let ctx : SectRebase = record { p_mod = moved; tab = tab; old_p_ram = old; moves = moves } in
    let rebased : World = record w {
      mem = publish_moves moved moves (rebase_sections_pointers copied ctx);
    } in
    record {
      code = ok;
      p_mod = moved;
      world =
          if not old_foreign && has_block
          then external_free rebased (main_block old main_align)
          else rebased;
    }

-- The part of `relocate_main_block` for sectioned modules.
unfoldable pub relocate_sectioned : Host → World → Module → ℕ → ℕ → List SectionMove → Stage
unfolding move_sectioned
relocate_sectioned host w p_mod new_ram new_size moves =
    let ram_size = get_ram_size w.mem p_mod in
    let old_foreign = p_mod.foreign_ram in
    let fail : ErrorCode → World → Stage =
      λ code v. record { code = code; p_mod = p_mod; world = v } in
    elim (get_sectab w.mem p_mod.p_header false) [
      | none ↦ fail load_bad_section_table w
      | some tab ↦
          let main_align = get_main_align w.mem tab in
          let (dest, w') = external_malloc host w (main_request ram_size main_align) in
          if tab.num == 0
          then fail load_bad_section_table w
          else if ram_size == 0
          then elim moves [
            | [] ↦ fail ok w
            | move ∷ rest ↦ move_sectioned w p_mod tab old_foreign main_align 0 0 (move ∷ rest)
          ]
          else if new_ram == p_mod.p_ram
          then fail ok w
          else if new_ram == 0
          then if dest == 0
            then fail load_out_of_memory w'
            else move_sectioned w' (record p_mod { foreign_ram = false }) tab old_foreign main_align
                dest ram_size moves
          else if ltb new_size ram_size
          then fail load_ram_len_low w
          else if bit_and new_ram (main_align - 1) != 0
          then fail load_ram_unaligned w
          else move_sectioned w (record p_mod { foreign_ram = true }) tab old_foreign main_align
              new_ram ram_size moves
    ]

unfoldable pub relocate_main_block : Host → World → Module → ℕ → ℕ → List SectionMove → Stage
unfolding relocate_untagged relocate_sectioned
relocate_main_block host w p_mod new_ram new_size moves =
    if is_sectioned (header_of w.mem p_mod)
    then relocate_sectioned host w p_mod new_ram new_size moves
    else relocate_untagged host w p_mod new_ram new_size

abbrev pub is_listed : ℕ → List SectionMove → Bool
is_listed idx [] = false
is_listed idx (move ∷ moves) = move.idx == idx || is_listed idx moves

-- The checks of the moves in their order; `seen` are those before.
unfoldable pub check_moves : Memory → SectView → List SectionMove → List SectionMove → ErrorCode
check_moves m tab seen [] = ok
check_moves m tab seen (move ∷ moves) =
    let rest = check_moves m tab (move ∷ seen) moves in
    if ltb move.idx 3 || leb tab.num move.idx
    then invalid_module
    else if is_listed move.idx seen
    then invalid_module
    else if move.new_base == 0
    then load_section_unresolved
    else if bit_and move.new_base ((sect_entry_at m tab move.idx).align - 1) != 0
    then load_section_unaligned
    else rest

-- The checks of `udynlink_relocate_module_sections` in front of the move. An empty list asks for
-- none.
unfoldable pub check_request : Memory → Module → List SectionMove → ErrorCode
unfolding check_moves
check_request m p_mod [] = ok
check_request m p_mod moves =
    if not (is_sectioned (header_of m p_mod))
    then invalid_module
    else elim (get_sectab m p_mod.p_header false) [
      | none ↦ load_bad_section_table
      | some tab ↦ if tab.num == 0 then load_bad_section_table else check_moves m tab [] moves
    ]

-- `udynlink_relocate_module_sections`, and with no moves `udynlink_relocate_module`. A NULL handle is
-- `none`; what it leaves of the handle is then nothing.
unfoldable pub relocate_module_sections :
    Host → World → Option Module → ℕ → ℕ → List SectionMove → Stage
unfolding relocate_main_block check_request
relocate_module_sections host w none new_ram new_size moves = record {
  code = invalid_module;
  p_mod = free_module;
  world = w;
}
relocate_module_sections host w (some p_mod) new_ram new_size moves =
    let refuse : ErrorCode → Stage = λ code. record { code = code; p_mod = p_mod; world = w } in
    let checked = check_request w.mem p_mod moves in
    if p_mod.p_header == 0
    then refuse invalid_module
    else if is_ok checked
    then relocate_main_block host w p_mod new_ram new_size moves
    else refuse checked
