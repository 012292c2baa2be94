-- ===== src/Relocate/Sectioned.antt =====
-- `rebase_sections_pointers`, udynlink/udynlink.c: shifting the pointers of a moved sectioned module,
-- section by section. The sizes that bound the walk are read once.
use udynlink.Prelude.{
  ℕ, zero, suc, ◌+◌, ◌-◌, ◌*◌, ◌&&◌, ◌||◌, Option, some, none, List, [], ◌∷◌, ltb, leb, ◌==◌, ◌!=◌,
  if◌then◌else◌, u32, add32, sub32,
}
use udynlink.Memory.{Memory, read32, write32}
use udynlink.Header.{get_code_offset, get_relocs_pointer, get_sym_table_pointer}
use udynlink.Sections.{SectView, sect_entry_at, sect_find_by_va, class_bss}
use udynlink.Layout.{get_main_section_offset}
use udynlink.Symbols.{Sym, get_sym_at_raw, type_internal, type_exported, type_weak}
use udynlink.Modules.{Module, header_of, get_section_base_idx, is_xip, reloc_va}
use udynlink.Relocs.{is_abs32, is_code_base, lot_word, symt_word}

-- `udynlink_section_move_t`: a tagged section and where the host has copied it.
pub record SectionMove : Type 0 where
  pub idx : ℕ
  pub new_base : ℕ

pub record SectRebase : Type 0 where
  pub p_mod : Module
  pub tab : SectView
  pub old_p_ram : ℕ
  pub moves : List SectionMove

unfoldable pub sect_base_old : Memory → SectRebase → ℕ → ℕ
sect_base_old m ctx idx =
    let p_mod = ctx.p_mod in
    let h = header_of m p_mod in
    let block = if ctx.old_p_ram != 0 then ctx.old_p_ram else p_mod.p_ram in
    if ltb idx 3
    then if idx == 0 && is_xip p_mod.mode
      then add32 p_mod.p_header (get_code_offset h)
      else add32 block (get_main_section_offset m h ctx.tab p_mod.mode idx)
    else get_section_base_idx m p_mod ctx.tab idx

-- The target of the first move of a section.
unfoldable pub moved_base : List SectionMove → ℕ → Option ℕ
moved_base [] idx = none
moved_base (move ∷ moves) idx = if move.idx == idx then some move.new_base else moved_base moves idx

unfoldable pub sect_base_new : Memory → SectRebase → ℕ → ℕ
unfolding moved_base
sect_base_new m ctx idx = elim (moved_base ctx.moves idx) [
  | some base ↦ base
  | none ↦ get_section_base_idx m ctx.p_mod ctx.tab idx
]

-- The loop of `sect_find_by_runtime` from section `i`, with `left` to go; `none` is its -1.
unfoldable pub find_by_runtime_loop : Memory → SectRebase → ℕ → ℕ → ℕ → Option ℕ
unfolding sect_base_old
find_by_runtime_loop m ctx addr zero i = none
find_by_runtime_loop m ctx addr (suc left) i =
    let base = sect_base_old m ctx i in
    let rest = find_by_runtime_loop m ctx addr left (i + 1) in
    if leb base addr && ltb (addr - base) (sect_entry_at m ctx.tab i).size then some i else rest

unfoldable pub sect_find_by_runtime : Memory → SectRebase → ℕ → Option ℕ
unfolding find_by_runtime_loop
sect_find_by_runtime m ctx addr = find_by_runtime_loop m ctx addr ctx.tab.num 0

-- Where a relocation behind the LOT is patched: at the new place of its section, unless that is .bss.
unfoldable pub rebased_slot : Memory → SectRebase → ℕ → Option ℕ
unfolding sect_base_new
rebased_slot m ctx lot_offset =
    let va = reloc_va (header_of m ctx.p_mod) lot_offset in
    elim (sect_find_by_va m ctx.tab va) [
      | none ↦ none
      | some ti ↦
          let te = sect_entry_at m ctx.tab ti in
          if te.cls == class_bss
          then none
          else some (add32 (sect_base_new m ctx ti) (sub32 va te.va))
    ]

-- The base-additive forms: the word holds an address, which moves along with its section.
unfoldable pub rebase_address : Memory → SectRebase → ℕ → Memory
unfolding sect_find_by_runtime sect_base_new sect_base_old
rebase_address m ctx p = elim (sect_find_by_runtime m ctx (read32 m p)) [
  | none ↦ m
  | some si ↦
      write32 m p (add32 (read32 m p) (sub32 (sect_base_new m ctx si) (sect_base_old m ctx si)))
]

-- The `switch` on the type of the symbol.
unfoldable pub rebase_section_symbol : Memory → SectRebase → Sym → ℕ → Memory
unfolding sect_base_new sect_base_old
rebase_section_symbol m ctx sym p_slot = elim (sect_find_by_va m ctx.tab (u32 sym.val)) [
  | none ↦ m
  | some si ↦
      let off = sub32 (u32 sym.val) (sect_entry_at m ctx.tab si).va in
      let target = add32 (sect_base_new m ctx si) off in
      if sym.type == type_internal || sym.type == type_exported
      then write32 m p_slot target
      else if sym.type == type_weak && read32 m p_slot == add32 (sect_base_old m ctx si) off
      then write32 m p_slot target
      else m
]

unfoldable pub rebase_section_one : Memory → SectRebase → ℕ → ℕ → ℕ → Memory
unfolding rebased_slot rebase_address rebase_section_symbol
rebase_section_one m ctx num_lot lot_offset symt_offset =
    let h = header_of m ctx.p_mod in
    let p_symt = get_sym_table_pointer h ctx.p_mod.p_header in
    if is_abs32 symt_offset || is_code_base symt_offset
    then if ltb lot_offset num_lot
      then m
      else elim (rebased_slot m ctx lot_offset) [ none ↦ m | some p ↦ rebase_address m ctx p ]
    else elim (get_sym_at_raw m p_symt symt_offset h.symt_size) [
      | none ↦ m
      | some sym ↦
          if ltb lot_offset num_lot
          then rebase_section_symbol m ctx sym (ctx.p_mod.p_ram + lot_offset * 4)
          else elim (rebased_slot m ctx lot_offset) [
            | none ↦ m
            | some p ↦ rebase_section_symbol m ctx sym p
          ]
    ]

unfoldable pub rebase_section_loop : SectRebase → ℕ → ℕ → ℕ → ℕ → Memory → Memory
unfolding rebase_section_one
rebase_section_loop ctx num_lot p_rels zero i m = m
rebase_section_loop ctx num_lot p_rels (suc left) i m =
    rebase_section_loop ctx num_lot p_rels left (i + 1)
      (rebase_section_one m ctx num_lot (lot_word m p_rels i) (symt_word m p_rels i))

unfoldable pub rebase_sections_pointers : Memory → SectRebase → Memory
unfolding rebase_section_loop
rebase_sections_pointers m ctx =
    let h = header_of m ctx.p_mod in
    rebase_section_loop ctx h.num_lot (get_relocs_pointer h ctx.p_mod.p_header) h.num_rels 0 m
