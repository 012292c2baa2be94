-- ===== src/Layout.antt =====
-- Sizes and in-block offsets of the sections, udynlink/udynlink.c: what the loader allocates for a
-- module and where it places the parts.
pub mod Blocks
use udynlink.Prelude.{
  ℕ, zero, suc, ◌+◌, ◌-◌, ◌*◌, ◌/◌, ◌%◌, ◌^◌, bit_and, Bool, true, false, ◌&&◌, ◌||◌, not, Option,
  some, none, ltb, leb, ◌==◌, ◌!=◌, if◌then◌else◌, u32, add32, field,
}
use udynlink.Memory.{Memory}
use udynlink.Header.{
  Header, header_at, LoadMode, copy_all, copy_text_data, xip, is_sectioned, get_code_offset,
  get_image_size,
}
use udynlink.Sections.{
  SectView, SectEntry, sect_entry_at, get_nonmain_bases_size, align_up, get_sectab, class_bss,
}

-- Which classes a sum takes: `(1 << CODE) | (1 << DATA)`, or every class.
abbrev pub is_payload : ℕ → Bool
is_payload cls = cls == 0 || cls == 1

abbrev pub any_class : ℕ → Bool
any_class cls = true

-- `sum_section_sizes` over `left` entries from `k`, a 64-bit sum.
unfoldable pub sum_section_sizes : Memory → SectView → (ℕ → Bool) → ℕ → ℕ → ℕ
sum_section_sizes m tab selected zero k = 0
sum_section_sizes m tab selected (suc left) k =
    let e = sect_entry_at m tab k in
    (if selected e.cls then e.size else 0) + sum_section_sizes m tab selected left (k + 1)

unfoldable pub tagged_sizes : Memory → SectView → (ℕ → Bool) → ℕ
tagged_sizes m tab selected = sum_section_sizes m tab selected (tab.num - 3) 3

unfoldable pub get_main_sections_start : Header → SectView → LoadMode → ℕ
get_main_sections_start h tab mode =
    let off = add32 (h.num_lot * 4) (get_nonmain_bases_size tab) in
    elim mode [ copy_all ↦ add32 off (get_code_offset h) | copy_text_data ↦ off | xip ↦ off ]

-- The first main section that lives in the block.
abbrev pub first_in_block : LoadMode → ℕ
first_in_block copy_all = 0
first_in_block copy_text_data = 0
first_in_block xip = 1

-- The walk over main sections `i` up to `i + left`, at offset `off`: the aligned base of the last.
unfoldable pub main_walk : Memory → SectView → ℕ → ℕ → ℕ → ℕ
main_walk m tab zero i off = align_up off (sect_entry_at m tab i).align
main_walk m tab (suc left) i off =
    let e = sect_entry_at m tab i in
    main_walk m tab left (i + 1) (add32 (align_up off e.align) e.size)

unfoldable pub get_main_section_offset : Memory → Header → SectView → LoadMode → ℕ → ℕ
unfolding get_main_sections_start
get_main_section_offset m h tab mode idx =
    let start = get_main_sections_start h tab mode in
    let first = first_in_block mode in
    if leb tab.num idx
    then 0
    else if ltb idx first
    then start
    else main_walk m tab (idx - first) first start

unfoldable pub get_code_payload_size : Memory → Header → SectView → ℕ
get_code_payload_size m h tab = if ltb 1 tab.num then (sect_entry_at m tab 1).va else h.code_size

abbrev pub larger : ℕ → ℕ → ℕ
larger align a = if ltb align a then a else align

unfoldable pub get_main_align : Memory → SectView → ℕ
get_main_align m tab =
    if ltb 0 tab.num
    then larger (larger (larger 4 (sect_entry_at m tab 0).align) (sect_entry_at m tab 1).align)
        (sect_entry_at m tab 2).align
    else 4

-- The walk that sizes the block, over `left` main sections from `i`.
unfoldable pub size_walk : Memory → SectView → ℕ → ℕ → ℕ → ℕ
size_walk m tab zero i tot = tot
size_walk m tab (suc left) i tot =
    let e = sect_entry_at m tab i in
    size_walk m tab left (i + 1) (add32 (align_up tot e.align) e.size)

unfoldable pub get_ram_size_sections : Memory → Header → SectView → LoadMode → ℕ
unfolding get_main_sections_start
get_ram_size_sections m h tab mode =
    size_walk m tab (3 - first_in_block mode) (first_in_block mode)
      (get_main_sections_start h tab mode)

-- The arithmetic for an untagged header, also where the section table is malformed.
unfoldable pub get_ram_size_untagged : Header → LoadMode → ℕ
get_ram_size_untagged h mode =
    let tot_size = add32 (add32 (h.num_lot * 4) h.data_size) h.bss_size in
    elim mode [
      | copy_text_data ↦ add32 tot_size h.code_size
      | copy_all ↦ add32 tot_size (add32 (get_code_offset h) h.code_size)
      | xip ↦ tot_size
    ]

unfoldable pub get_ram_size_for_header : Memory → ℕ → LoadMode → ℕ
get_ram_size_for_header m p mode =
    let h = header_at m p in
    if is_sectioned h
    then elim (get_sectab m p false) [
      | none ↦ get_ram_size_untagged h mode
      | some tab ↦
          if ltb 0 tab.num then get_ram_size_sections m h tab mode else get_ram_size_untagged h mode
    ]
    else get_ram_size_untagged h mode

-- `udynlink_get_image_size_bounded`; a base of 0 is NULL.
unfoldable pub get_image_size_bounded : Memory → ℕ → ℕ → ℕ
get_image_size_bounded m p avail =
    let tot_size = get_image_size m p in
    if p == 0 || ltb avail 32 || tot_size == 0 || ltb avail tot_size
    then 0
    else if not (is_sectioned (header_at m p))
    then tot_size
    else elim (get_sectab m p false) [
      | none ↦ 0
      | some tab ↦ u32 (tot_size + tagged_sizes m tab (λ cls. cls != class_bss))
    ]
